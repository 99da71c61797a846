-- ===== src/Compaction/Rounds.antt =====
-- `splitTailRounds` of compaction.go: rounds, and tool results with their calls.
use smart_npc.Prelude.{ℕ, suc, String, ◌≡◌, Bool, true, List, [], ◌∷◌, ◌++◌, map, str_eq}
use smart_npc.Prelude.Tests.{if◌then◌else◌}
use smart_npc.Prelude.StringSet.{contains}
use smart_npc.AgentState.Conversation.{ToolCall, Message}
use smart_npc.Compaction.{is_assistant}

abbrev pub count_assistants : List Message → ℕ
count_assistants [] = 0
count_assistants (m ∷ ms) =
    if is_assistant m then suc (count_assistants ms) else count_assistants ms

-- The calls that the messages after `m` may answer, and whether `m` answers one if it is a result.
abbrev pub next_calls : Message → List String → List String
next_calls m calls = if is_assistant m then map (λ (tc : ToolCall). tc.id) m.tool_calls else calls

abbrev pub is_answer : Message → List String → Bool
is_answer m calls =
    if is_assistant m
    then true
    else if str_eq m.role "tool"
    then contains m.tool_call_id calls
    else true

-- Each tool result answers a call of the assistant before it, or one of `calls` at the start.
abbrev pub IsPaired : List String → List Message → Type 0
IsPaired calls [] = Unit {0}
IsPaired calls (m ∷ ms) = (is_answer m calls ≡ true) × IsPaired (next_calls m calls) ms

-- The two parts make up the history, and the second begins with an assistant and has `rounds`.
pub record IsSplit (rounds : ℕ) (history evict tail : List Message) : Type 0 where
  pub whole : evict ++ tail ≡ history
  pub first : Message
  pub later : List Message
  pub begins : tail ≡ first ∷ later
  pub is_round : is_assistant first ≡ true
  pub rounds_kept : count_assistants tail ≡ rounds
