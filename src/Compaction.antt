-- ===== src/Compaction.antt =====
-- agenttown-mcp/cmd/agenttown-mcp/compaction.go, with pkg/llmtokens/estimate.go: when the dialogue
-- history of the tactical layer is compacted, and what is kept of it. The language model that
-- writes the summary is a parameter: its answer, or none where the call fails.
pub mod Rounds
pub mod Window
use Prim.Native.Char.{code}
use Prim.Native.String.{[], ◌∷◌}
use smart_npc.Prelude.{
  ℕ, suc, ◌+◌, ◌/◌, String, Bool, true, false, Option, none, some, List, [], ◌∷◌, ◌++◌, str_eq, not,
  ◌&&◌, ◌||◌,
}
use smart_npc.Prelude.Tests.{ltb, leb, ◌==◌, if◌then◌else◌}
use smart_npc.Prelude.Lists.{length}
use smart_npc.AgentState.Conversation.{
  ToolCall, Message, Conversation, append_conversation_message, compact_conversation,
}

abbrev pub compact_trigger_tokens : ℕ
compact_trigger_tokens = 10000

abbrev pub compact_tail_rounds : ℕ
compact_tail_rounds = 4

-- `venus.Tool`, as far as its tokens are counted.
pub record Tool : Type 0 where
  pub name : String
  pub description : String
  pub parameters : String

abbrev pub is_assistant : Message → Bool
is_assistant m = str_eq m.role "assistant"

-- `in_scripts`: `unicode.Is` of the Han, Hiragana, Katakana and Hangul tables.
module _ (in_scripts : ℕ → Bool) where
  abbrev pub is_wide : ℕ → Bool
  is_wide r = in_scripts r || (leb 0x3000 r && leb r 0x303f) || (leb 0xff00 r && leb r 0xffef)

  -- The wide and the narrow runes of a text.
  count_runes : String → ℕ × ℕ
  count_runes [] = (0, 0)
  count_runes (ch ∷ rest) =
      let (wide, narrow) = count_runes rest in
      if is_wide (code ch) then (wide + 1, narrow) else (wide, narrow + 1)

  pub estimate_tokens : String → ℕ
  unfolding count_runes
  estimate_tokens s = let (wide, narrow) = count_runes s in (wide + 1) / 2 + (narrow + 3) / 4

  tool_tokens : List Tool → ℕ
  tool_tokens [] = 0
  tool_tokens (t ∷ ts) =
      estimate_tokens t.name
      + estimate_tokens t.description
      + estimate_tokens t.parameters
      + tool_tokens ts

  call_tokens : List ToolCall → ℕ
  call_tokens [] = 0
  call_tokens (tc ∷ tcs) =
      estimate_tokens tc.id
      + estimate_tokens tc.name
      + estimate_tokens tc.arguments
      + call_tokens tcs

  history_tokens : List Message → ℕ
  history_tokens [] = 0
  history_tokens (m ∷ ms) =
      estimate_tokens m.content
      + estimate_tokens m.tool_call_id
      + call_tokens m.tool_calls
      + history_tokens ms

  pub estimate_input_tokens : String → List Tool → String → List Message → String → ℕ
  unfolding tool_tokens history_tokens
  estimate_input_tokens system tools summary history user =
      estimate_tokens system
      + estimate_tokens summary
      + estimate_tokens user
      + tool_tokens tools
      + history_tokens history

-- The loop of `splitTailRounds`, which runs from the end: the assistants counted so far, and the
-- two parts once the count is reached.
scan_back : ℕ → List Message → ℕ × Option (List Message × List Message)
scan_back rounds [] = (0, none)
scan_back rounds (m ∷ ms) =
    let (count, found) = scan_back rounds ms in
    elim found [
      | some (evict, tail) ↦ (count, some (m ∷ evict, tail))
      | none ↦
          if not (is_assistant m)
          then (count, none)
          else (count + 1, if count + 1 == rounds then some ([], m ∷ ms) else none)
    ]

abbrev pub or_all :
    List Message → Option (List Message × List Message) → List Message × List Message
or_all history none = ([], history)
or_all history (some parts) = parts

unfoldable pub split_tail_rounds : List Message → ℕ → List Message × List Message
unfolding scan_back
split_tail_rounds history rounds =
    if rounds == 0
    then ([], history)
    else if leb (length history) 1
    then ([], history)
    else or_all history (scan_back rounds history).1

-- The agent's dialogue, and `compacting`.
pub record Dialogue : Type 0 where
  pub talk : Conversation
  pub compacting : Bool

-- `maybeCompactConversation` up to the call of the language model: what to summarise and what to
-- keep, where a compaction begins. `est_tokens` is the estimate of the request.
unfoldable pub begin_compaction :
    Bool → ℕ → Dialogue → Dialogue × Option (List Message × List Message)
unfolding split_tail_rounds
begin_compaction has_tactical_hc est_tokens d =
    let (evict, tail) = split_tail_rounds d.talk.conversation compact_tail_rounds in
    if not has_tactical_hc
    then (d, none)
    else if ltb est_tokens compact_trigger_tokens
    then (d, none)
    else if length evict == 0
    then (d, none)
    else if d.compacting
    then (d, none)
    else (record d { compacting = true }, some (evict, tail))

-- The rest, once the summary came or failed.
pub end_compaction : List Message → Option String → Dialogue → Dialogue
end_compaction tail none d = record d { compacting = false }
end_compaction tail (some summary) d = record d {
  talk = compact_conversation summary tail d.talk;
  compacting = false;
}
