-- ===== src/AgentState/Reactive.antt =====
-- agenttown-mcp/pkg/agentstate/agent_state.go: the dedupe window of reactive triggers. Times are
-- nanoseconds since Go's zero time.
pub mod Window
use smart_npc.Prelude.{ℕ, ◌+◌, String, Bool, true, false, Option, none, some, List, [], ◌∷◌, str_eq}
use smart_npc.Prelude.Tests.{ltb, if◌then◌else◌}
use smart_npc.AgentState.{AgentState}

-- Go's `map[string]time.Time`.
unfoldable pub lookup_at : String → List (String × ℕ) → Option ℕ
lookup_at key [] = none
lookup_at key ((k, t) ∷ m) = if str_eq k key then some t else lookup_at key m

unfoldable pub store_at : String → ℕ → List (String × ℕ) → List (String × ℕ)
store_at key t [] = (key, t) ∷ []
store_at key t ((k, u) ∷ m) = if str_eq k key then (k, t) ∷ m else (k, u) ∷ store_at key t m

-- `now.Sub(lastAt) < window`, over signed durations: a clock that went back is within the window.
abbrev within : ℕ → ℕ → Option ℕ → Bool
within now window none = false
within now window (some last_at) = ltb now (last_at + window)

module _ {F : Type 0} where
  unfoldable pub dedupe_reactive : String → ℕ → ℕ → AgentState F → AgentState F × Bool
  dedupe_reactive key now window a =
      if within now window (lookup_at key a.last_reactive_at)
      then (a, false)
      else (record a { last_reactive_at = store_at key now a.last_reactive_at }, true)
