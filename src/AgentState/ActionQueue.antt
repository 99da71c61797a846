-- ===== src/AgentState/ActionQueue.antt =====
-- agenttown-mcp/pkg/agentstate/agent_state.go: the FIFO of planned actions and its dispatch gate.
pub mod Dispatch
use smart_npc.Prelude.{
  ℕ, String, Bool, true, false, Option, none, some, List, [], ◌∷◌, ◌++◌, str_eq, not, ◌&&◌,
}
use smart_npc.Prelude.Tests.{ltb, ◌==◌, if◌then◌else◌}
use smart_npc.Prelude.Lists.{length}
use smart_npc.AgentState.Flight.{PlannedAction, Flight}

module _ {F : Type 0} where
  pop : List (PlannedAction F) → Flight F → Flight F × Option (PlannedAction F)
  pop [] f = (f, none)
  pop (act ∷ rest) f = (record f { action_queue = rest }, some act)

  unfoldable pub pop_action : Flight F → Flight F × Option (PlannedAction F)
  unfolding pop
  pop_action f = pop f.action_queue f

  unfoldable pub peek_action : Flight F → Option (PlannedAction F)
  peek_action f = elim f.action_queue [ [] ↦ none | act ∷ rest ↦ some act ]

  pop_idle : List (PlannedAction F) → Flight F → Flight F × Option (PlannedAction F × String)
  pop_idle [] f = (f, none)
  pop_idle (act ∷ rest) f = if not (str_eq f.current_action_id "") then (f, none) else (
    record f { action_queue = rest; pending_stop_action_id = "" },
    some (act, f.pending_stop_action_id),
  )

  -- The action and the pending stop; `none` where the queue is empty or an action is in flight.
  pub pop_action_if_idle : Flight F → Flight F × Option (PlannedAction F × String)
  unfolding pop_idle
  pop_action_if_idle f = pop_idle f.action_queue f

  pub prepend_action : PlannedAction F → Flight F → Flight F
  prepend_action act f = record f { action_queue = act ∷ f.action_queue }

  pub append_queue_action : PlannedAction F → Flight F → Flight F
  append_queue_action act f = record f { action_queue = f.action_queue ++ act ∷ [] }

  pub should_dispatch_first : Flight F → Bool
  should_dispatch_first f = str_eq f.current_action_id "" && length f.action_queue == 1

  pub need_fallback_dispatch : Flight F → Bool
  need_fallback_dispatch f = str_eq f.current_action_id "" && ltb 0 (length f.action_queue)

  unfoldable pub has_queue_next : Flight F → Bool
  has_queue_next f = ltb 0 (length f.action_queue)

  unfoldable pub has_in_flight_action : Flight F → Bool
  has_in_flight_action f = not (str_eq f.current_action_id "")

  -- The loop of `ReplaceQueue`: every action is a speak.
  unfoldable pub all_speak : List (PlannedAction F) → Bool
  all_speak [] = true
  all_speak (act ∷ rest) = str_eq act.action "speak" && all_speak rest

  -- `onlySpeak`
  unfoldable pub is_only_speak : List (PlannedAction F) → Bool
  unfolding all_speak
  is_only_speak actions = ltb 0 (length actions) && all_speak actions

  -- `cloneQueue` copies the action and its parameters, and not the tool call id.
  unfoldable pub clone_queue : List (PlannedAction F) → List (PlannedAction F)
  clone_queue [] = []
  clone_queue (act ∷ rest) =
      record { action = act.action; params = act.params; tool_call_id = "" } ∷ clone_queue rest
