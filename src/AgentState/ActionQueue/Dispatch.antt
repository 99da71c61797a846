-- ===== src/AgentState/ActionQueue/Dispatch.antt =====
-- The dispatch gate of agent_state.go over a history of appends, dispatches and refusals.
use smart_npc.Prelude.{String, ◌≡◌, true, false, Option, none, some, List, [], ◌∷◌, ◌++◌, arith}
use smart_npc.AgentState.Flight.{PlannedAction, Flight}
use smart_npc.AgentState.ActionQueue.{
  pop_action_if_idle, prepend_action, append_queue_action, should_dispatch_first,
  need_fallback_dispatch, has_in_flight_action,
}

-- What the worker does with the queue: the layer's streaming appends an action, a dispatch takes one
-- when idle, and one that UE refuses as busy is put back in front.
pub data QueueCall (F : Type 0) : Type 0 where
  append : PlannedAction F → QueueCall F
  dispatch refused : QueueCall F
  in_flight : String → QueueCall F

module _ {F : Type 0} where
  abbrev put_back : Flight F × Option (PlannedAction F × String) → Flight F
  put_back (f, none) = f
  put_back (f, some (act, stop)) = prepend_action act f

  queue_step : Flight F → QueueCall F → Flight F
  queue_step f (append act) = append_queue_action act f
  queue_step f dispatch = (pop_action_if_idle f).0
  queue_step f refused = put_back (pop_action_if_idle f)
  queue_step f (in_flight action_id) = record f { current_action_id = action_id }

  abbrev sent_of : Option (PlannedAction F × String) → List (PlannedAction F)
  sent_of none = []
  sent_of (some (act, stop)) = act ∷ []

  -- The actions that a call hands to UE, and those that it puts in.
  abbrev sent : Flight F → QueueCall F → List (PlannedAction F)
  sent f dispatch = sent_of (pop_action_if_idle f).1
  sent f _ = []

  abbrev added : QueueCall F → List (PlannedAction F)
  added (append act) = act ∷ []
  added _ = []

  pub queue_run : Flight F → List (QueueCall F) → Flight F
  queue_run f [] = f
  queue_run f (c ∷ cs) = queue_run (queue_step f c) cs

  pub all_sent : Flight F → List (QueueCall F) → List (PlannedAction F)
  all_sent f [] = []
  all_sent f (c ∷ cs) = sent f c ++ all_sent (queue_step f c) cs

  pub all_added : List (QueueCall F) → List (PlannedAction F)
  all_added [] = []
  all_added (c ∷ cs) = added c ++ all_added cs

  -- While an action is in flight nothing is dispatched, and the pending stop stays for later.
  pub busy_holds :
      (f : Flight F)
      → has_in_flight_action f ≡ true
      → (pop_action_if_idle f ≡ (f, none))
        × (should_dispatch_first f ≡ false)
        × (need_fallback_dispatch f ≡ false)
  unfolding has_in_flight_action pop_action_if_idle should_dispatch_first need_fallback_dispatch
  busy_holds f h = ground arith
