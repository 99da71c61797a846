-- ===== src/AgentState/Lifecycle/Cleared.antt =====
-- `ClearForSlotSwitch`, `ClearForReplan` and `ClearInFlightKeepQueue` side by side.
use smart_npc.Prelude.{◌⊎◌, ◌≡◌, ◌≢◌, some, [], eq_iff, arith}
use smart_npc.Prelude.Lists.{length}
use smart_npc.AgentState.{AgentState}
use smart_npc.AgentState.Schedule.{write_through, persist_schedule}
use smart_npc.AgentState.Flight.{current_info, clear_flight, clear_in_flight_keep_queue}
use smart_npc.AgentState.Lifecycle.{clear_for_slot_switch, clear_for_replan, interrupt_keep_queue}

module _ {F : Type 0} (a : AgentState F) where
  -- A slot switch empties the in-flight action, the queue, the slot and the counter, hands the
  -- action over to the stash where there is one, and reports what was there. It keeps the plan,
  -- the plan's day and the pending world events; a replan does the same.
  pub clear_for_slot_switch_lem :
      let (b, info) = clear_for_slot_switch a in
      (b.flight.current_action_id ≡ "")
      × (b.flight.action_queue ≡ [])
      × (b.persistent.schedule ≡ record (a.persistent.schedule) { current_slot = "" })
      × (b.redecompose_count ≡ 0)
      × (b.events ≡ a.events)
      × (info.action_id ≡ a.flight.current_action_id)
      × (info.queue_len ≡ length a.flight.action_queue)
      × (((a.flight.current_action_id ≢ "")
            × (b.flight.cleared_action ≡ some (current_info a.flight)))
          ⊎ ((a.flight.current_action_id ≡ "")
              × (b.flight.cleared_action ≡ a.flight.cleared_action)))
      × (clear_for_replan a ≡ clear_for_slot_switch a)
  unfolding clear_for_slot_switch clear_for_replan clear_flight write_through persist_schedule
  clear_for_slot_switch_lem = ground (arith, eq_iff a.flight.current_action_id "")

  -- A time_to_stop empties the same in-flight fields and stashes the action in the same way, and
  -- keeps the queue, the schedule and the counter.
  pub interrupt_keep_queue_lem :
      let (b, info) = interrupt_keep_queue a in
      let c = (clear_for_slot_switch a).0 in
      (b.flight ≡ record (c.flight) { action_queue = a.flight.action_queue })
      × (b.persistent.schedule ≡ a.persistent.schedule)
      × (b.redecompose_count ≡ a.redecompose_count)
      × (info ≡ (clear_for_slot_switch a).1)
  unfolding clear_for_slot_switch interrupt_keep_queue clear_flight clear_in_flight_keep_queue
      write_through persist_schedule
  interrupt_keep_queue_lem = ground arith
