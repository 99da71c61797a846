-- ===== src/AgentState/Lifecycle.antt =====
-- agenttown-mcp/pkg/agentstate/agent_state.go: the methods that empty the state, at a slot switch, at
-- a replan, at a time_to_stop and when the agent goes offline.
pub mod Cleared
use smart_npc.Prelude.{ℕ, String, Bool, true, false, Option, none, some, List, [], ◌∷◌}
use smart_npc.Float64.{Float64}
use smart_npc.Protocol.{absent, PhysicalState, CurrentTaskProgress}
use smart_npc.AgentState.{AgentState}
use smart_npc.AgentState.WorldEvents.{forget_world_events}
use smart_npc.AgentState.Schedule.{write_through}
use smart_npc.AgentState.Flight.{
  Flight, InFlightInfo, PlannedAction, no_source, no_queue_status, clear_flight,
  clear_in_flight_keep_queue,
}

module _ {F : Type 0} where
  unfoldable pub clear_for_slot_switch : AgentState F → AgentState F × InFlightInfo F
  clear_for_slot_switch a =
      let (flight', info) = clear_flight a.flight in
      (
        record a {
          flight = flight';
          redecompose_count = 0;
          persistent =
              write_through (record (a.persistent.schedule) { current_slot = "" }) a.persistent;
        },
        info,
      )

  unfoldable pub clear_for_replan : AgentState F → AgentState F × InFlightInfo F
  unfolding clear_for_slot_switch
  clear_for_replan a = clear_for_slot_switch a

  unfoldable pub interrupt_keep_queue : AgentState F → AgentState F × InFlightInfo F
  interrupt_keep_queue a =
      let (flight', info) = clear_in_flight_keep_queue a.flight in
      (
        record a {
          flight = flight';
          persistent = write_through a.persistent.schedule a.persistent;
        },
        info,
      )

  unfoldable pub set_slot_switch_pending : AgentState F → AgentState F
  set_slot_switch_pending a = record a {
    slot_switch_pending = true;
    persistent = write_through (record (a.persistent.schedule) { current_slot = "" }) a.persistent;
  }

  unfoldable pub clear_slot_switch_pending : AgentState F → AgentState F
  clear_slot_switch_pending a = record a { slot_switch_pending = false }

module _ {F : Type 0} ⦃fl : Float64 F⦄ where
  open fl use {zero_f}

  -- The in-flight fields that `Stop` empties; the stop markers and `currentTask` stay.
  ground_flight : Flight F → Flight F
  ground_flight f = record f {
    current_action_id = "";
    current_action_src = no_source;
    current_action_cmd = "";
    current_action_params = none;
    current_action_start = 0;
    current_action_tool_call_id = "";
    action_queue = [];
    queue_status = no_queue_status;
    current_action_start_game = zero_f;
    last_end_result = "";
    last_end_why = "";
    last_end_interrupted = false;
    unfinished_task = "";
    cleared_action = none;
  }

  unfoldable pub stop : AgentState F → AgentState F
  unfolding ground_flight
  stop a = record a {
    perception = record (a.perception) { online = false; latest_perception = absent };
    flight = ground_flight a.flight;
    events = forget_world_events a.events;
    slot_switch_pending = false;
    redecompose_count = 0;
    persistent = write_through (record (a.persistent.schedule) { current_slot = "" }) a.persistent;
  }

module _ {F : Type 0} where
  -- `SetPhysicalState`, with the state before.
  abbrev pub set_physical_state :
      Option (PhysicalState F)
      → Option (CurrentTaskProgress F)
      → AgentState F
      → AgentState F × Option (PhysicalState F)
  set_physical_state physical task a = (
    record a {
      perception = record (a.perception) { latest_physical = physical };
      flight = record (a.flight) { current_task = task };
    },
    a.perception.latest_physical,
  )

  abbrev pub set_online : Bool → AgentState F → AgentState F
  set_online v a = record a { perception = record (a.perception) { online = v } }
