-- ===== src/AgentState.antt =====
-- agenttown-mcp/pkg/agentstate/agent_state.go: the state of one agent. The fields of the struct
-- stand in groups, one for each child module, by the methods that touch them; those that cross
-- the groups are in Lifecycle, Refill and Rollover.
pub mod WorldEvents
pub mod Situations
pub mod Throttle
pub mod Conversation
pub mod Schedule
pub mod Perception
pub mod Flight
pub mod ActionQueue
pub mod Lifecycle
pub mod Refill
pub mod Rollover
pub mod Reactive
pub mod Durability
use smart_npc.Prelude.{ℕ, String, Bool, true, false, Option, none, some, List, [], ◌∷◌}
use smart_npc.Prelude.Int.{ℤ, pos}
use smart_npc.Float64.{Float64}
use smart_npc.Protocol.{absent}
use WorldEvents.{no_events}
use Situations.{ActiveSituation}
use Conversation.{TimeStop, clear_time_stop}
use Schedule.{Persistent, unplanned}
use Flight.{no_source, no_queue_status}

pub record AgentState (F : Type 0) : Type 0 where
  pub persistent : Persistent
  pub perception : Perception.Perception F
  pub flight : Flight.Flight F
  pub events : WorldEvents.WorldEvents F
  pub active_situations : List (ActiveSituation F)
  pub throttle : Throttle.Throttle F
  pub talk : Conversation.Conversation
  pub time_stop : TimeStop F
  pub redecompose_count : ℕ
  pub slot_switch_pending : Bool
  pub replan_hint : String
  pub last_queue_only_speak : Bool
  pub last_reactive_at : List (String × ℕ)
  pub last_replan_at : ℕ
  pub last_replan_game_time : String
  pub social_need : ℤ

module _ {F : Type 0} ⦃fl : Float64 F⦄ where
  open fl use {zero_f}

  -- `New`
  unfoldable pub new : AgentState F
  unfolding clear_time_stop no_events
  new = record {
    persistent = record { agent_id = ""; store = none; schedule = unplanned };
    perception = record {
      online = false;
      latest_physical = none;
      latest_perception = absent;
      latest_visible_agents = [];
      prev_zone = "";
      prev_object_ids = [];
      perception_count = 0;
    };
    flight = record {
      current_task = none;
      current_action_id = "";
      current_action_cmd = "";
      current_action_params = none;
      current_action_start = 0;
      current_action_src = no_source;
      current_action_tool_call_id = "";
      current_action_start_game = zero_f;
      action_queue = [];
      queue_status = no_queue_status;
      pending_stop_action_id = "";
      self_stop_in_progress = "";
      cleared_action = none;
      last_end_result = "";
      last_end_why = "";
      last_end_interrupted = false;
      unfinished_task = "";
    };
    events = no_events;
    active_situations = [];
    throttle = record {
      strategic_replan_count = 0;
      strategic_replan_day = pos 0;
      last_strategic_replan_gt = zero_f;
      plan_revisions = [];
    };
    talk = record { conversation = []; conversation_summary = ""; tactical_header_plan = "" };
    time_stop = clear_time_stop;
    redecompose_count = 0;
    slot_switch_pending = false;
    replan_hint = "";
    last_queue_only_speak = false;
    last_reactive_at = [];
    last_replan_at = 0;
    last_replan_game_time = "";
    social_need = pos 0;
  }
