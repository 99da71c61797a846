-- ===== src/AgentState/Flight.antt =====
-- agenttown-mcp/pkg/agentstate/agent_state.go: the in-flight action, the stash of a cleared one, the
-- stop markers, how the last action ended, the action queue and the UE-side queue status.
-- These fields of `AgentState` stand together here, so that a method that touches no other is a
-- function on them. Times are nanoseconds since Go's zero time, which is 0.
pub mod Completion
pub mod Accounting
use smart_npc.Prelude.{
  ℕ, String, Bool, true, false, Option, none, some, List, [], ◌∷◌, ◌++◌, str_eq, not, ◌&&◌,
}
use smart_npc.Prelude.Tests.{ltb, ◌==◌, if◌then◌else◌}
use smart_npc.Prelude.Lists.{length}
use smart_npc.Prelude.Int.{ℤ}
use smart_npc.Protocol.{
  Params, CurrentTaskProgress, ActionQueuedPayload, QueueStatus, queued, advanced, timeout,
  other_status,
}

pub record PlannedAction (F : Type 0) : Type 0 where
  pub action : String
  pub params : Params F
  pub tool_call_id : String

-- `ActionSource`; `no_source` is the empty string.
pub data ActionSource : Type 0 where
  no_source source_tool source_tactical : ActionSource

-- `clearedActionInfo`, and the values that a completion reports of an action.
pub record ActionInfo (F : Type 0) : Type 0 where
  pub action_id : String
  pub cmd : String
  pub params : Params F
  pub start : ℕ
  pub src : ActionSource
  pub tool_call_id : String

pub record QueuedStatus (F : Type 0) : Type 0 where
  pub queued_action_id : String
  pub queued_group : String
  pub queued_position : Option ℤ
  pub queued_estimated_wait : Option F
  pub queued_at : ℕ

pub record Flight (F : Type 0) : Type 0 where
  pub current_task : Option (CurrentTaskProgress F)
  pub current_action_id : String
  pub current_action_cmd : String
  pub current_action_params : Params F
  pub current_action_start : ℕ
  pub current_action_src : ActionSource
  pub current_action_tool_call_id : String
  pub current_action_start_game : F
  pub action_queue : List (PlannedAction F)
  pub queue_status : QueuedStatus F
  pub pending_stop_action_id : String
  pub self_stop_in_progress : String
  pub cleared_action : Option (ActionInfo F)
  pub last_end_result : String
  pub last_end_why : String
  pub last_end_interrupted : Bool
  pub unfinished_task : String

pub record CompletionResult (F : Type 0) : Type 0 where
  pub was_in_flight : Bool
  pub was_pending_stop : Bool
  pub was_self_stop : Bool
  pub was_expected_interrupt : Bool
  pub info : ActionInfo F

pub record InFlightInfo (F : Type 0) : Type 0 where
  pub action_id : String
  pub action_cmd : String
  pub params : Params F
  pub queue_len : ℕ

module _ {F : Type 0} where
  abbrev pub no_queue_status : QueuedStatus F
  no_queue_status = record {
    queued_action_id = "";
    queued_group = "";
    queued_position = none;
    queued_estimated_wait = none;
    queued_at = 0;
  }

  abbrev pub no_info : ActionInfo F
  no_info = record {
    action_id = "";
    cmd = "";
    params = none;
    start = 0;
    src = no_source;
    tool_call_id = "";
  }

  -- The in-flight fields as one value.
  abbrev pub current_info : Flight F → ActionInfo F
  current_info f = record {
    action_id = f.current_action_id;
    cmd = f.current_action_cmd;
    params = f.current_action_params;
    start = f.current_action_start;
    src = f.current_action_src;
    tool_call_id = f.current_action_tool_call_id;
  }

  -- `start_game` is the game time of the latest perception, `now` the wall clock.
  pub record_action_started :
      String → String → Params F → ActionSource → String → ℕ → F → Flight F → Flight F
  record_action_started action_id cmd params src tool_call_id now start_game f = record f {
    current_action_id = action_id;
    current_action_src = src;
    current_action_cmd = cmd;
    current_action_params = params;
    current_action_start = now;
    current_action_tool_call_id = tool_call_id;
    current_action_start_game = start_game;
    unfinished_task = "";
  }

  unfoldable pub record_action_interrupted : String → String → Flight F → Flight F
  record_action_interrupted task_desc reason f =
      if str_eq f.current_action_id "" then f else record f {
        last_end_result = "interrupted";
        last_end_why = reason;
        last_end_interrupted = true;
        unfinished_task = task_desc;
      }

  pub record_action_ended_by_schedule : String → Flight F → Flight F
  record_action_ended_by_schedule task_desc f =
      if str_eq f.current_action_id "" then f else record f {
        last_end_result = "scheduled";
        last_end_why = "";
        last_end_interrupted = true;
        unfinished_task = task_desc;
      }

  -- The parts of `RecordActionCompletion`, in the order of its body.
  -- `if a.currentTask != nil && a.currentTask.ActionID == actionID { a.currentTask = nil }`
  finish_task : String → Option (CurrentTaskProgress F) → Option (CurrentTaskProgress F)
  finish_task action_id none = none
  finish_task action_id (some t) = if str_eq t.action_id action_id then none else some t

  is_expected : String → Flight F → Bool
  is_expected result f = str_eq result "interrupted" && f.last_end_interrupted

  record_end : String → String → Flight F → Flight F
  unfolding is_expected
  record_end result reason f =
      if is_expected result f
      then record f { last_end_interrupted = false }
      else if not (str_eq result "")
      then record f { last_end_result = result; last_end_why = reason }
      else f

  abbrev pub stash_matches : String → Option (ActionInfo F) → Bool
  stash_matches action_id none = false
  stash_matches action_id (some c) = str_eq c.action_id action_id

  abbrev stashed : Option (ActionInfo F) → ActionInfo F
  stashed none = no_info
  stashed (some c) = c

  -- The in-flight fields are taken, or else a stash with the id; `currentActionSrc` is emptied in
  -- both cases.
  take_action : String → Flight F → Flight F × Bool × ActionInfo F
  take_action action_id f =
      if str_eq f.current_action_id action_id
      then (
        record f {
          current_action_id = "";
          current_action_cmd = "";
          current_action_params = none;
          current_action_start = 0;
          current_action_tool_call_id = "";
          current_action_src = no_source;
        },
        true,
        current_info f,
      )
      else if stash_matches action_id f.cleared_action
      then (
        record f { cleared_action = none; current_action_src = no_source },
        true,
        stashed f.cleared_action,
      )
      else (f, false, no_info)

  pub record_action_completion : String → String → String → Flight F → Flight F × CompletionResult F
  unfolding finish_task record_end take_action
  record_action_completion action_id result reason f =
      let ended =
        record_end result reason
          (record f { current_task = finish_task action_id f.current_task }) in
      let (g, was_in_flight, info) = take_action action_id ended in
      let was_pending = str_eq g.pending_stop_action_id action_id in
      let was_self = str_eq g.self_stop_in_progress action_id in
      (
        record g {
          pending_stop_action_id = if was_pending then "" else g.pending_stop_action_id;
          self_stop_in_progress = if was_self then "" else g.self_stop_in_progress;
          queue_status = no_queue_status;
        },
        record {
          was_in_flight = was_in_flight;
          was_pending_stop = was_pending;
          was_self_stop = was_self;
          was_expected_interrupt = is_expected result f;
          info = info;
        },
      )

  -- `RecordQueueStatus`; an unknown status falls through the `switch`.
  pub record_queue_status : ActionQueuedPayload F → ℕ → Flight F → Flight F
  record_queue_status payload now f = elim payload.status [
    | queued ↦ record f {
      queue_status = record {
        queued_action_id = payload.action_id;
        queued_group = payload.group;
        queued_position = payload.position;
        queued_estimated_wait = payload.estimated_wait_sec;
        queued_at = now;
      };
    }
    | advanced ↦ record f { queue_status = no_queue_status }
    | timeout ↦ record f { queue_status = no_queue_status }
    | other_status s ↦ f
  ]

  -- `ClearInFlightAction` leaves `currentActionToolCallID`.
  pub clear_in_flight_action : String → Flight F → Flight F
  clear_in_flight_action action_id f =
      if str_eq f.current_action_id action_id
      then record f {
        current_action_id = "";
        current_action_cmd = "";
        current_action_params = none;
        current_action_start = 0;
        current_action_src = no_source;
      }
      else f

  pub set_pending_stop_action_id : String → Flight F → Flight F
  set_pending_stop_action_id id f = record f { pending_stop_action_id = id }

  pub set_self_stop_in_progress : String → Flight F → Flight F
  set_self_stop_in_progress id f = record f { self_stop_in_progress = id }

  in_flight_info : Flight F → InFlightInfo F
  in_flight_info f = record {
    action_id = f.current_action_id;
    action_cmd = f.current_action_cmd;
    params = f.current_action_params;
    queue_len = length f.action_queue;
  }

  -- The part that `ClearForSlotSwitch` and `ClearInFlightKeepQueue` share: the in-flight action is
  -- stashed, if there is one, and its fields are emptied.
  stash_in_flight : Flight F → Flight F
  stash_in_flight f = record f {
    cleared_action =
        if str_eq f.current_action_id "" then f.cleared_action else some (current_info f);
    current_action_id = "";
    current_action_cmd = "";
    current_action_params = none;
    current_action_start = 0;
    current_action_src = no_source;
    current_action_tool_call_id = "";
    queue_status = no_queue_status;
  }

  -- `ClearInFlightKeepQueue`, before its write-through.
  unfoldable pub clear_in_flight_keep_queue : Flight F → Flight F × InFlightInfo F
  unfolding stash_in_flight in_flight_info
  clear_in_flight_keep_queue f = (stash_in_flight f, in_flight_info f)

  -- The part of `ClearForSlotSwitch` on these fields.
  unfoldable pub clear_flight : Flight F → Flight F × InFlightInfo F
  unfolding stash_in_flight in_flight_info
  clear_flight f = (record (stash_in_flight f) { action_queue = [] }, in_flight_info f)
