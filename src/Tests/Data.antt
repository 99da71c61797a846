-- ===== src/Tests/Data.antt =====
-- The inputs of the tests: game times are whole seconds.
use smart_npc.Prelude.{
  ℕ, ◌+◌, ◌-◌, ◌≡◌, ◌≢◌, String, true, false, none, some, [], ◌∷◌, str_eq, eq_iff,
}
use smart_npc.Prelude.Tests.{leb, if◌then◌else◌}
use smart_npc.Prelude.Int.{ℤ, pos, negsuc, pos_part, neg_part, ltb_ℤ, leb_ℤ}
use smart_npc.Float64.{Float64}
use smart_npc.Protocol.{absent, PerceptionPayload, WorldEventPayload}
use smart_npc.AgentState.{AgentState, new}
use smart_npc.AgentState.Flight.{PlannedAction, Flight, source_tactical, no_queue_status}
use smart_npc.AgentState.Schedule.{mysql_store}

abbrev difference : ℕ → ℕ → ℤ
difference a b = if leb b a then pos (a - b) else negsuc (b - a - 1)

instance abbrev pub whole_seconds : Float64 ℤ
whole_seconds = record {
  zero_f = pos 0;
  minus_one = negsuc 0;
  sub_f = λ a b. difference (pos_part a + neg_part b) (pos_part b + neg_part a);
  add_f = λ a b. difference (pos_part a + pos_part b) (neg_part a + neg_part b);
  lt_f = ltb_ℤ;
  le_f = leb_ℤ;
}

-- Texts that differ.
pub differ : (a b : String) → str_eq a b ≡ false → a ≢ b
differ a b h p = cc ((eq_iff a b).1 p)

abbrev pub event : String → WorldEventPayload ℤ
event event_id = record {
  event_id = event_id;
  category = "world";
  event_type = "malfunction";
  force = false;
  detach = false;
  severity = pos 3;
  subject = "H-03";
  game_time = "D12 12:00:00";
  location = "plaza";
  occurred_at = pos 1;
  payload = absent;
}

abbrev pub speak : PlannedAction ℤ
speak = record { action = "speak"; params = none; tool_call_id = "call_1" }

abbrev pub work : PlannedAction ℤ
work = record { action = "work"; params = none; tool_call_id = "call_2" }

-- Two actions wait.
abbrev pub idle : Flight ℤ
idle = record {
  current_task = none;
  current_action_id = "";
  current_action_cmd = "";
  current_action_params = none;
  current_action_start = 0;
  current_action_src = source_tactical;
  current_action_tool_call_id = "";
  current_action_start_game = pos 0;
  action_queue = speak ∷ work ∷ [];
  queue_status = no_queue_status;
  pending_stop_action_id = "";
  self_stop_in_progress = "";
  cleared_action = none;
  last_end_result = "";
  last_end_why = "";
  last_end_interrupted = false;
  unfinished_task = "";
}

-- `act_1` is in flight.
abbrev pub busy : Flight ℤ
busy = record idle {
  current_action_id = "act_1";
  current_action_cmd = "Wait";
  current_action_start = 5;
  pending_stop_action_id = "act_1";
}

abbrev pub fresh : AgentState ℤ
fresh = new

-- An agent with a store, in the slot of the morning.
abbrev pub agent : AgentState ℤ
agent = record fresh {
  persistent = record {
    agent_id = "H-01";
    store = some (mysql_store [] true);
    schedule = record {
      daily_plan = "08:00-12:00: work";
      current_day = pos 1;
      current_plan_index = pos 0;
      current_slot = "08:00-12:00";
    };
  };
  flight = idle;
}

abbrev pub perceived : String → ℤ → PerceptionPayload ℤ
perceived zone day = record {
  current_zone = some zone;
  physical_state_delta = ("energy", pos 7) ∷ [];
  visible_agents = [];
  nearby_objects = [];
  environment = record {
    game_time_sec = pos 100;
    time_of_day_sec = pos 100;
    day_count = day;
    time_scale = pos 1;
    weather = "";
  };
}
