-- ===== src/Tests/Planning.antt =====
-- The schedule, its decompositions and its revisions.
use smart_npc.Prelude.{ℕ, String, ◌≡◌, refl, true, false, List, [], ◌∷◌, ◌≤◌}
use smart_npc.Prelude.Int.{ℤ, pos}
use smart_npc.Protocol.{decoded}
use smart_npc.AgentState.Schedule.{load_persistent, set_identity}
use smart_npc.AgentState.Schedule.Rows.{IsDurable}
use smart_npc.AgentState.Durability.{
  ScheduleCall, plan, slot_switch, perceive, rollover, commit_refill, schedule_run,
  restart_restores,
}
use smart_npc.AgentState.Refill.Budget.{Round, count_decompositions, at_most_four_decompositions}
use smart_npc.AgentState.Reactive.Window.{Trigger}
use smart_npc.AgentState.Schedule.{ScheduleState, Persistent}
use smart_npc.AgentState.Schedule.Race.{Reaches, settled, writes_can_overtake}
use smart_npc.Tests.Data.{whole_seconds, idle, fresh, agent, perceived}

abbrev day_of_calls : List (ScheduleCall ℤ)
day_of_calls =
    perceive (decoded (perceived "plaza" (pos 2)))
    ∷ rollover
    ∷ commit_refill "09:00-10:00" (pos 1) false
    ∷ slot_switch
    ∷ []

restart_restores_example :
    let last = (schedule_run agent (plan "09:00-10:00: read" (pos 1) ∷ day_of_calls)).persistent in
    ((load_persistent (set_identity last.agent_id last.store fresh.persistent)).0.schedule
      ≡ last.schedule)
    × ((load_persistent (set_identity last.agent_id last.store fresh.persistent)).1 ≡ true)
    × IsDurable [] last
restart_restores_example =
    restart_restores agent [] "09:00-10:00: read" (pos 1) day_of_calls fresh.persistent refl

abbrev round : Round ℤ
round = record {
  flight = record idle { action_queue = [] };
  goal = "work";
  index = pos 0;
  has_tactical_hc = true;
  suppress_auto_hint = false;
}

at_most_four_decompositions_example :
    count_decompositions "08:00-12:00" agent (round ∷ round ∷ round ∷ round ∷ round ∷ []) ≤ 4
at_most_four_decompositions_example =
    at_most_four_decompositions "08:00-12:00" agent (round ∷ round ∷ round ∷ round ∷ round ∷ [])

abbrev trigger : String → ℕ → Trigger
trigger key now = record { key = key; now = now; window = 30 }

abbrev morning : ScheduleState
morning = agent.persistent.schedule

abbrev cleared : ScheduleState
cleared = record morning { current_slot = "" }

writes_can_overtake_example :
    (q : Persistent) × Reaches (settled agent.persistent) (settled q)
    × (q.schedule ≡ cleared)
    × ((load_persistent q).0.schedule ≡ morning)
writes_can_overtake_example = writes_can_overtake agent.persistent [] morning cleared refl
