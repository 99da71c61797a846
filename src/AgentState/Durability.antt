-- ===== src/AgentState/Durability.antt =====
-- The persisted schedule across a restart: every method of the agent state that changes one of the
-- four persistent fields, in any order, with any of the others in between.
use smart_npc.Prelude.{String, ◌≡◌, refl, Bool, true, some, List, [], ◌∷◌, inl, inr}
use smart_npc.Prelude.Tests.{Bool-cases}
use smart_npc.Prelude.Int.{ℤ, pos, leb_ℤ, ltb_ℤ}
use smart_npc.Float64.{Float64}
use smart_npc.Protocol.{RawMessage, PerceptionPayload}
use smart_npc.AgentState.{AgentState}
use smart_npc.AgentState.Perception.{set_perception, latest_day_count}
use smart_npc.AgentState.Schedule.{
  Table, mysql_store, Persistent, set_daily_plan, set_current_plan_index, set_identity,
  load_persistent,
}
use smart_npc.AgentState.Schedule.Rows.{
  IsDurable, write_through-IsDurable, IsDurable-write_through, load-IsDurable,
}
use smart_npc.AgentState.Flight.{Flight, PlannedAction}
use smart_npc.AgentState.Lifecycle.{
  clear_for_slot_switch, interrupt_keep_queue, set_slot_switch_pending, stop,
}
use smart_npc.AgentState.Refill.{refill_queue, commit_tactical_refill, commit_replan}
use smart_npc.AgentState.Rollover.{detect_day_rollover}

pub data ScheduleCall (F : Type 0) : Type 0 where
  plan : String → ℤ → ScheduleCall F
  index : ℤ → ScheduleCall F
  slot_switch keep_queue defer_switch go_offline rollover : ScheduleCall F
  refill : List (PlannedAction F) → String → ScheduleCall F
  commit_refill : String → ℤ → Bool → ScheduleCall F
  replan : List (PlannedAction F) → String → ℤ → ScheduleCall F
  perceive : RawMessage (PerceptionPayload F) → ScheduleCall F
  fly : Flight F → ScheduleCall F

module _ {F : Type 0} ⦃fl : Float64 F⦄ where
  pub schedule_step : AgentState F → ScheduleCall F → AgentState F
  schedule_step a (plan p day) = record a { persistent = set_daily_plan p day a.persistent }
  schedule_step a (index idx) = record a { persistent = set_current_plan_index idx a.persistent }
  schedule_step a slot_switch = (clear_for_slot_switch a).0
  schedule_step a keep_queue = (interrupt_keep_queue a).0
  schedule_step a defer_switch = set_slot_switch_pending a
  schedule_step a go_offline = stop a
  schedule_step a rollover = (detect_day_rollover a).0
  schedule_step a (refill actions slot) = refill_queue actions slot a
  schedule_step a (commit_refill slot idx again) = commit_tactical_refill slot idx again a
  schedule_step a (replan actions slot idx) = commit_replan actions slot idx a
  schedule_step a (perceive payload) = record a {
    perception = (set_perception payload a.perception).0;
  }
  schedule_step a (fly flight) = record a { flight = flight }

  pub schedule_run : AgentState F → List (ScheduleCall F) → AgentState F
  schedule_run a [] = a
  schedule_run a (c ∷ cs) = schedule_run (schedule_step a c) cs

  rollover-IsDurable :
      (before : Table) (a : AgentState F)
      → IsDurable before a.persistent
      → IsDurable before (detect_day_rollover a).0.persistent
  unfolding detect_day_rollover
  rollover-IsDurable before a d =
      let day = latest_day_count a.perception.latest_perception in
      let prev = a.persistent.schedule.current_day in
      let late = IsDurable-write_through _ before a.persistent d in
      elim (Bool-cases (leb_ℤ day prev)) [
        | inl old ↦ rw old d
        | inr new ↦ rw new (elim (Bool-cases (ltb_ℤ prev (pos 0))) [
          | inl first ↦ rw first late
          | inr rolled ↦ rw rolled late
        ])
      ]

  schedule_step-IsDurable :
      (before : Table) (a : AgentState F) (c : ScheduleCall F)
      → IsDurable before a.persistent
      → IsDurable before (schedule_step a c).persistent
  unfolding schedule_step set_daily_plan set_current_plan_index clear_for_slot_switch
      interrupt_keep_queue set_slot_switch_pending stop refill_queue commit_tactical_refill
      commit_replan
  schedule_step-IsDurable before a rollover d = rollover-IsDurable before a d
  schedule_step-IsDurable before a (commit_refill slot idx true) d = d
  schedule_step-IsDurable before a (perceive payload) d = d
  schedule_step-IsDurable before a (fly flight) d = d
  schedule_step-IsDurable before a _ d = IsDurable-write_through _ before a.persistent d

  schedule_run-IsDurable :
      (before : Table) (a : AgentState F) (cs : List (ScheduleCall F))
      → IsDurable before a.persistent
      → IsDurable before (schedule_run a cs).persistent
  unfolding schedule_run
  schedule_run-IsDurable before a [] d = d
  schedule_run-IsDurable before a (c ∷ cs) d =
      schedule_run-IsDurable before (schedule_step a c) cs (schedule_step-IsDurable before a c d)

  -- With a MySQL store that answers, once a daily plan was set, and after any schedule changes, slot
  -- switches, rollovers, perceptions and the like that follow, a new process that binds the same
  -- identity and store loads exactly the schedule that was in memory; the rows of all other agents
  -- are those of before.
  pub restart_restores :
      (a : AgentState F) (before : Table) (p : String) (day : ℤ) (cs : List (ScheduleCall F))
      (fresh : Persistent)
      → a.persistent.store ≡ some (mysql_store before true)
      → let last = (schedule_run a (plan p day ∷ cs)).persistent in
        ((load_persistent (set_identity last.agent_id last.store fresh)).0.schedule ≡ last.schedule)
        × ((load_persistent (set_identity last.agent_id last.store fresh)).1 ≡ true)
        × IsDurable before last
  unfolding schedule_run
  restart_restores a before p day cs fresh e =
      let d = schedule_run-IsDurable before (schedule_step a (plan p day)) cs (
        unfold schedule_step set_daily_plan in
        write_through-IsDurable _ before before a.persistent e (λ other ne. refl)) in
      let l = load-IsDurable before (schedule_run a (plan p day ∷ cs)).persistent fresh d in
      (rw l, rw l, d)
