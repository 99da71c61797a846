-- ===== src/AgentState/Rollover/Days.antt =====
-- `DetectDayRollover` and `SetSocialNeed`.
use smart_npc.Prelude.{◌⊎◌, ◌≡◌, ◌↔◌, true, false, arith}
use smart_npc.Prelude.Int.{ℤ, pos, ◌≤ℤ◌, ◌<ℤ◌}
use smart_npc.AgentState.{AgentState}
use smart_npc.AgentState.Perception.{latest_day_count}
use smart_npc.AgentState.Schedule.{write_through, persist_schedule}
use smart_npc.AgentState.Rollover.{detect_day_rollover, set_social_need}

module _ {F : Type 0} where
  -- A check reports a rollover exactly when the plan had a day and the perceived day is later. The
  -- current day never goes back and is never behind the perceived one, and a second check on the
  -- same perception reports none.
  pub detect_day_rollover_lem :
      (a : AgentState F)
      → let (b, rolled, prev, day) = detect_day_rollover a in
        ((rolled ≡ true) ↔ ((pos 0 ≤ℤ prev) × (prev <ℤ day)))
        × (prev ≤ℤ b.persistent.schedule.current_day)
        × (day ≤ℤ b.persistent.schedule.current_day)
        × (day ≡ latest_day_count b.perception.latest_perception)
        × ((detect_day_rollover b).1 ≡ false)
  unfolding detect_day_rollover write_through persist_schedule
  detect_day_rollover_lem a = ground arith

  -- The social need is between 0 and 10 whatever is set: the value itself, or the
  -- nearer bound where it is outside.
  pub set_social_need_bounds :
      (v : ℤ) (a : AgentState F)
      → let need = (set_social_need v a).social_need in
        (pos 0 ≤ℤ need)
        × (need ≤ℤ pos 10)
        × ((need ≡ v) ⊎ ((v <ℤ pos 0) × (need ≡ pos 0)) ⊎ ((pos 10 <ℤ v) × (need ≡ pos 10)))
  unfolding set_social_need
  set_social_need_bounds v a = ground arith
