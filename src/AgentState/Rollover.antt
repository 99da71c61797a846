-- ===== src/AgentState/Rollover.antt =====
-- agenttown-mcp/pkg/agentstate/agent_state.go: the game day, as perceptions move it.
pub mod Days
use smart_npc.Prelude.{Bool, true, false}
use smart_npc.Prelude.Tests.{if◌then◌else◌}
use smart_npc.Prelude.Int.{ℤ, pos, ltb_ℤ, leb_ℤ}
use smart_npc.AgentState.{AgentState}
use smart_npc.AgentState.Perception.{latest_day_count}
use smart_npc.AgentState.Schedule.{write_through}

module _ {F : Type 0} where
  -- The new state, whether the day rolled over, the day before and the day now.
  unfoldable pub detect_day_rollover : AgentState F → AgentState F × Bool × ℤ × ℤ
  detect_day_rollover a =
      let day = latest_day_count a.perception.latest_perception in
      let prev = a.persistent.schedule.current_day in
      if leb_ℤ day prev
      then (a, false, prev, day)
      else let a' = record a {
        persistent =
            write_through (record (a.persistent.schedule) { current_day = day }) a.persistent;
      } in
        if ltb_ℤ prev (pos 0) then (a', false, prev, day) else (a', true, prev, day)

  -- `SetSocialNeed`
  pub set_social_need : ℤ → AgentState F → AgentState F
  set_social_need v a =
      let low = if ltb_ℤ v (pos 0) then pos 0 else v in
      record a { social_need = if ltb_ℤ (pos 10) low then pos 10 else low }
