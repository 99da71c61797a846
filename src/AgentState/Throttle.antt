-- ===== src/AgentState/Throttle.antt =====
-- agenttown-mcp/pkg/agentstate/agent_state.go: the throttle of strategic replans and the notes of
-- the plan revisions.
pub mod Quota
pub mod Revisions
use smart_npc.Prelude.{ℕ, ◌+◌, ◌-◌, String, Bool, true, false, List, [], ◌∷◌, ◌++◌, not, ◌&&◌}
use smart_npc.Prelude.Tests.{ltb, leb, if◌then◌else◌}
use smart_npc.Prelude.Lists.{length, drop}
use smart_npc.Prelude.Int.{ℤ, eqb_ℤ}
use smart_npc.Float64.{Float64}

pub record Throttle (F : Type 0) : Type 0 where
  pub strategic_replan_count : ℕ
  pub strategic_replan_day : ℤ
  pub last_strategic_replan_gt : F
  pub plan_revisions : List String

module _ {F : Type 0} where
  -- `if day != a.strategicReplanDay { … }`
  start_day : ℤ → Throttle F → Throttle F
  start_day day t =
      if eqb_ℤ day t.strategic_replan_day
      then t
      else record t { strategic_replan_day = day; strategic_replan_count = 0 }

  unfoldable pub record_plan_revision : String → Throttle F → Throttle F
  record_plan_revision note t =
      let notes = t.plan_revisions ++ note ∷ [] in
      record t {
        plan_revisions = if ltb 32 (length notes) then drop (length notes - 32) notes else notes;
      }

module _ {F : Type 0} ⦃fl : Float64 F⦄ where
  open fl use {zero_f, sub_f, lt_f}

  -- `a.lastStrategicReplanGT > 0 && nowGameSec > 0 && nowGameSec-a.lastStrategicReplanGT < minGapGameSec`
  abbrev pub is_too_soon : F → F → F → Bool
  is_too_soon now_game_sec last min_gap_game_sec =
      lt_f zero_f last
      && lt_f zero_f now_game_sec
      && lt_f (sub_f now_game_sec last) min_gap_game_sec

  unfoldable pub try_begin_strategic_replan : F → ℤ → ℕ → F → Throttle F → Throttle F × Bool
  unfolding start_day
  try_begin_strategic_replan now_game_sec day max_per_day min_gap_game_sec t =
      let t' = start_day day t in
      if leb max_per_day t'.strategic_replan_count
      then (t', false)
      else if is_too_soon now_game_sec t'.last_strategic_replan_gt min_gap_game_sec
      then (t', false)
      else (
        record t' {
          strategic_replan_count = t'.strategic_replan_count + 1;
          last_strategic_replan_gt = now_game_sec;
        },
        true,
      )
