-- ===== src/AgentState/Refill.antt =====
-- agenttown-mcp/pkg/agentstate/agent_state.go: the guards round a tactical decomposition, and its
-- commit.
pub mod Guards
pub mod Budget
pub mod Hints
use smart_npc.Prelude.{
  ℕ, ◌+◌, String, Bool, true, false, Option, none, some, List, [], ◌∷◌, ◌&&◌, str_eq, not,
}
use smart_npc.Prelude.Tests.{ltb, leb, if◌then◌else◌}
use smart_npc.Prelude.Lists.{length}
use smart_npc.Prelude.Int.{ℤ}
use smart_npc.Protocol.{PhysicalState}
use smart_npc.AgentState.{AgentState}
use smart_npc.AgentState.Perception.{latest_zone}
use smart_npc.AgentState.Schedule.{write_through}
use smart_npc.AgentState.Flight.{PlannedAction}
use smart_npc.AgentState.ActionQueue.{is_only_speak}

pub record TacticalRefillPrep (F : Type 0) : Type 0 where
  pub goal : String
  pub slot : String
  pub index : ℤ
  pub zone : String
  pub physical : Option (PhysicalState F)
  pub hint : String
  pub is_redecompose : Bool
  pub should_skip : Bool
  pub already_has_queue : Bool

pub record ReplanPrep (F : Type 0) : Type 0 where
  pub goal : String
  pub slot : String
  pub index : ℤ
  pub zone : String
  pub physical : Option (PhysicalState F)

abbrev pub speak_hint : String
speak_hint =
    "上次分解只返回了 1 个 speak，队列数秒即耗尽导致频繁重分解。本次必须在 speak 之后返回至少一个带 duration 的长动作（InteractSmartObject 设施互动或 exercise 原地锻炼），让 NPC 持续活动到时段结束"

abbrev pub exhausted_hint : String
exhausted_hint =
    "上次队列提前耗尽，未安排长动作收尾——本次请确保最后一个 action 是 InteractSmartObject 长动作（见 function calling 的 tools 字段），让 NPC 持续工作到下一时段"

module _ {F : Type 0} where
  -- `Zone` and `Physical` of the preparations; the rest as before the guards.
  prep_of : String → String → ℤ → AgentState F → TacticalRefillPrep F
  prep_of goal slot idx a = record {
    goal = goal;
    slot = slot;
    index = idx;
    zone = latest_zone a.perception.latest_perception;
    physical = a.perception.latest_physical;
    hint = "";
    is_redecompose = false;
    should_skip = false;
    already_has_queue = false;
  }

  -- The hint of a second decomposition in one slot.
  auto_hint : Bool → AgentState F → String
  auto_hint suppress_auto_hint a =
      if str_eq a.replan_hint "" && not suppress_auto_hint
      then if a.last_queue_only_speak then speak_hint else exhausted_hint
      else a.replan_hint

  -- What follows the guards: the hint is consumed and the queue is cleared.
  prepare :
      String → Bool → TacticalRefillPrep F → AgentState F → AgentState F × TacticalRefillPrep F
  prepare hint again prep a = (
    record a { replan_hint = ""; flight = record (a.flight) { action_queue = [] } },
    record prep { is_redecompose = again; hint = hint },
  )

  pub begin_tactical_refill :
      String → String → ℤ → Bool → Bool → AgentState F → AgentState F × TacticalRefillPrep F
  unfolding prep_of auto_hint prepare
  begin_tactical_refill goal slot idx has_tactical_hc suppress_auto_hint a =
      let prep = prep_of goal slot idx a in
      let skip = record prep { should_skip = true } in
      if not has_tactical_hc
      then (a, skip)
      else if not (str_eq a.flight.current_action_id "")
      then (a, skip)
      else if str_eq goal ""
      then (a, skip)
      else if not (str_eq slot a.persistent.schedule.current_slot)
      then prepare a.replan_hint false prep a
      else if ltb 0 (length a.flight.action_queue)
      then (a, record skip { already_has_queue = true })
      else if leb 3 a.redecompose_count
      then (a, skip)
      else prepare (auto_hint suppress_auto_hint a) true prep a

  unfoldable pub commit_tactical_refill : String → ℤ → Bool → AgentState F → AgentState F
  commit_tactical_refill slot idx is_redecompose a =
      if is_redecompose
      then record a { redecompose_count = a.redecompose_count + 1 }
      else record a {
        redecompose_count = 0;
        persistent =
            write_through
              (record (a.persistent.schedule) { current_slot = slot; current_plan_index = idx })
              a.persistent;
      }

  -- `ReplaceQueue`
  unfoldable pub replace_queue : List (PlannedAction F) → AgentState F → AgentState F
  replace_queue actions a = record a {
    flight = record (a.flight) { action_queue = actions };
    last_queue_only_speak = is_only_speak actions;
  }

  -- `RefillQueue`
  unfoldable pub refill_queue : List (PlannedAction F) → String → AgentState F → AgentState F
  refill_queue actions slot a = record a {
    flight = record (a.flight) { action_queue = actions };
    persistent =
        write_through (record (a.persistent.schedule) { current_slot = slot }) a.persistent;
  }

  unfoldable pub commit_replan : List (PlannedAction F) → String → ℤ → AgentState F → AgentState F
  commit_replan actions slot idx a = record a {
    flight = record (a.flight) { action_queue = actions };
    redecompose_count = 0;
    replan_hint = "";
    persistent =
        write_through
          (record (a.persistent.schedule) { current_slot = slot; current_plan_index = idx })
          a.persistent;
  }

  -- `BeginReplan` ignores whether there is a client.
  abbrev pub begin_replan : String → String → ℤ → Bool → AgentState F → ReplanPrep F
  begin_replan goal slot idx has_tactical_hc a = record {
    goal = goal;
    slot = slot;
    index = idx;
    zone = latest_zone a.perception.latest_perception;
    physical = a.perception.latest_physical;
  }

  abbrev pub increment_redecompose_count : AgentState F → AgentState F
  increment_redecompose_count a = record a { redecompose_count = a.redecompose_count + 1 }

  abbrev pub reset_redecompose_count : AgentState F → AgentState F
  reset_redecompose_count a = record a { redecompose_count = 0 }

  abbrev pub set_replan_hint : String → AgentState F → AgentState F
  set_replan_hint reason a = record a { replan_hint = reason }

  abbrev pub set_replan_timestamps : ℕ → String → AgentState F → AgentState F
  set_replan_timestamps at game_time a = record a {
    last_replan_at = at;
    last_replan_game_time = game_time;
  }
