-- ===== src/Reaction.antt =====
-- agenttown-mcp/cmd/agenttown-mcp/world_event_dispatch.go: the guard of a reaction task, with its
-- severity bar and its deadline, and how event_router.go decides on an interruption through it; and the slot that lets one replan run at a time. The fields are
-- those of `agentContext` in main.go.
pub mod Ladder
pub mod Deadline
use smart_npc.Prelude.{ℕ, String, Bool, true, false, Option, none, some, str_eq, not, ◌&&◌, ◌||◌}
use smart_npc.Prelude.Tests.{if◌then◌else◌}
use smart_npc.Prelude.Int.{ℤ, pos, ltb_ℤ}
use smart_npc.Float64.{Float64}
use smart_npc.AgentState.{AgentState}
use smart_npc.AgentState.Perception.{latest_game_time_sec}
use smart_npc.AgentState.Flight.{Flight, record_action_interrupted}
use smart_npc.Protocol.{WorldEventPayload}
use smart_npc.AgentState.WorldEvents.{remove_queued_world_event}
use smart_npc.AgentState.Lifecycle.{clear_for_replan, interrupt_keep_queue}

pub data ReplanKind : Type 0 where
  no_kind tactical_kind strategic_kind : ReplanKind

-- The motives of a router's decision, `RouterMotive…`, and the decision to interrupt.
pub data Motive : Type 0 where
  urgent situation_resolved social : Motive

pub record RouterDecision : Type 0 where
  pub severity : ℤ
  pub motive : Motive

pub record Coordination (F : Type 0) : Type 0 where
  pub stopped : Bool
  pub replan_in_progress : Bool
  pub replan_kind : ReplanKind
  pub reaction_active : Bool
  pub reaction_severity : ℤ
  pub reaction_deadline_game_sec : F
  pub reaction_desc : String
  pub reaction_social : Bool

abbrev pub deadline_hint : String
deadline_hint = "【反应截止】对紧急事件的反应时间已用完，请立即回到当前时段目标的原有日程继续安排。"

abbrev pub deadline_reason : String
deadline_reason = "反应截止时间到，切回日程"

abbrev pub clamp_severity : ℤ → ℤ
clamp_severity severity =
    let low = if ltb_ℤ severity (pos 0) then pos 0 else severity in
    if ltb_ℤ (pos 10) low then pos 10 else low

-- What ends a turn of the loop of `acquireReplanSlot`: the agent stopped, the slot was taken, or
-- it is held by another and the loop goes on.
pub data SlotTurn : Type 0 where
  gave_up acquired held : SlotTurn

module _ {F : Type 0} where
  pub acquire_replan_slot : ReplanKind → Coordination F → Coordination F × SlotTurn
  acquire_replan_slot kind c =
      if c.stopped
      then (c, gave_up)
      else if not c.replan_in_progress
      then (record c { replan_in_progress = true; replan_kind = kind }, acquired)
      else (c, held)

  pub release_replan_slot : Coordination F → Coordination F
  release_replan_slot c = record c { replan_in_progress = false; replan_kind = no_kind }

  unfoldable pub may_interrupt_reaction : ℤ → Coordination F → Bool
  may_interrupt_reaction severity c = not c.reaction_active || ltb_ℤ c.reaction_severity severity

  -- `recordInterrupted`; the description of the task is prompt text, a parameter.
  unfoldable pub record_interrupted : String → String → Flight F → Flight F
  record_interrupted task_desc reason f =
      if str_eq f.current_action_cmd "" then f else record_action_interrupted task_desc reason f

module _ {F : Type 0} ⦃fl : Float64 F⦄ where
  open fl use {zero_f, add_f, lt_f, le_f}

  -- `span` is `reactionDeadlineGameSec`, 3600 s.
  unfoldable pub begin_reaction : F → ℤ → F → String → Bool → Coordination F → Coordination F
  begin_reaction span severity now_game_sec desc is_social c = record c {
    reaction_active = true;
    reaction_severity = clamp_severity severity;
    reaction_desc = desc;
    reaction_social = is_social;
    reaction_deadline_game_sec =
        if lt_f zero_f now_game_sec then add_f now_game_sec span else zero_f;
  }

  unfoldable pub clear_reaction : Coordination F → Coordination F
  clear_reaction c = record c {
    reaction_active = false;
    reaction_severity = pos 0;
    reaction_deadline_game_sec = zero_f;
    reaction_desc = "";
    reaction_social = false;
  }

  -- The new state, and where a cut happens the id of the action to stop, "" for none.
  unfoldable pub check_reaction_deadline :
      String → Coordination F → AgentState F → Coordination F × AgentState F × Option String
  unfolding record_interrupted clear_reaction
  check_reaction_deadline task_desc c a =
      let now = latest_game_time_sec a.perception.latest_perception in
      let told = record a { flight = record_interrupted task_desc deadline_reason a.flight } in
      let (cleared, info) = clear_for_replan told in
      if not c.reaction_active
      then (c, a, none)
      else if le_f now zero_f
          || le_f c.reaction_deadline_game_sec zero_f
          || lt_f now c.reaction_deadline_game_sec
      then (c, a, none)
      else (clear_reaction c, record cleared { replan_hint = deadline_hint }, some info.action_id)

abbrev pub judge_severity_cap_social : ℤ
judge_severity_cap_social = pos 3

-- `routerDecisionFromJev`, for an interruption: `score` is the judge's, from 0 to 1, times 10 and
-- rounded.
unfoldable pub router_decision : ℤ → Motive → RouterDecision
router_decision score social = record {
  severity =
      let severity = clamp_severity score in
      if ltb_ℤ judge_severity_cap_social severity then judge_severity_cap_social else severity;
  motive = social;
}
router_decision score motive = record { severity = clamp_severity score; motive = motive }

abbrev pub is_resolved : Motive → Bool
is_resolved situation_resolved = true
is_resolved _ = false

module _ {F : Type 0} ⦃fl : Float64 F⦄ where
  abbrev pub begin_by_motive : F → RouterDecision → F → String → Coordination F → Coordination F
  begin_by_motive span dec now_game_sec desc c = elim dec.motive [
    | situation_resolved ↦ clear_reaction c
    | social ↦ begin_reaction span (pos 2) now_game_sec desc true c
    | urgent ↦ begin_reaction span dec.severity now_game_sec desc false c
  ]

  -- The part of `routerInterrupt` on the guard state; `false` where the event stays queued.
  unfoldable pub interrupt_guard :
      F → RouterDecision → F → String → Coordination F → Coordination F × Bool
  interrupt_guard span dec now_game_sec desc c =
      if c.reaction_active
        && not (ltb_ℤ c.reaction_severity dec.severity)
        && not (is_resolved dec.motive)
      then (c, false)
      else (begin_by_motive span dec now_game_sec desc c, true)

  -- What the stop of `routerInterrupt` does to the agent, where an action is in flight and UE got
  -- the stop: it is recorded as interrupted and stashed, and the queue stays.
  stop_current : Bool → String → String → AgentState F → AgentState F
  stop_current sent task_desc label a =
      if not (str_eq a.flight.current_action_id "") && sent
      then (interrupt_keep_queue
          (record a { flight = record_interrupted task_desc label a.flight })).0
      else a

  -- `routerInterrupt`: with the texts that it renders, and whether the stop could be sent. The
  -- cancellation of the running request and the replan are started outside the two states. It
  -- returns the id of the action to stop, "" for none, and nothing where the event stays queued.
  pub router_interrupt :
      F
      → RouterDecision
      → WorldEventPayload F
      → Bool
      → (task_desc label hint desc : String) → Coordination F
      → AgentState F
      → Coordination F × AgentState F × Option String
  unfolding stop_current
  router_interrupt span dec ev sent task_desc label hint desc c a =
      let now = latest_game_time_sec a.perception.latest_perception in
      let (c', interrupts) = interrupt_guard span dec now desc c in
      let taken = record a { events = (remove_queued_world_event ev.event_id a.events).0 } in
      let stopped_agent = stop_current sent task_desc label taken in
      if interrupts
      then (c', record stopped_agent { replan_hint = hint }, some a.flight.current_action_id)
      else (c, a, none)
