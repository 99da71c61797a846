-- ===== src/Dispatch.antt =====
-- agenttown-mcp/cmd/agenttown-mcp/world_event_dispatch.go: the channel of world events into one agent, with
-- the force interruption and the yield to UE's combat AI. The fields are those of `agentContext` in
-- main.go. What a handler sends or starts is the list of its effects, in their order; the texts that
-- it renders are parameters.
pub mod Events
pub mod Agent
pub mod Yield
pub mod Silence
pub mod Fight
pub mod Entry
pub mod Handover
pub mod Replayed
use Prim.Native.String.{◌++◌ as str_append}
use smart_npc.Prelude.{
  ℕ, String, Bool, true, false, Option, none, some, List, [], ◌∷◌, ◌++◌, str_eq, not, ◌&&◌, ◌||◌,
}
use smart_npc.Prelude.Tests.{if◌then◌else◌}
use smart_npc.Prelude.StringSet.{delete}
use smart_npc.Prelude.Int.{ℤ, pos}
use smart_npc.Float64.{Float64}
use smart_npc.Protocol.{WorldEventPayload, PhysicalState}
use smart_npc.AgentState.{AgentState}
use smart_npc.AgentState.Flight.{Flight}
use smart_npc.AgentState.Perception.{latest_game_time_sec}
use smart_npc.AgentState.Situations.{begin_situation, end_situation}
use smart_npc.AgentState.WorldEvents.{
  WorldEvents, mark_world_event_seen, echo_world_event, enqueue_world_event,
  EnqueueWorldEventResult, enqueue_ok,
}
use smart_npc.AgentState.Lifecycle.{
  clear_for_replan, interrupt_keep_queue, clear_slot_switch_pending,
}
use smart_npc.Reaction.{
  Coordination, begin_reaction, clear_reaction, record_interrupted, ReplanKind, no_kind,
}
use smart_npc.Dialogue.{Session, close_conversation}
use Events.{is_combat_start_event, is_combat_exit_event, is_social_speech_event}
use Yield.{CombatYield, begin_combat_yield, end_combat_yield}
use Agent.{
  Effect, cancel_request, stop_action, force_replan, combat_action, combat_episode, bridge_action,
  strategic_replan, wake, judge, Texts, Context, Handled, is_ok, situation_kind_combat, with_events,
  echo_named, stop_of, cancel_of, without_timer, now_of,
}

module _ {F : Type 0} where
  -- The end of `handleWorldEvent`; a router is there where `routed`.
  unfoldable pub queue_event : Bool → WorldEventPayload F → Context F → Handled F
  queue_event routed ev c =
      let (events, res) = enqueue_world_event ev c.state.events in
      (with_events events c, if is_ok res && routed then judge ev ∷ [] else [])

module _ {F : Type 0} ⦃fl : Float64 F⦄ where
  open fl use {zero_f, sub_f, lt_f, le_f}

  abbrev force_event_hint : Texts F → WorldEventPayload F → String
  force_event_hint t ev =
      if is_social_speech_event ev
      then str_append "【社交回应】" (t.format ev)
      else str_append "【强制打断】" (t.format ev)

  abbrev force_label : Texts F → WorldEventPayload F → String
  force_label t ev =
      str_append (if is_social_speech_event ev then "被社交对话打断：" else "被紧急事件强制打断：")
        (t.short (t.format ev))

  -- The stop of the action in flight; `sent` tells whether it went out.
  unfoldable pub force_stop : Texts F → WorldEventPayload F → Bool → AgentState F → AgentState F
  force_stop t ev sent a =
      if not (str_eq a.flight.current_action_id "") && sent
      then (interrupt_keep_queue
          (record a { flight = record_interrupted (t.task_desc a) (force_label t ev) a.flight })).0
      else a

  -- `handleForceEvent` from the cancellation on.
  unfoldable pub force_interrupt : Texts F → WorldEventPayload F → Bool → Context F → Handled F
  unfolding force_stop
  force_interrupt t ev sent c =
      let hint = force_event_hint t ev in
      (
        record c {
          state = record (force_stop t ev sent c.state) { replan_hint = hint };
          coord =
              begin_reaction t.reaction_span ev.severity (now_of c) (t.format ev)
                (is_social_speech_event ev) c.coord;
        },
        cancel_of c ++ stop_of c.state.flight.current_action_id ++ force_replan ev hint ∷ [],
      )

  -- The first entry of `handleCombatDetach`: what it resets. Neither the record of the interruption
  -- nor the clearing sends a stop.
  unfoldable pub enter_yield : Texts F → ℕ → WorldEventPayload F → Context F → Context F
  enter_yield t wall ev c =
      let a = c.state in
      let label = str_append "战斗让位（UE 战斗系统接管）：" (t.short (t.format ev)) in
      let told =
        if str_eq a.flight.current_action_id ""
        then a
        else record a { flight = record_interrupted (t.task_desc a) label a.flight } in
      let (cleared, info) = clear_for_replan told in
      without_timer info.action_id (record c {
        state = clear_slot_switch_pending cleared;
        coord = clear_reaction c.coord;
        session = close_conversation wall c.session;
      })

  -- `handleCombatDetach` at the wall-clock time `wall`.
  unfoldable pub handle_combat_detach : Texts F → ℕ → WorldEventPayload F → Context F → Handled F
  unfolding enter_yield
  handle_combat_detach t wall ev c =
      let now = now_of c in
      if c.yield.active
      then (record c { yield = begin_combat_yield wall ev now "" none c.yield }, [])
      else (
        record (enter_yield t wall ev c) {
          yield =
              begin_combat_yield wall ev now c.state.flight.current_action_id
                c.state.perception.latest_physical c.yield;
        },
        cancel_of c ++ combat_episode ev ∷ combat_action ev ∷ [],
      )

  unfoldable pub handle_force_event :
      Texts F → ℕ → WorldEventPayload F → Bool → Context F → Handled F
  unfolding handle_combat_detach force_interrupt echo_named
  handle_force_event t wall ev sent c =
      let (events, fresh) = mark_world_event_seen ev.event_id c.state.events in
      let marked = with_events events c in
      if not fresh
      then (marked, [])
      else if ev.detach && not (is_combat_exit_event ev)
      then handle_combat_detach t wall ev marked
      else if c.yield.active
      then (echo_named ev marked, [])
      else force_interrupt t ev sent marked

  abbrev combat_end_hint : Texts F → WorldEventPayload F → Bool → String → String
  combat_end_hint t ev ttl delta =
      str_append
        (if ttl
          then "【战斗结束】威胁情境超过 120 游戏分钟未收到解除信号（combat_exit），系统兜底收回控制权。"
          else str_append "【战斗结束】" (t.format ev))
        (if str_eq delta "" then "" else str_append "战斗期间物理属性变化：" (str_append delta "。"))

  -- `reclaimFromCombatYield`
  unfoldable pub reclaim_from_combat_yield :
      Texts F → WorldEventPayload F → Bool → Context F → Handled F
  unfolding echo_named
  reclaim_from_combat_yield t ev ttl c =
      let last_attack = echo_named c.yield.last_event c in
      let echoed = if ttl then last_attack else echo_named ev last_attack in
      let delta = t.delta_line c.yield.phys c.state.perception.latest_physical in
      (
        record echoed {
          yield = end_combat_yield c.yield;
          coord = clear_reaction c.coord;
          state = record (echoed.state) { replan_hint = combat_end_hint t ev ttl delta };
        },
        stop_of c.yield.prev_action_id ++ bridge_action ∷ wake ∷ strategic_replan ∷ [],
      )

  -- The situation that an event of a combat begins or ends.
  unfoldable pub note_combat : Texts F → WorldEventPayload F → Context F → Context F
  note_combat t ev c =
      let a = c.state in
      if is_combat_start_event ev
      then record c {
        state = record a {
          active_situations =
              begin_situation situation_kind_combat (t.format ev) (now_of c) a.active_situations;
        };
      }
      else if is_combat_exit_event ev
      then record c {
        state = record a {
          active_situations = (end_situation situation_kind_combat a.active_situations).0;
        };
      }
      else c

  -- `handleWorldEvent` after the transcript of what was heard.
  unfoldable pub dispatch_event :
      Texts F → Bool → ℕ → WorldEventPayload F → Bool → Context F → Handled F
  unfolding note_combat queue_event handle_force_event reclaim_from_combat_yield
  dispatch_event t routed wall ev sent c =
      let noted = note_combat t ev c in
      if is_combat_exit_event ev && c.yield.active
      then reclaim_from_combat_yield t ev false noted
      else if ev.force
      then handle_force_event t wall ev sent noted
      else queue_event routed ev noted

  -- `checkCombatYieldExpiry`
  unfoldable pub check_combat_yield_expiry : Texts F → Context F → Handled F × Bool
  unfolding reclaim_from_combat_yield
  check_combat_yield_expiry t c =
      let now = now_of c in
      let since = c.yield.since_game_sec in
      if not c.yield.active
      then ((c, []), false)
      else if le_f since zero_f
      then (
        (
          if lt_f zero_f now
              then record c { yield = record (c.yield) { since_game_sec = now } }
              else c,
          [],
        ),
        false,
      )
      else if le_f now zero_f || lt_f (sub_f now since) t.yield_ttl
      then ((c, []), false)
      else (reclaim_from_combat_yield t c.yield.last_event true c, true)

module _ {F : Type 0} where
  -- `checkCombatYieldTakeoverStop`; the times are nanoseconds, 0 the zero time.
  unfoldable pub check_combat_yield_takeover_stop : Bool → Context F → Handled F
  check_combat_yield_takeover_stop grace_is_over c =
      if not c.yield.active || str_eq c.yield.prev_action_id "" || not grace_is_over
      then (c, [])
      else (
        record c { yield = record (c.yield) { prev_action_id = "" } },
        stop_action c.yield.prev_action_id ∷ [],
      )
