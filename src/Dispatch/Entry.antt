-- ===== src/Dispatch/Entry.antt =====
-- The interruption by a force event outside of a yield, and the entry of a yield.
use smart_npc.Prelude.{
  ℕ, Bool, true, false, ◌≡◌, ◌≢◌, refl, sym, ◌∙◌, some, [], ◌∷◌, ◌++◌, eq_iff, not, ◌&&◌, arith,
}
use mathlib.Core.Path.{subst}
use smart_npc.Prelude.Tests.{if◌then◌else◌}
use smart_npc.Float64.{Float64}
use smart_npc.Protocol.{WorldEventPayload}
use smart_npc.AgentState.{AgentState}
use smart_npc.AgentState.Flight.{
  current_info, clear_flight, clear_in_flight_keep_queue, record_action_interrupted,
}
use smart_npc.AgentState.WorldEvents.{mark_world_event_seen}
use smart_npc.AgentState.Lifecycle.{
  clear_for_slot_switch, clear_for_replan, clear_slot_switch_pending, interrupt_keep_queue,
}
use smart_npc.Reaction.{clear_reaction, begin_reaction, record_interrupted}
use smart_npc.Dispatch.Agent.{
  Handled, cancel_of, combat_episode, combat_action, force_replan, Texts, Context, stop_of,
  with_events,
}
use smart_npc.Dispatch.{
  enter_yield, handle_combat_detach, handle_force_event, force_interrupt, force_stop,
}
use smart_npc.Dispatch.Events.{is_combat_exit_event}
use smart_npc.Dispatch.Yield.{begin_combat_yield}

pub if-true : {A : Type 0} (b : Bool) (r s : A) → b ≡ true → (if b then r else s) ≡ r
if-true true r s e = refl
if-true false r s e = cc

pub if-false : {A : Type 0} (b : Bool) (r s : A) → b ≡ false → (if b then r else s) ≡ s
if-false true r s e = cc
if-false false r s e = refl

module _ {F : Type 0} ⦃fl : Float64 F⦄ (t : Texts F) where
  abbrev marked : WorldEventPayload F → Context F → Context F
  marked ev c = with_events (mark_world_event_seen ev.event_id c.state.events).0 c

  -- Which way a fresh force event goes.
  module _ (wall : ℕ) (ev : WorldEventPayload F) (sent : Bool) (c : Context F)
      (fresh : (mark_world_event_seen ev.event_id c.state.events).1 ≡ true) where
    detached :
        ev.detach ≡ true
        → is_combat_exit_event ev ≡ false
        → handle_force_event t wall ev sent c ≡ handle_combat_detach t wall ev (marked ev c)
    unfolding handle_force_event
    detached d x =
        if-false (not (mark_world_event_seen ev.event_id c.state.events).1) _ _
          (ground (arith, fresh))
        ∙ if-true (ev.detach && not (is_combat_exit_event ev)) _ _ (ground (arith, d, x))

    undetached :
        ev.detach ≡ false
        → c.yield.active ≡ false
        → handle_force_event t wall ev sent c ≡ force_interrupt t ev sent (marked ev c)
    unfolding handle_force_event
    undetached d y =
        if-false (not (mark_world_event_seen ev.event_id c.state.events).1) _ _
          (ground (arith, fresh))
        ∙ if-false (ev.detach && not (is_combat_exit_event ev)) _ _ (ground (arith, d))
        ∙ if-false _ _ _ y

  -- What the stop of a force event does to the action in flight.
  force_stop_lem :
      (ev : WorldEventPayload F) (sent : Bool) (a : AgentState F)
      → let b = force_stop t ev sent a in
        (b.flight.action_queue ≡ a.flight.action_queue)
        × (sent ≡ true
            → a.flight.current_action_id ≢ ""
            → (b.flight.current_action_id ≡ "")
              × (b.flight.cleared_action ≡ some (current_info a.flight)))
        × (sent ≡ false → b.flight ≡ a.flight)
  unfolding force_stop interrupt_keep_queue clear_in_flight_keep_queue record_interrupted
      record_action_interrupted
  force_stop_lem ev sent a = (
    ground arith,
    λ s n. (
      ground (arith, s, n, eq_iff a.flight.current_action_id ""),
      ground (arith, s, n, eq_iff a.flight.current_action_id ""),
    ),
    λ s. ground (arith, s),
  )

  -- What the interruption by a force event says, where it goes out.
  abbrev pub Interrupted : WorldEventPayload F → Bool → Context F → Handled F → Type 0
  Interrupted ev sent c handed =
      (handed.1
        ≡ cancel_of c
          ++ stop_of c.state.flight.current_action_id
          ++ force_replan ev (handed.0).state.replan_hint ∷ [])
      × ((handed.0).coord.reaction_active ≡ true)
      × ((handed.0).state.flight.action_queue ≡ c.state.flight.action_queue)
      × (sent ≡ true
          → c.state.flight.current_action_id ≢ ""
          → ((handed.0).state.flight.current_action_id ≡ "")
            × ((handed.0).state.flight.cleared_action ≡ some (current_info c.state.flight)))
      × (sent ≡ false → (handed.0).state.flight ≡ c.state.flight)

  interrupted :
      (ev : WorldEventPayload F) (sent : Bool) (c : Context F)
      → Interrupted ev sent c (force_interrupt t ev sent c)
  unfolding force_interrupt begin_reaction
  interrupted ev sent c =
      let (queue, out, stays) = force_stop_lem ev sent c.state in (refl, refl, queue, out, stays)

  -- A fresh force event outside of a yield, without detach: the request is cancelled, then the action
  -- in flight is stopped, then the replan starts with the hint that the state keeps, and a reaction is
  -- under way. Where the stop went out the action is stashed and no longer in flight; where it did
  -- not, the in-flight state is as it was. The queue of actions stays.
  pub force_interrupt_lem :
      (wall : ℕ) (ev : WorldEventPayload F) (sent : Bool) (c : Context F)
      → c.yield.active ≡ false
      → (mark_world_event_seen ev.event_id c.state.events).1 ≡ true
      → ev.detach ≡ false
      → Interrupted ev sent c (handle_force_event t wall ev sent c)
  force_interrupt_lem wall ev sent c y fresh d =
      subst (Interrupted ev sent c) (sym (undetached wall ev sent c fresh d y))
        (interrupted ev sent (marked ev c))

  -- What the entry of a yield says.
  abbrev pub Entered : WorldEventPayload F → Context F → Handled F → Type 0
  Entered ev c handed =
      ((handed.0).yield.active ≡ true)
      × ((handed.0).yield.prev_action_id ≡ c.state.flight.current_action_id)
      × ((handed.0).state.flight.current_action_id ≡ "")
      × ((handed.0).state.flight.action_queue ≡ [])
      × (c.state.flight.current_action_id ≢ ""
          → (handed.0).state.flight.cleared_action ≡ some (current_info c.state.flight))
      × ((handed.0).state.replan_hint ≡ c.state.replan_hint)
      × ((handed.0).coord.reaction_active ≡ false)
      × ((handed.0).state.slot_switch_pending ≡ false)
      × (handed.1 ≡ cancel_of c ++ combat_episode ev ∷ combat_action ev ∷ [])

  entered_state :
      (wall : ℕ) (ev : WorldEventPayload F) (c : Context F)
      → let d = enter_yield t wall ev c in
        (d.state.flight.current_action_id ≡ "")
        × (d.state.flight.action_queue ≡ [])
        × (c.state.flight.current_action_id ≢ ""
            → d.state.flight.cleared_action ≡ some (current_info c.state.flight))
        × (d.state.replan_hint ≡ c.state.replan_hint)
        × (d.coord.reaction_active ≡ false)
        × (d.state.slot_switch_pending ≡ false)
  unfolding enter_yield clear_for_replan clear_for_slot_switch clear_flight
      clear_slot_switch_pending clear_reaction record_interrupted record_action_interrupted
  entered_state wall ev c = (
    refl,
    refl,
    λ n. ground (arith, n, eq_iff c.state.flight.current_action_id ""),
    ground arith,
    refl,
    refl,
  )

  entered :
      (wall : ℕ) (ev : WorldEventPayload F) (c : Context F)
      → c.yield.active ≡ false
      → c.yield.prev_action_id ≡ ""
      → Entered ev c (handle_combat_detach t wall ev c)
  unfolding handle_combat_detach begin_combat_yield
  entered wall ev c y none_before =
      let (id, queue, stash, hint, guard, slot) = entered_state wall ev c in
      subst (Entered ev c) (sym (if-false _ _ _ y)) (
        refl,
        ground (arith, none_before, eq_iff c.state.flight.current_action_id ""),
        id,
        queue,
        stash,
        hint,
        guard,
        slot,
        refl,
      )

  -- A fresh detach event outside of a yield: UE gets no stop. The action in flight is remembered and
  -- stashed, the queue of actions is empty, the hint is kept, no reaction and no slot switch is
  -- pending, and after the cancellation of the request the episode is recorded and the combat
  -- action is chosen. No action is remembered from before.
  pub detach_entry_lem :
      (wall : ℕ) (ev : WorldEventPayload F) (sent : Bool) (c : Context F)
      → c.yield.active ≡ false
      → c.yield.prev_action_id ≡ ""
      → (mark_world_event_seen ev.event_id c.state.events).1 ≡ true
      → ev.detach ≡ true
      → is_combat_exit_event ev ≡ false
      → Entered ev c (handle_force_event t wall ev sent c)
  detach_entry_lem wall ev sent c y none_before fresh d x =
      subst (Entered ev c) (sym (detached wall ev sent c fresh d x))
        (entered wall ev (marked ev c) y none_before)
