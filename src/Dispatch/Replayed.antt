-- ===== src/Dispatch/Replayed.antt =====
-- A `combat_exit` that UE sends again after it ended the yield.
use smart_npc.Prelude.{ℕ, String, Bool, true, false, ◌≡◌, refl, sym, ap, ◌∙◌, ◌&&◌, arith}
use mathlib.Core.Path.{subst}
use smart_npc.Float64.{Float64}
use smart_npc.Protocol.{WorldEventPayload}
use smart_npc.AgentState.WorldEvents.{mark_world_event_seen, echo_world_event}
use smart_npc.Dispatch.Agent.{Texts, Context, Handled, echo_named}
use smart_npc.Dispatch.{note_combat, reclaim_from_combat_yield, handle_force_event, dispatch_event}
use smart_npc.Dispatch.Events.{is_combat_exit_event}
use smart_npc.Dispatch.Yield.{CombatYield, end_combat_yield}
use smart_npc.Dispatch.Silence.{note_combat-keeps}
use smart_npc.Dispatch.Entry.{if-true, if-false, Interrupted, force_interrupt_lem}

module _ {F : Type 0} where
  -- Is the id new to the agent?
  abbrev pub is_new : String → Context F → Bool
  is_new event_id c = (mark_world_event_seen event_id c.state.events).1

  is_new-echo_named :
      (event_id : String) (ev : WorldEventPayload F) (c : Context F)
      → is_new event_id (echo_named ev c) ≡ is_new event_id c
  unfolding echo_named mark_world_event_seen echo_world_event
  is_new-echo_named event_id ev c = ground arith

module _ {F : Type 0} ⦃fl : Float64 F⦄ (t : Texts F) where
  is_new-note_combat :
      (event_id : String) (ev : WorldEventPayload F) (c : Context F)
      → is_new event_id (note_combat t ev c) ≡ is_new event_id c
  unfolding note_combat mark_world_event_seen
  is_new-note_combat event_id ev c = ground arith

  reclaim_keeps_new :
      (exit : WorldEventPayload F) (c : Context F)
      → ((reclaim_from_combat_yield t exit false c).0.yield.active ≡ false)
        × (is_new exit.event_id (reclaim_from_combat_yield t exit false c).0
            ≡ is_new exit.event_id c)
  unfolding reclaim_from_combat_yield end_combat_yield
  reclaim_keeps_new exit c = (
    refl,
    is_new-echo_named exit.event_id exit (echo_named c.yield.last_event c)
        ∙ is_new-echo_named exit.event_id c.yield.last_event c,
  )

  module _ (exit : WorldEventPayload F) (x : is_combat_exit_event exit ≡ true) where
    exit_in_yield :
        (routed sent : Bool) (wall : ℕ) (c : Context F)
        → c.yield.active ≡ true
        → dispatch_event t routed wall exit sent c
          ≡ reclaim_from_combat_yield t exit false (note_combat t exit c)
    unfolding dispatch_event
    exit_in_yield routed sent wall c y =
        if-true (is_combat_exit_event exit && c.yield.active) _ _ (ground (arith, x, y))

    exit_outside :
        (routed sent : Bool) (wall : ℕ) (c : Context F)
        → c.yield.active ≡ false
        → exit.force ≡ true
        → dispatch_event t routed wall exit sent c
          ≡ handle_force_event t wall exit sent (note_combat t exit c)
    unfolding dispatch_event
    exit_outside routed sent wall c y f =
        if-false (is_combat_exit_event exit && c.yield.active) _ _ (ground (arith, y))
        ∙ if-true exit.force _ _ f

    -- The `combat_exit` that ends a yield does not enter the set of handled ids. When the connection
    -- replays it, a forced one interrupts the agent like a new event: the action in flight is stopped
    -- and a replan starts. The event has no detach.
    pub replayed_exit_interrupts :
        (routed sent sent' : Bool) (wall wall' : ℕ) (c : Context F)
        → c.yield.active ≡ true
        → is_new exit.event_id c ≡ true
        → exit.force ≡ true
        → exit.detach ≡ false
        → let after = (dispatch_event t routed wall exit sent c).0 in
          Interrupted t exit sent'
            (note_combat t exit after)
            (dispatch_event t routed wall' exit sent' after)
    replayed_exit_interrupts routed sent sent' wall wall' c y new f d =
        let after = (dispatch_event t routed wall exit sent c).0 in
        let first = exit_in_yield routed sent wall c y in
        let (lifted, kept) = reclaim_keeps_new exit (note_combat t exit c) in
        let lifted' : after.yield.active ≡ false =
          ap (λ (r : Handled F). r.0.yield.active) first ∙ lifted in
        let new' : is_new exit.event_id (note_combat t exit after) ≡ true =
          is_new-note_combat exit.event_id exit after
          ∙ ap (λ (r : Handled F). is_new exit.event_id r.0) first
          ∙ kept
          ∙ is_new-note_combat exit.event_id exit c
          ∙ new in
        let off =
          ap (λ (z : CombatYield F). z.active) (note_combat-keeps t exit after).0 ∙ lifted' in
        subst (Interrupted t exit sent' (note_combat t exit after))
          (sym (exit_outside routed sent' wall' after lifted' f))
          (force_interrupt_lem t wall' exit sent' (note_combat t exit after) off new' d)
