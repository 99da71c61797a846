-- ===== src/Dispatch/Silence.antt =====
-- What reaches an agent while UE's combat AI has its body, as a sequence of steps, and what the agent
-- does then.
use smart_npc.Prelude.{
  ℕ, String, Bool, true, false, ◌≡◌, refl, ap, ◌∙◌, ◌⊎◌, inl, inr, List, [], ◌∷◌, ◌++◌, str_eq, not,
  ◌&&◌, ◌||◌, arith,
}
use smart_npc.Prelude.Tests.{if◌then◌else◌}
use smart_npc.Prelude.Lists.{All}
use smart_npc.Float64.{Float64}
use smart_npc.Protocol.{WorldEventPayload}
use smart_npc.AgentState.Flight.{Flight}
use smart_npc.AgentState.WorldEvents.{mark_world_event_seen, enqueue_world_event, echo_world_event}
use smart_npc.Reaction.{Coordination}
use smart_npc.Dispatch.Agent.{
  Effect, stop_action, judge, Texts, Context, Handled, with_events, is_ok, echo_named,
}
use smart_npc.Dispatch.{
  note_combat, queue_event, handle_combat_detach, handle_force_event, dispatch_event,
  check_combat_yield_takeover_stop,
}
use smart_npc.Dispatch.Events.{is_combat_exit_event, is_speech_heard}
use smart_npc.Dispatch.Yield.{CombatYield, begin_combat_yield}

-- What happens to one agent.
pub data Input (F : Type 0) : Type 0 where
  arrives : Bool → ℕ → WorldEventPayload F → Bool → Input F
  grace_check : Bool → Input F

-- The action that is still to be stopped.
abbrev pub owed : String → List String
owed id = if str_eq id "" then [] else id ∷ []

module _ {F : Type 0} where
  -- The stops among the effects.
  abbrev pub stops : List (Effect F) → List String
  stops [] = []
  stops (stop_action id ∷ es) = id ∷ stops es
  stops (_ ∷ es) = stops es

  -- A stop, or a question to the router's judge.
  abbrev pub is_quiet : Effect F → Bool
  is_quiet (stop_action id) = true
  is_quiet (judge ev) = true
  is_quiet _ = false

  -- A step within a fight: no event that ends it, and no speech, of which the transcript is kept first.
  abbrev pub Fights : Input F → Type 0
  Fights (arrives routed wall ev sent) =
      (is_combat_exit_event ev ≡ false) × (is_speech_heard ev ≡ false)
  Fights _ = Unit

  -- The agent keeps still: its flight, its hint and its guard are as they were, and of the action that
  -- was to be stopped one stop at most has gone out or is still to go.
  pub record Silent (f : Flight F) (hint : String) (k : Coordination F) (prev : String)
      (r : Handled F) : Type 0 where
    pub active : (r.0).yield.active ≡ true
    pub flight : (r.0).state.flight ≡ f
    pub hint_kept : (r.0).state.replan_hint ≡ hint
    pub coord : (r.0).coord ≡ k
    pub quiet : All (λ (e : Effect F). is_quiet e ≡ true) r.1
    pub one_stop :
        (stops r.1 ++ owed (r.0).yield.prev_action_id ≡ [])
        ⊎ (stops r.1 ++ owed (r.0).yield.prev_action_id ≡ owed prev)

  abbrev pub SilentFrom : Context F → Handled F → Type 0
  SilentFrom c r = Silent c.state.flight c.state.replan_hint c.coord c.yield.prev_action_id r

  pub still : (c : Context F) → c.yield.active ≡ true → SilentFrom c (c, [])
  still c y = record {
    active = y;
    flight = refl;
    hint_kept = refl;
    coord = refl;
    quiet = tt;
    one_stop = inr refl;
  }

  branch :
      {f : Flight F} {hint : String} {k : Coordination F} {prev : String} (b : Bool)
      {r s : Handled F}
      → (b ≡ true → Silent f hint k prev r)
      → (b ≡ false → Silent f hint k prev s)
      → Silent f hint k prev (if b then r else s)
  branch true p q = p refl
  branch false p q = q refl

  -- The same from a context that agrees on what is kept.
  Silent-same :
      (c d : Context F) (r : Handled F)
      → d.yield ≡ c.yield
      → d.coord ≡ c.coord
      → d.state.flight ≡ c.state.flight
      → d.state.replan_hint ≡ c.state.replan_hint
      → SilentFrom d r
      → SilentFrom c r
  Silent-same c d r y k f h p = record {
    active = p.active;
    flight = p.flight ∙ f;
    hint_kept = p.hint_kept ∙ h;
    coord = p.coord ∙ k;
    quiet = p.quiet;
    one_stop = elim p.one_stop [
      | inl e ↦ inl e
      | inr e ↦ inr (e ∙ ap (λ (z : CombatYield F). owed z.prev_action_id) y)
    ];
  }

  echoed-Silent :
      (ev : WorldEventPayload F) (c : Context F)
      → c.yield.active ≡ true
      → SilentFrom c (echo_named ev c, [])
  unfolding echo_named
  echoed-Silent ev c y =
      elim (not (str_eq ev.event_id "") || not (str_eq ev.event_type ""))
        as (λ (b : Bool).
          SilentFrom c
            ((if b then with_events (echo_world_event ev c.state.events) c else c), [])) [
              | true ↦ record {
                active = y;
                flight = refl;
                hint_kept = refl;
                coord = refl;
                quiet = tt;
                one_stop = inr refl;
              }
              | false ↦ still c y
            ]

  queued-Silent :
      (routed : Bool) (ev : WorldEventPayload F) (c : Context F)
      → c.yield.active ≡ true
      → SilentFrom c (queue_event routed ev c)
  unfolding queue_event
  queued-Silent routed ev c y = record {
    active = y;
    flight = refl;
    hint_kept = refl;
    coord = refl;
    quiet = asked (is_ok (enqueue_world_event ev c.state.events).1 && routed);
    one_stop = inr (unstopped (is_ok (enqueue_world_event ev c.state.events).1 && routed));
  }
    where
      asked :
          (b : Bool) → All (λ (e : Effect F). is_quiet e ≡ true) (if b then judge ev ∷ [] else [])
      asked true = (refl, tt)
      asked false = tt

      unstopped :
          (b : Bool)
          → stops (if b then judge ev ∷ [] else []) ++ owed c.yield.prev_action_id
            ≡ owed c.yield.prev_action_id
      unstopped true = refl
      unstopped false = refl

  pub takeover_stop-Silent :
      (over : Bool) (c : Context F)
      → c.yield.active ≡ true
      → SilentFrom c (check_combat_yield_takeover_stop over c)
  unfolding check_combat_yield_takeover_stop
  takeover_stop-Silent over c y =
      branch (not c.yield.active || str_eq c.yield.prev_action_id "" || not over) (λ _. still c y)
        (λ b. record {
          active = y;
          flight = refl;
          hint_kept = refl;
          coord = refl;
          quiet = (refl, tt);
          one_stop = inr (ground (arith, b));
        })

module _ {F : Type 0} ⦃fl : Float64 F⦄ (t : Texts F) where
  detach-Silent :
      (wall : ℕ) (ev : WorldEventPayload F) (c : Context F)
      → c.yield.active ≡ true
      → SilentFrom c (handle_combat_detach t wall ev c)
  unfolding handle_combat_detach begin_combat_yield
  detach-Silent wall ev c y = rw y (record {
    active = refl;
    flight = refl;
    hint_kept = refl;
    coord = refl;
    quiet = tt;
    one_stop = inr refl;
  })

  force-Silent :
      (wall : ℕ) (ev : WorldEventPayload F) (sent : Bool) (c : Context F)
      → c.yield.active ≡ true
      → SilentFrom c (handle_force_event t wall ev sent c)
  unfolding handle_force_event
  force-Silent wall ev sent c y =
      let marked = with_events (mark_world_event_seen ev.event_id c.state.events).0 c in
      branch (not (mark_world_event_seen ev.event_id c.state.events).1) (λ _. still marked y)
        (λ _.
          branch (ev.detach && not (is_combat_exit_event ev)) (λ _. detach-Silent wall ev marked y)
            (λ _. branch c.yield.active (λ _. echoed-Silent ev marked y) (λ n. cc)))

  pub note_combat-keeps :
      (ev : WorldEventPayload F) (c : Context F)
      → ((note_combat t ev c).yield ≡ c.yield)
        × ((note_combat t ev c).coord ≡ c.coord)
        × ((note_combat t ev c).state.flight ≡ c.state.flight)
        × ((note_combat t ev c).state.replan_hint ≡ c.state.replan_hint)
  unfolding note_combat
  note_combat-keeps ev c = ground arith

  pub dispatched-Silent :
      (routed : Bool) (wall : ℕ) (ev : WorldEventPayload F) (sent : Bool) (c : Context F)
      → c.yield.active ≡ true
      → is_combat_exit_event ev ≡ false
      → SilentFrom c (dispatch_event t routed wall ev sent c)
  unfolding dispatch_event
  dispatched-Silent routed wall ev sent c y x =
      let noted = note_combat t ev c in
      let (ky, kc, kf, kh) = note_combat-keeps ev c in
      let y' = ap (λ (z : CombatYield F). z.active) ky ∙ y in
      branch (is_combat_exit_event ev && c.yield.active) (λ e. absurd (ground (arith, e, x)))
        (λ _. Silent-same c noted _ ky kc kf kh (
          branch ev.force (λ _. force-Silent wall ev sent noted y')
            (λ _. queued-Silent routed ev noted y')))
