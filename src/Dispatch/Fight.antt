-- ===== src/Dispatch/Fight.antt =====
-- A fight as a sequence of steps, while UE's combat AI has the body of the agent.
use smart_npc.Prelude.{
  String, true, ◌≡◌, refl, ap, ◌∙◌, ◌⊎◌, inl, inr, List, [], ◌∷◌, ◌++◌, str_eq, arith,
}
use mathlib.Core.List.{append-nil, append_assoc}
use smart_npc.Prelude.Tests.{Bool-cases}
use smart_npc.Prelude.Lists.{All, All-append}
use smart_npc.Float64.{Float64}
use smart_npc.Dispatch.Agent.{
  Effect, cancel_request, stop_action, force_replan, combat_action, combat_episode, bridge_action,
  strategic_replan, wake, judge, Texts, Context, Handled,
}
use smart_npc.Dispatch.{dispatch_event, check_combat_yield_takeover_stop}
use smart_npc.Dispatch.Silence.{
  Input, arrives, grace_check, Fights, stops, owed, is_quiet, SilentFrom, still, dispatched-Silent,
  takeover_stop-Silent,
}

-- What went out before, where something is still to go.
without_owed : (xs : List String) (a b : String) → xs ++ owed a ≡ owed b → (xs ≡ []) ⊎ (xs ≡ owed b)
without_owed [] a b h = inl refl
without_owed (x ∷ []) a b h = elim (Bool-cases (str_eq a "")) [
  | inl e ↦ inr (ground (arith, h, e))
  | inr e ↦ absurd (ground (arith, h, e))
]
without_owed (x ∷ y ∷ xs) a b h = absurd (ground (arith, h))

module _ {F : Type 0} where
  pub stops-append : (es fs : List (Effect F)) → stops (es ++ fs) ≡ stops es ++ stops fs
  stops-append [] fs = refl
  stops-append (cancel_request ∷ es) fs = stops-append es fs
  stops-append (stop_action id ∷ es) fs = ap (λ (l : List String). id ∷ l) (stops-append es fs)
  stops-append (force_replan ev h ∷ es) fs = stops-append es fs
  stops-append (combat_action ev ∷ es) fs = stops-append es fs
  stops-append (combat_episode ev ∷ es) fs = stops-append es fs
  stops-append (bridge_action ∷ es) fs = stops-append es fs
  stops-append (strategic_replan ∷ es) fs = stops-append es fs
  stops-append (wake ∷ es) fs = stops-append es fs
  stops-append (judge ev ∷ es) fs = stops-append es fs

  pub at_most_one :
      (es fs : List (Effect F)) (a b c : String)
      → (stops es ++ owed b ≡ []) ⊎ (stops es ++ owed b ≡ owed a)
      → (stops fs ++ owed c ≡ []) ⊎ (stops fs ++ owed c ≡ owed b)
      → (stops (es ++ fs) ++ owed c ≡ []) ⊎ (stops (es ++ fs) ++ owed c ≡ owed a)
  at_most_one es fs a b c p q = elim q [
    | inl e ↦
        let all : stops (es ++ fs) ++ owed c ≡ stops es =
          split ∙ ap (λ (l : List String). stops es ++ l) e ∙ append-nil (stops es) in
        elim p [
          | inl h ↦ inl (all ∙ before (stops es) h)
          | inr h ↦ elim (without_owed (stops es) b a h) [
            | inl k ↦ inl (all ∙ k)
            | inr k ↦ inr (all ∙ k)
          ]
        ]
    | inr e ↦
        let all : stops (es ++ fs) ++ owed c ≡ stops es ++ owed b =
          split ∙ ap (λ (l : List String). stops es ++ l) e in
        elim p [ inl h ↦ inl (all ∙ h) | inr h ↦ inr (all ∙ h) ]
  ]
    where
      split : stops (es ++ fs) ++ owed c ≡ stops es ++ (stops fs ++ owed c)
      split =
          ap (λ (l : List String). l ++ owed c) (stops-append es fs)
          ∙ append_assoc (stops es) (stops fs) (owed c)

      before : (xs : List String) → xs ++ owed b ≡ [] → xs ≡ []
      before [] h = refl
      before (x ∷ xs) h = cc

module _ {F : Type 0} ⦃fl : Float64 F⦄ (t : Texts F) where
  step : Input F → Context F → Handled F
  step (arrives routed wall ev sent) c = dispatch_event t routed wall ev sent c
  step (grace_check over) c = check_combat_yield_takeover_stop over c

  -- The steps one after the other, with all their effects.
  unfoldable pub run : List (Input F) → Context F → Handled F
  unfolding step
  run [] c = (c, [])
  run (i ∷ is) c = let (d, es) = step i c in let (e, fs) = run is d in (e, es ++ fs)

  step-Silent :
      (i : Input F) (c : Context F) → c.yield.active ≡ true → Fights i → SilentFrom c (step i c)
  unfolding step
  step-Silent (arrives routed wall ev sent) c y x = dispatched-Silent t routed wall ev sent c y x.0
  step-Silent (grace_check over) c y x = takeover_stop-Silent over c y

  -- From a yield on, through events that arrive, other than speech and the end of the fight, and through
  -- the checks of the takeover: the yield lasts; the agent's flight with its queue of actions, its
  -- hint and its reaction guard stay as they were; nothing goes out but questions to the router's
  -- judge and at most one stop, and that for the action that the yield remembered.
  pub run-Silent :
      (is : List (Input F)) (c : Context F)
      → c.yield.active ≡ true
      → All Fights is
      → SilentFrom c (run is c)
  unfolding run
  run-Silent [] c y x = still c y
  run-Silent (i ∷ is) c y x =
      let p = step-Silent i c y x.0 in
      let q = run-Silent is (step i c).0 p.active x.1 in
      record {
        active = q.active;
        flight = q.flight ∙ p.flight;
        hint_kept = q.hint_kept ∙ p.hint_kept;
        coord = q.coord ∙ p.coord;
        quiet =
            All-append (λ (e : Effect F). is_quiet e ≡ true) (step i c).1 (run is (step i c).0).1
              p.quiet q.quiet;
        one_stop = at_most_one (step i c).1 (run is (step i c).0).1 _ _ _ p.one_stop q.one_stop;
      }
