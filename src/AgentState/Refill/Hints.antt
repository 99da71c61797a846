-- ===== src/AgentState/Refill/Hints.antt =====
-- The diagnosis that a second decomposition of a slot is given.
use smart_npc.Prelude.{
  ◌<◌, String, ◌≡◌, ◌≢◌, refl, ◌∙◌, true, false, List, [], ◌∷◌, ◌⊎◌, ◌↔◌, inl, inr, eq_iff, arith,
}
use smart_npc.Prelude.Tests.{if◌then◌else◌, Bool-cases}
use smart_npc.Prelude.Lists.{All}
use smart_npc.Prelude.Int.{ℤ}
use smart_npc.AgentState.{AgentState}
use smart_npc.AgentState.Flight.{PlannedAction, Flight}
use smart_npc.AgentState.ActionQueue.{all_speak, is_only_speak}
use smart_npc.AgentState.Refill.{
  begin_tactical_refill, prep_of, auto_hint, prepare, replace_queue, speak_hint, exhausted_hint,
}

module _ {F : Type 0} where
  abbrev pub IsSpeak : PlannedAction F → Type 0
  IsSpeak act = act.action ≡ "speak"

  all_speak_iff :
      (actions : List (PlannedAction F)) → (all_speak actions ≡ true) ↔ All IsSpeak actions
  unfolding all_speak
  all_speak_iff [] = ((λ _. tt), (λ _. refl))
  all_speak_iff (act ∷ rest) = ground (arith, eq_iff act.action "speak", all_speak_iff rest)

  is_only_speak_iff :
      (actions : List (PlannedAction F))
      → (is_only_speak actions ≡ true) ↔ ((actions ≢ []) × All IsSpeak actions)
  unfolding is_only_speak
  is_only_speak_iff [] = ground arith
  is_only_speak_iff (act ∷ rest) = ground (arith, all_speak_iff (act ∷ rest))

  hint_value :
      (actions : List (PlannedAction F)) (goal : String) (idx : ℤ) (f : Flight F) (a : AgentState F)
      → goal ≢ ""
      → f.current_action_id ≡ ""
      → f.action_queue ≡ []
      → a.replan_hint ≡ ""
      → a.redecompose_count < 3
      → let slot = a.persistent.schedule.current_slot in
        let later = record (replace_queue actions a) { flight = f } in
        let prep = (begin_tactical_refill goal slot idx true false later).1 in
        (prep.should_skip ≡ false)
        × (prep.hint ≡ (if is_only_speak actions then speak_hint else exhausted_hint))
  unfolding begin_tactical_refill replace_queue prep_of auto_hint prepare
  hint_value actions goal idx f a named idle empty none_pending budget =
      let slot = a.persistent.schedule.current_slot in
      ground (
        arith,
        eq_iff goal "",
        eq_iff f.current_action_id "",
        eq_iff slot slot,
        eq_iff a.replan_hint "",
      )

  -- In the current slot, when the queue that was put in has run out with no action in flight, no
  -- hint pending, budget left and automatic hints wanted: the next decomposition is told that its
  -- queue was only speech exactly when it was not empty and every action in it was a speak; else
  -- it is told that the queue ran out.
  pub hint_of_exhausted_queue :
      (actions : List (PlannedAction F)) (goal : String) (idx : ℤ) (f : Flight F) (a : AgentState F)
      → goal ≢ ""
      → f.current_action_id ≡ ""
      → f.action_queue ≡ []
      → a.replan_hint ≡ ""
      → a.redecompose_count < 3
      → let slot = a.persistent.schedule.current_slot in
        let later = record (replace_queue actions a) { flight = f } in
        let prep = (begin_tactical_refill goal slot idx true false later).1 in
        (prep.should_skip ≡ false)
        × (((actions ≢ []) × All IsSpeak actions × (prep.hint ≡ speak_hint))
            ⊎ (¬ ((actions ≢ []) × All IsSpeak actions) × (prep.hint ≡ exhausted_hint)))
  hint_of_exhausted_queue actions goal idx f a named idle empty none_pending budget =
      let slot = a.persistent.schedule.current_slot in
      let prep = hint_value actions goal idx f a named idle empty none_pending budget in
      let speaks = is_only_speak_iff actions in
      elim (Bool-cases (is_only_speak actions)) [
        | inl e ↦ (prep.0, inl ((speaks.0 e).0, (speaks.0 e).1, prep.1 ∙ (rw e refl)))
        | inr e ↦ (prep.0, inr ((λ h. cc (speaks.1 h, e)), prep.1 ∙ (rw e refl)))
      ]
