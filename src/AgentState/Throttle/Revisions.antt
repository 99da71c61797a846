-- ===== src/AgentState/Throttle/Revisions.antt =====
-- The revision notes that the evening's reflection reads.
use smart_npc.Prelude.{
  ◌-◌, ◌≤◌, String, ◌≡◌, refl, sym, ap, ◌∙◌, List, [], ◌∷◌, ◌++◌, inl, inr, arith,
}
use smart_npc.Prelude.Tests.{ltb, Bool-cases}
use smart_npc.Prelude.Lists.{length, length-drop}
use smart_npc.Prelude.KeepLast.{keep_last, keep_last-append, keep_last-short}
use mathlib.Core.List.{append_assoc, append-nil}
use smart_npc.AgentState.Throttle.{Throttle, record_plan_revision}

module _ {F : Type 0} where
  pub record_all : List String → Throttle F → Throttle F
  record_all [] t = t
  record_all (note ∷ notes) t = record_all notes (record_plan_revision note t)

  one_revision :
      (note : String) (t : Throttle F)
      → (record_plan_revision note t).plan_revisions ≡ keep_last 32 (t.plan_revisions ++ note ∷ [])
  unfolding record_plan_revision
  one_revision note t =
      let notes = t.plan_revisions ++ note ∷ [] in
      elim (Bool-cases (ltb 32 (length notes))) [
        | inl full ↦ rw full refl
        | inr room ↦ rw room (sym (keep_last-short 32 notes (ground arith)))
      ]

  -- Where at most 32 notes are kept, and after any number of revisions: the notes are the last 32
  -- of those before and the new ones, in the order made, and so still at most 32.
  pub record_all-eq-keep_last :
      (notes : List String) (t : Throttle F)
      → length t.plan_revisions ≤ 32
      → ((record_all notes t).plan_revisions ≡ keep_last 32 (t.plan_revisions ++ notes))
        × (length (record_all notes t).plan_revisions ≤ 32)
  unfolding record_all
  record_all-eq-keep_last [] t h = (
    sym (keep_last-short 32 t.plan_revisions h)
        ∙ ap (keep_last 32) (sym (append-nil t.plan_revisions)),
    h,
  )
  record_all-eq-keep_last (note ∷ notes) t h =
      let t' = record_plan_revision note t in
      let all = t.plan_revisions ++ note ∷ [] in
      let one = one_revision note t in
      let short : length t'.plan_revisions ≤ 32 =
        omega (arith, ap length one, length-drop (length all - 32) all) in
      let rest = record_all-eq-keep_last notes t' short in
      (
        rest.0
            ∙ ap (λ p. keep_last 32 (p ++ notes)) one
            ∙ keep_last-append 32 all notes
            ∙ ap (keep_last 32) (append_assoc t.plan_revisions (note ∷ []) notes),
        rest.1,
      )
