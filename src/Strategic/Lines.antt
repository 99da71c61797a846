-- ===== src/Strategic/Lines.antt =====
-- The ranges that a plan's slots hold, and what the steps of the normalization keep of them.
use mathlib.Core.Path.{subst}
use smart_npc.Prelude.{
  ℕ, ◌%◌, ◌≤◌, ◌<◌, ◌≡◌, ◌≢◌, refl, sym, ap, ◌∙◌, inl, inr, true, Option, none, some, List, [], ◌∷◌,
  arith,
}
use smart_npc.Prelude.Tests.{ltb, Bool-cases}
use smart_npc.Prelude.Lists.{All}
use smart_npc.Slots.{split_plan_range}
use smart_npc.Slots.Clock.{split_plan_range-slot_text}
use smart_npc.Strategic.{
  DailyPlanItem, range_text, or_zero, start_of, end_of, with_range, is_proper, valid_items,
  insert_by_start, sort_by_start,
}

-- A range that is written is read back, within the day.
pub split_plan_range-range_text_mod :
    (s e : ℕ) → split_plan_range (range_text s e) ≡ some (s % 1440, e % 1440)
unfolding range_text
split_plan_range-range_text_mod s e = split_plan_range-slot_text s e

pub split_plan_range-range_text :
    (s e : ℕ) → s < 1440 → e < 1440 → split_plan_range (range_text s e) ≡ some (s, e)
split_plan_range-range_text s e hs he =
    let s' : s % 1440 ≡ s = omega arith in
    let e' : e % 1440 ≡ e = omega arith in split_plan_range-range_text_mod s e ∙ rw (s', e') refl

-- A slot with its range, of which `P` holds.
abbrev pub Ranges : (ℕ → ℕ → Type 0) → DailyPlanItem → Type 0
Ranges P it =
    (split_plan_range it.time ≡ some (start_of it, end_of it)) × P (start_of it) (end_of it)

-- What a plan may hold: of each item that can be parsed and has a length, `P`.
abbrev pub Accepts : (ℕ → ℕ → Type 0) → DailyPlanItem → Type 0
Accepts P it = (s e : ℕ) → split_plan_range it.time ≡ some (s, e) → s ≢ e → P s e

abbrev pub Ascending : ℕ → List DailyPlanItem → Type 0
Ascending lo [] = Unit
Ascending lo (it ∷ its) = (lo ≤ start_of it) × Ascending (start_of it) its

module _ (P : ℕ → ℕ → Type 0) where
  pub Ranges-of :
      (it : DailyPlanItem) (s e : ℕ) → split_plan_range it.time ≡ some (s, e) → P s e → Ranges P it
  Ranges-of it s e h p =
      let r = ap or_zero h in (h ∙ ap some (sym r), subst (λ (q : ℕ × ℕ). P q.0 q.1) (sym r) p)

  Ranges-proper :
      (it : DailyPlanItem) (r : Option (ℕ × ℕ))
      → split_plan_range it.time ≡ r
      → is_proper r ≡ true
      → Accepts P it
      → Ranges P it
  Ranges-proper it none e h a = cc
  Ranges-proper it (some (s, t)) e h a = Ranges-of it s t e (a s t e (λ q. ground (arith, h, q)))

  pub valid_items-Ranges :
      (its : List DailyPlanItem) → All (Accepts P) its → All (Ranges P) (valid_items its)
  unfolding valid_items
  valid_items-Ranges [] a = tt
  valid_items-Ranges (it ∷ its) a = elim (Bool-cases (is_proper (split_plan_range it.time))) [
    | inl h ↦ rw h (Ranges-proper it _ refl h a.0, valid_items-Ranges its a.1)
    | inr h ↦ rw h (valid_items-Ranges its a.1)
  ]

  insert-Ranges :
      (it : DailyPlanItem) (ds : List DailyPlanItem)
      → Ranges P it
      → All (Ranges P) ds
      → All (Ranges P) (insert_by_start it ds)
  unfolding insert_by_start
  insert-Ranges it [] r a = (r, tt)
  insert-Ranges it (d ∷ ds) r a = elim (Bool-cases (ltb (start_of d) (start_of it))) [
    | inl h ↦ rw h (a.0, insert-Ranges it ds r a.1)
    | inr h ↦ rw h (r, a)
  ]

  pub sort-Ranges :
      (its : List DailyPlanItem) → All (Ranges P) its → All (Ranges P) (sort_by_start its)
  unfolding sort_by_start
  sort-Ranges [] a = tt
  sort-Ranges (it ∷ its) a = insert-Ranges it (sort_by_start its) a.0 (sort-Ranges its a.1)

  pub Ranges-with_range :
      (s e : ℕ) (it : DailyPlanItem) → s < 1440 → e < 1440 → P s e → Ranges P (with_range s e it)
  Ranges-with_range s e it hs he p =
      Ranges-of (with_range s e it) s e (split_plan_range-range_text s e hs he) p

pub start_of-with_range :
    (s e : ℕ) (it : DailyPlanItem) → s < 1440 → e < 1440 → start_of (with_range s e it) ≡ s
start_of-with_range s e it hs he = ap (λ r. (or_zero r).0) (split_plan_range-range_text s e hs he)

pub end_of-with_range :
    (s e : ℕ) (it : DailyPlanItem) → s < 1440 → e < 1440 → end_of (with_range s e it) ≡ e
end_of-with_range s e it hs he = ap (λ r. (or_zero r).1) (split_plan_range-range_text s e hs he)

insert-Ascending :
    (it : DailyPlanItem) (lo : ℕ) (ds : List DailyPlanItem)
    → lo ≤ start_of it
    → Ascending lo ds
    → Ascending lo (insert_by_start it ds)
unfolding insert_by_start
insert-Ascending it lo [] h a = (h, tt)
insert-Ascending it lo (d ∷ ds) h a = elim (Bool-cases (ltb (start_of d) (start_of it))) [
  | inl l ↦ rw l (a.0, insert-Ascending it (start_of d) ds (ground (arith, l)) a.1)
  | inr l ↦ rw l (h, (ground (arith, l), a.1))
]

pub sort-Ascending : (its : List DailyPlanItem) → Ascending 0 (sort_by_start its)
unfolding sort_by_start
sort-Ascending [] = tt
sort-Ascending (it ∷ its) =
    insert-Ascending it 0 (sort_by_start its) (omega arith) (sort-Ascending its)
