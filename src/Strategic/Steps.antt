-- ===== src/Strategic/Steps.antt =====
-- The steps of the normalization, slot by slot.
use smart_npc.Prelude.{
  ℕ, ◌%◌, ◌≤◌, ◌<◌, ◌≡◌, refl, ap, ◌∙◌, ◌⊎◌, inl, inr, true, some, List, [], ◌∷◌, arith,
}
use smart_npc.Prelude.Tests.{ltb, leb, Bool-cases}
use smart_npc.Prelude.Lists.{All}
use smart_npc.Slots.{split_plan_range}
use smart_npc.Strategic.{
  DailyPlanItem, start_of, end_of, with_range, text_eq, merge_same_goal, map_last, extend_of,
  extend_last, clamp_of, clamp_to, clamp_last,
}
use smart_npc.Strategic.Lines.{
  split_plan_range-range_text_mod, Ranges, Ascending, split_plan_range-range_text,
  Ranges-with_range, start_of-with_range,
}

-- A slot of the day that starts between 06:00 and midnight.
abbrev pub InDay : ℕ → ℕ → Type 0
InDay s e = (360 ≤ s) × (s < 1440) × (e < 1440)

-- The merge of neighbours.
pub merge-Ranges :
    (last : DailyPlanItem) (its : List DailyPlanItem)
    → Ranges InDay last
    → All (Ranges InDay) its
    → All (Ranges InDay) (merge_same_goal last its)
unfolding merge_same_goal
merge-Ranges last [] r a = (r, tt)
merge-Ranges last (it ∷ its) (h, p) ((h', p'), a) = elim (Bool-cases (text_eq last.goal it.goal)) [
  | inl g ↦ rw g (
      merge-Ranges (with_range (start_of last) (end_of it) last) its
        (Ranges-with_range InDay (start_of last) (end_of it) last p.1 p'.2 (p.0, p.1, p'.2)) a)
  | inr g ↦ rw g ((h, p), merge-Ranges it its (h', p') a)
]

pub Ascending-le :
    (lo lo' : ℕ) (its : List DailyPlanItem) → lo' ≤ lo → Ascending lo its → Ascending lo' its
Ascending-le lo lo' [] h a = tt
Ascending-le lo lo' (it ∷ its) h a = (omega (arith, a.0), a.1)

pub merge-Ascending :
    (last : DailyPlanItem) (its : List DailyPlanItem) (lo : ℕ)
    → Ranges InDay last
    → All (Ranges InDay) its
    → lo ≤ start_of last
    → Ascending (start_of last) its
    → Ascending lo (merge_same_goal last its)
unfolding merge_same_goal
merge-Ascending last [] lo r a h asc = (h, tt)
merge-Ascending last (it ∷ its) lo (r, p) ((r', p'), a) h asc =
    elim (Bool-cases (text_eq last.goal it.goal)) [
      | inl g ↦ rw g (
          let joined = with_range (start_of last) (end_of it) last in
          let st = start_of-with_range (start_of last) (end_of it) last p.1 p'.2 in
          merge-Ascending joined its lo
            (Ranges-with_range InDay (start_of last) (end_of it) last p.1 p'.2 (p.0, p.1, p'.2)) a
            (omega (arith, st))
            (Ascending-le (start_of it) (start_of joined) its (omega (arith, st, asc.0)) asc.1))
      | inr g ↦ rw g (h, merge-Ascending it its (start_of last) (r', p') a asc.0 asc.1)
    ]

-- What the last slot becomes: it ends at 22:00, or it crosses midnight and ends at 06:00 or later.
abbrev pub Closed : ℕ → ℕ → ℕ → Type 0
Closed s e e' = ((s < e) × (e < 1320) × (e' ≡ 1320)) ⊎ ((e' ≤ s) × (360 ≤ e'))

abbrev pub close : DailyPlanItem → DailyPlanItem
close it = clamp_last (extend_last it)

pub clamp_keeps : (it : DailyPlanItem) (s e : ℕ) → (s < e) ⊎ (360 ≤ e) → clamp_to s e it ≡ it
clamp_keeps it s e (inl h) = ground arith
clamp_keeps it s e (inr h) = ground arith

clamp_moves :
    (it : DailyPlanItem) (s e : ℕ) → e ≤ s → e < 360 → clamp_to s e it ≡ with_range s 360 it
clamp_moves it s e h k = ground arith

clamped :
    (it : DailyPlanItem) (s e : ℕ)
    → split_plan_range it.time ≡ some (s, e)
    → InDay s e
    → (e' : ℕ) × (split_plan_range (clamp_last it).time ≡ some (s, e'))
      × (((s < e) × (e' ≡ e)) ⊎ ((e' ≤ s) × (360 ≤ e')))
clamped it s e h p =
    let at = ap (λ r. split_plan_range (clamp_of r it).time) h in
    let kept = λ (k : (s < e) ⊎ (360 ≤ e)).
      at ∙ ap (λ (i : DailyPlanItem). split_plan_range i.time) (clamp_keeps it s e k) ∙ h in
    elim (Bool-cases (ltb s e)) [
      | inl l ↦ (e, kept (inl (ground (arith, l))), inl (ground (arith, l), refl))
      | inr l ↦ elim (Bool-cases (leb 360 e)) [
        | inl k ↦ (e, kept (inr (ground (arith, k))), inr (ground (arith, l), ground (arith, k)))
        | inr k ↦ (
          360,
          at
              ∙ ap (λ (i : DailyPlanItem). split_plan_range i.time)
                  (clamp_moves it s e (ground (arith, l)) (ground (arith, k)))
              ∙ split_plan_range-range_text s 360 p.1 (omega arith),
          inr (p.0, omega arith),
        )
      ]
    ]

extended :
    (it : DailyPlanItem) (s e : ℕ)
    → split_plan_range it.time ≡ some (s, e)
    → InDay s e
    → (e' : ℕ) × (split_plan_range (extend_last it).time ≡ some (s, e'))
      × (e' < 1440)
      × (((s < e) × (e < 1320) × (e' ≡ 1320)) ⊎ (e' ≤ s))
extended it s e h p =
    let at = ap (λ r. split_plan_range (extend_of r it).time) h in
    let s' : s % 1440 ≡ s = omega (arith, p.1) in
    elim (Bool-cases (ltb s e)) [
      | inl l ↦ elim (Bool-cases (ltb e 1320)) [
        | inl k ↦ (
          1320,
          at ∙ rw (l, k) (split_plan_range-range_text s 1320 p.1 (omega arith)),
          omega arith,
          inl (ground (arith, l), ground (arith, k), refl),
        )
        | inr k ↦
            let night : ltb e 1800 ≡ true = ground (arith, p.2) in
            (
              360,
              at ∙ rw (l, k, night) (split_plan_range-range_text_mod s 1800 ∙ rw s' refl),
              omega arith,
              inr (p.0),
            )
      ]
      | inr l ↦ (e, at ∙ rw l h, p.2, inr (ground (arith, l)))
    ]

pub close_lem :
    (it : DailyPlanItem) (s e : ℕ)
    → split_plan_range it.time ≡ some (s, e)
    → InDay s e
    → (e' : ℕ) × (split_plan_range (close it).time ≡ some (s, e')) × Closed s e e'
close_lem it s e h p =
    let (e1, r1, day, c1) = extended it s e h p in
    let (e2, r2, c2) = clamped (extend_last it) s e1 r1 (p.0, p.1, day) in (e2, r2, ground arith)

pub map_last-map_last :
    (f g : DailyPlanItem → DailyPlanItem) (its : List DailyPlanItem)
    → map_last g (map_last f its) ≡ map_last (λ it. g (f it)) its
unfolding map_last
map_last-map_last f g [] = refl
map_last-map_last f g (it ∷ []) = refl
map_last-map_last f g (it ∷ next ∷ []) = refl
map_last-map_last f g (it ∷ next ∷ other ∷ its) =
    ap (λ l. it ∷ l) (map_last-map_last f g (next ∷ other ∷ its))
