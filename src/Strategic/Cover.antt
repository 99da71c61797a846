-- ===== src/Strategic/Cover.antt =====
-- Which minutes of the day a normalized plan has a slot for.
use smart_npc.Prelude.{
  ℕ, ◌≤◌, ◌<◌, ◌≡◌, ◌≢◌, refl, sym, ap, ◌∙◌, ◌⊎◌, inl, inr, true, false, ◌&&◌, some, List, [], ◌∷◌,
  arith,
}
use mathlib.Core.Path.{subst}
use smart_npc.Prelude.Tests.{ltb→lt, ltb, Bool-cases}
use smart_npc.Prelude.Lists.{All}
use smart_npc.Slots.{Text, split_plan_range}
use smart_npc.Strategic.{
  first_of, DailyPlanItem, start_of, end_of, with_range, merge_same_goal, extend_first, fill_gap,
  fill_gaps, map_last, extend_last, clamp_last, clamp_night_end, normalize_daily_plan,
  normalize_sorted, finish_plan, is_in_slot, match_minute, valid_items, sort_by_start,
  insert_by_start,
}
use smart_npc.Strategic.Steps.{
  InDay, merge-Ranges, merge-Ascending, Ascending-le, close, close_lem, map_last-map_last,
}
use smart_npc.Strategic.Lines.{
  Ranges, Accepts, Ascending, split_plan_range-range_text, Ranges-with_range, start_of-with_range,
  valid_items-Ranges, sort-Ranges, sort-Ascending,
}

-- A slot has the minute `t`.
abbrev Has : ℕ → DailyPlanItem → Type 0
Has t it = is_in_slot t (split_plan_range it.time) ≡ true

Has-range :
    (t : ℕ) (it : DailyPlanItem) (s e : ℕ)
    → split_plan_range it.time ≡ some (s, e)
    → s ≤ t
    → (e ≤ s) ⊎ (t < e)
    → Has t it
Has-range t it s e h a (inl c) = ap (is_in_slot t) h ∙ ground arith
Has-range t it s e h a (inr c) = ap (is_in_slot t) h ∙ ground arith

Has-close :
    (t : ℕ) (it : DailyPlanItem) → Ranges InDay it → start_of it ≤ t → t < 1320 → Has t (close it)
Has-close t it (h, p) a b =
    let (e', r, c) = close_lem it (start_of it) (end_of it) h p in
    Has-range t (close it) (start_of it) e' r a (ground arith)

Has-fill_gap :
    (t : ℕ) (it next : DailyPlanItem)
    → Ranges InDay it
    → Ranges InDay next
    → start_of it ≤ t
    → t < start_of next
    → Has t (fill_gap it next)
Has-fill_gap t it next (h, p) (h', p') a b =
    elim (Bool-cases (ltb 0 (end_of it) && ltb (end_of it) (start_of next))) [
      | inl g ↦ rw g (
          Has-range t (with_range (start_of it) (start_of next) it) (start_of it) (start_of next)
            (split_plan_range-range_text (start_of it) (start_of next) p.1 p'.1) a (inr b))
      | inr g ↦ rw g (Has-range t it (start_of it) (end_of it) h a (ground (arith, g, p.0)))
    ]

-- Some slot of the list matches.
abbrev pub Matches : ℕ → List DailyPlanItem → Type 0
Matches t its = (slot : Text) × (match_minute its t ≡ some slot)

Matches-head :
    (t : ℕ) (it : DailyPlanItem) (its : List DailyPlanItem) → Has t it → Matches t (it ∷ its)
unfolding match_minute
Matches-head t it its h = (it.time, rw h refl)

Matches-tail :
    (t : ℕ) (it : DailyPlanItem) (its : List DailyPlanItem) → Matches t its → Matches t (it ∷ its)
unfolding match_minute
Matches-tail t it its (slot, m) = elim (Bool-cases (is_in_slot t (split_plan_range it.time))) [
  | inl h ↦ (it.time, rw h refl)
  | inr h ↦ (slot, rw h m)
]

Matches-from :
    (t : ℕ) (it : DailyPlanItem) (its : List DailyPlanItem)
    → Ranges InDay it
    → All (Ranges InDay) its
    → Ascending (start_of it) its
    → start_of it ≤ t
    → t < 1320
    → Matches t (map_last close (fill_gaps it its))
unfolding map_last fill_gaps
Matches-from t it [] r a asc h k = Matches-head t (close it) [] (Has-close t it r h k)
Matches-from t it (next ∷ []) r a asc h k = elim (Bool-cases (ltb t (start_of next))) [
  | inl l ↦ Matches-head t (fill_gap it next) _ (Has-fill_gap t it next r a.0 h (ground (arith, l)))
  | inr l ↦
      Matches-tail t (fill_gap it next) _ (Matches-from t next [] a.0 tt tt (ground (arith, l)) k)
]
Matches-from t it (next ∷ other ∷ its) r a asc h k = elim (Bool-cases (ltb t (start_of next))) [
  | inl l ↦ Matches-head t (fill_gap it next) _ (Has-fill_gap t it next r a.0 h (ground (arith, l)))
  | inr l ↦
      Matches-tail t (fill_gap it next) _
        (Matches-from t next (other ∷ its) a.0 a.1 asc.1 (ground (arith, l)) k)
]

extend_first-Ranges :
    (m : ℕ) (it : DailyPlanItem)
    → 360 ≤ m
    → m < 1440
    → Ranges InDay it
    → Ranges InDay (extend_first m it)
      × (start_of (extend_first m it) ≤ m)
      × (start_of (extend_first m it) ≤ start_of it)
unfolding extend_first
extend_first-Ranges m it h k (r, p) =
    subst (λ (i : DailyPlanItem). Ranges InDay i × (start_of i ≤ m) × (start_of i ≤ start_of it))
      (ap (λ o. first_of m o it) (sym r)) (cases (Bool-cases (ltb m (start_of it))))
  where
    cases :
        (ltb m (start_of it) ≡ true) ⊎ (ltb m (start_of it) ≡ false)
        → Ranges InDay (first_of m (some (start_of it, end_of it)) it)
          × (start_of (first_of m (some (start_of it, end_of it)) it) ≤ m)
          × (start_of (first_of m (some (start_of it, end_of it)) it) ≤ start_of it)
    cases (inl l) =
        let st = start_of-with_range m (end_of it) it k p.2 in
        rw l (
          Ranges-with_range InDay m (end_of it) it k p.2 (h, k, p.2),
          omega (arith, st),
          omega (arith, st, ltb→lt m (start_of it) l),
        )
    cases (inr l) = rw l ((r, p), ground (arith, l), omega arith)

finish_plan-Matches :
    (m t : ℕ) (its : List DailyPlanItem)
    → 360 ≤ m
    → m < 1440
    → All (Ranges InDay) its
    → Ascending 0 its
    → finish_plan m its ≢ []
    → m ≤ t
    → t < 1320
    → Matches t (finish_plan m its)
unfolding finish_plan clamp_night_end
finish_plan-Matches m t [] h k a asc some_left b c = absurd (some_left refl)
finish_plan-Matches m t (first ∷ rest) h k (r, a) asc some_left b c =
    let (r', at_m, earlier) = extend_first-Ranges m first h k r in
    subst (Matches t)
      (sym (map_last-map_last extend_last clamp_last (fill_gaps (extend_first m first) rest)))
      (Matches-from t (extend_first m first) rest r' a
        (Ascending-le (start_of first) (start_of (extend_first m first)) rest earlier asc.1)
        (omega (arith, at_m)) c)

normalize_sorted-Matches :
    (m t : ℕ) (its : List DailyPlanItem)
    → 360 ≤ m
    → m < 1440
    → All (Ranges InDay) its
    → Ascending 0 its
    → normalize_sorted m its ≢ []
    → m ≤ t
    → t < 1320
    → Matches t (normalize_sorted m its)
normalize_sorted-Matches m t [] h k a asc some_left b c = absurd (some_left refl)
normalize_sorted-Matches m t (it ∷ its) h k a asc some_left b c =
    finish_plan-Matches m t (merge_same_goal it its) h k (merge-Ranges it its a.0 a.1)
      (merge-Ascending it its 0 a.0 a.1 (omega arith) asc.1) some_left b c

insert-ne-nil : (it : DailyPlanItem) (its : List DailyPlanItem) → insert_by_start it its ≢ []
unfolding insert_by_start
insert-ne-nil it [] e = cc
insert-ne-nil it (d ∷ ds) e = ground (arith, e)

merge-ne-nil : (it : DailyPlanItem) (its : List DailyPlanItem) → merge_same_goal it its ≢ []
unfolding merge_same_goal
merge-ne-nil it [] e = cc
merge-ne-nil it (next ∷ its) e =
    ground (
      arith,
      e,
      merge-ne-nil (with_range (start_of it) (end_of next) it) its,
      merge-ne-nil next its,
    )

map_last-ne-nil :
    (f : DailyPlanItem → DailyPlanItem) (its : List DailyPlanItem) → its ≢ [] → map_last f its ≢ []
unfolding map_last
map_last-ne-nil f [] some_left e = some_left refl
map_last-ne-nil f (it ∷ []) some_left e = cc
map_last-ne-nil f (it ∷ next ∷ its) some_left e = cc

fill_gaps-ne-nil : (it : DailyPlanItem) (its : List DailyPlanItem) → fill_gaps it its ≢ []
unfolding fill_gaps
fill_gaps-ne-nil it [] e = cc
fill_gaps-ne-nil it (next ∷ its) e = cc

finish-ne-nil : (m : ℕ) (its : List DailyPlanItem) → its ≢ [] → finish_plan m its ≢ []
unfolding finish_plan clamp_night_end
finish-ne-nil m [] some_left = absurd (some_left refl)
finish-ne-nil m (it ∷ its) some_left =
    map_last-ne-nil clamp_last _
      (map_last-ne-nil extend_last _ (fill_gaps-ne-nil (extend_first m it) its))

normalized-ne-nil :
    (m : ℕ) (its : List DailyPlanItem) → its ≢ [] → normalize_sorted m (sort_by_start its) ≢ []
unfolding sort_by_start
normalized-ne-nil m [] some_left = absurd (some_left refl)
normalized-ne-nil m (it ∷ its) some_left =
    sorted (insert_by_start it (sort_by_start its)) (insert-ne-nil it (sort_by_start its))
  where
    sorted : (f : List DailyPlanItem) → f ≢ [] → normalize_sorted m f ≢ []
    sorted [] left = absurd (left refl)
    sorted (first ∷ rest) left =
        finish-ne-nil m (merge_same_goal first rest) (merge-ne-nil first rest)

-- An answer with a slot that can be parsed and has a length is normalized to a plan with a slot for
-- every minute from the start of the planning to 22:00. It holds where the planning starts between
-- 06:00 and midnight, and so does every such slot of the answer, with its end before 24:00.
pub normalize_daily_plan-Matches :
    (items : List DailyPlanItem) (start_minute t : ℕ)
    → All (Accepts InDay) items
    → 360 ≤ start_minute
    → start_minute < 1440
    → valid_items items ≢ []
    → start_minute ≤ t
    → t < 1320
    → Matches t (normalize_daily_plan items start_minute)
unfolding normalize_daily_plan
normalize_daily_plan-Matches items m t a h k some_left b c =
    normalize_sorted-Matches m t (sort_by_start (valid_items items)) h k
      (sort-Ranges InDay (valid_items items) (valid_items-Ranges InDay items a))
      (sort-Ascending (valid_items items)) (normalized-ne-nil m (valid_items items) some_left) b c
