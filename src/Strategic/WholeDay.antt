-- ===== src/Strategic/WholeDay.antt =====
-- One goal for the whole day.
use smart_npc.Prelude.{
  ℕ, ◌≤◌, ◌<◌, ◌≡◌, refl, ap, ◌∙◌, inr, true, false, none, some, List, [], ◌∷◌, arith,
}
use smart_npc.Prelude.Tests.{ltb}
use smart_npc.Slots.{Text, split_plan_range, slot_range_minute}
use smart_npc.Slots.Clock.{slot_range_minute_lem}
use smart_npc.Strategic.{
  DailyPlanItem, range_text, start_of, end_of, is_proper, valid_items, insert_by_start,
  sort_by_start, text_eq, merge_same_goal, first_of, extend_first, fill_gaps, map_last, extend_of,
  extend_last, clamp_of, clamp_last, clamp_night_end, finish_plan, normalize_sorted,
  normalize_daily_plan,
}
use smart_npc.Strategic.Lines.{split_plan_range-range_text, start_of-with_range, end_of-with_range}
use smart_npc.Strategic.Steps.{clamp_keeps}

text_eq_refl : (t : Text) → text_eq t t ≡ true
unfolding text_eq
text_eq_refl [] = refl
text_eq_refl (c ∷ cs) = ground (arith, text_eq_refl cs)

abbrev pub written : ℕ → ℕ → Text → DailyPlanItem
written s e goal = record { time = range_text s e; goal = goal }

module _ (s e m : ℕ) (goal : Text) (after_six : 360 ≤ s) (rising : s < e) (in_day : e < 1440)
    (started : s ≤ m) where
  valid_both :
      valid_items (written s e goal ∷ written e s goal ∷ [])
      ≡ written s e goal ∷ written e s goal ∷ []
  unfolding valid_items
  valid_both =
      let a = ap is_proper (split_plan_range-range_text s e (omega arith) in_day) in
      let b = ap is_proper (split_plan_range-range_text e s in_day (omega arith)) in
      let a' : is_proper (split_plan_range (range_text s e)) ≡ true = a ∙ ground arith in
      let b' : is_proper (split_plan_range (range_text e s)) ≡ true = b ∙ ground arith in
      rw (a', b') refl

  sorted_both :
      sort_by_start (written s e goal ∷ written e s goal ∷ [])
      ≡ written s e goal ∷ written e s goal ∷ []
  unfolding sort_by_start insert_by_start
  sorted_both =
      let a = start_of-with_range s e (written s e goal) (omega arith) in_day in
      let b = start_of-with_range e s (written e s goal) in_day (omega arith) in
      let later : ltb (start_of (written e s goal)) (start_of (written s e goal)) ≡ false =
        ground (arith, a, b) in
      rw later refl

  merged_both : merge_same_goal (written s e goal) (written e s goal ∷ []) ≡ written s s goal ∷ []
  unfolding merge_same_goal
  merged_both =
      let a = start_of-with_range s e (written s e goal) (omega arith) in_day in
      let b = end_of-with_range e s (written e s goal) in_day (omega arith) in
      rw (text_eq_refl goal) (
        ap (λ (r : ℕ). written r (end_of (written e s goal)) goal ∷ []) a
        ∙ ap (λ (r : ℕ). written s r goal ∷ []) b)

  finished : finish_plan m (written s s goal ∷ []) ≡ written s s goal ∷ []
  unfolding finish_plan fill_gaps map_last clamp_night_end extend_first
  finished =
      let it = written s s goal in
      let read : split_plan_range it.time ≡ some (s, s) =
        split_plan_range-range_text s s (omega arith) (omega arith) in
      let first : extend_first m it ≡ it = ap (λ r. first_of m r it) read ∙ ground arith in
      let last : extend_last it ≡ it = ap (λ r. extend_of r it) read ∙ ground arith in
      let clamped : clamp_last it ≡ it =
        ap (λ r. clamp_of r it) read ∙ clamp_keeps it s s (inr after_six) in
      ap (λ (i : DailyPlanItem). clamp_last (extend_last i) ∷ []) first
      ∙ ap (λ (i : DailyPlanItem). clamp_last i ∷ []) last
      ∙ ap (λ (i : DailyPlanItem). i ∷ []) clamped

  -- An answer that has one goal for the whole day, in a slot from `s` to `e` and one from `e` to `s`,
  -- is normalized to a single slot from `s` to `s`, whose range the rest of the server takes for
  -- none: `SlotRangeMinute` refuses it. The slots start at 06:00 or later and end before 24:00, and
  -- the planning starts at `s` or later.
  pub whole_day_goal_is_degenerate :
      (normalize_daily_plan (written s e goal ∷ written e s goal ∷ []) m ≡ written s s goal ∷ [])
      × (slot_range_minute (range_text s s) ≡ none)
  unfolding normalize_daily_plan range_text
  whole_day_goal_is_degenerate = (
    ap (λ (l : List DailyPlanItem). normalize_sorted m (sort_by_start l)) valid_both
        ∙ ap (normalize_sorted m) sorted_both
        ∙ ap (finish_plan m) merged_both
        ∙ finished,
    slot_range_minute_lem s s (omega arith) (omega arith) ∙ ground arith,
  )
