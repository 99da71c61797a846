-- ===== src/Slots/Clock.antt =====
-- Reading and writing times of day and ranges.
use smart_npc.Prelude.{
  ℕ, ◌+◌, ◌*◌, ◌/◌, ◌%◌, ◌≤◌, ◌<◌, ◌≡◌, refl, ap, ◌∙◌, true, false, some, [], ◌∷◌, ◌++◌, arith,
}
use smart_npc.Prelude.Tests.{◌==◌}
use smart_npc.Prelude.Lists.{All}
use smart_npc.Slots.{
  Text, colon, dash, is_space, trim_left, trim_right, trim_space, split_two, digits, atoi,
  number_of, clock, hour_minute, parse_plan_minute, split_plan_range, wrap_slot, slot_range_minute,
  two_digits, fmt_minute,
}

-- No space, as in what `fmt_minute` writes.
abbrev pub IsSolid : Text → Type 0
IsSolid = All λ c. is_space c ≡ false

trim_left_lem : (s : Text) → IsSolid s → trim_left s ≡ s
unfolding trim_left
trim_left_lem [] h = refl
trim_left_lem (c ∷ cs) h = rw (h.0) refl

trim_right_lem : (s : Text) → IsSolid s → trim_right s ≡ s
unfolding trim_right
trim_right_lem [] h = refl
trim_right_lem (c ∷ []) h = rw (h.0) refl
trim_right_lem (c ∷ d ∷ ds) h = rw (trim_right_lem (d ∷ ds) h.1) refl

trim_space_lem : (s : Text) → IsSolid s → trim_space s ≡ s
trim_space_lem s h = ap trim_right (trim_left_lem s h) ∙ trim_right_lem s h

digit_is_solid : (d : ℕ) → d ≤ 10 → is_space (48 + d) ≡ false
digit_is_solid d h = ground arith

split_two_lem :
    (sep : ℕ) (a b : Text)
    → All (λ c. (c == sep) ≡ false) a
    → split_two sep (a ++ sep ∷ b) ≡ some (a, b)
unfolding split_two
split_two_lem sep [] b h = let e : (sep == sep) ≡ true = ground arith in rw e refl
split_two_lem sep (c ∷ cs) b h = rw (h.0, split_two_lem sep cs b h.1) refl

atoi-two_digits : (n : ℕ) → n < 100 → atoi (two_digits n) ≡ some n
unfolding atoi digits
atoi-two_digits n h =
    let solid : IsSolid (two_digits n) =
      (digit_is_solid (n / 10) (omega arith), (digit_is_solid (n % 10) (omega arith), tt)) in
    ap number_of (trim_space_lem (two_digits n) solid) ∙ ground arith

IsSolid-two_digits : (n : ℕ) (s : Text) → n < 100 → IsSolid s → IsSolid (two_digits n ++ s)
IsSolid-two_digits n s h k =
    (digit_is_solid (n / 10) (omega arith), (digit_is_solid (n % 10) (omega arith), k))

pub IsSolid-fmt_minute : (m : ℕ) → IsSolid (fmt_minute m)
unfolding fmt_minute
IsSolid-fmt_minute m =
    let day = m % 1440 in
    IsSolid-two_digits (day / 60) (colon ∷ two_digits (day % 60)) (omega arith)
      (refl, IsSolid-two_digits (day % 60) [] (omega arith) tt)

-- A minute that is written is read back, within the day.
pub parse_plan_minute-fmt_minute : (m : ℕ) → parse_plan_minute (fmt_minute m) ≡ some (m % 1440)
unfolding parse_plan_minute fmt_minute
parse_plan_minute-fmt_minute m =
    let day = m % 1440 in
    let h = day / 60 in
    let split : split_two colon (fmt_minute m) ≡ some (two_digits h, two_digits (day % 60)) =
      split_two_lem colon (two_digits h) (two_digits (day % 60))
        (ground arith, (ground arith, tt)) in
    let total : h * 60 + day % 60 ≡ day = omega arith in
    ap (λ s. clock (split_two colon s)) (trim_space_lem (fmt_minute m) (IsSolid-fmt_minute m))
    ∙ ap clock split
    ∙ ap (λ h. hour_minute h (atoi (two_digits (day % 60)))) (atoi-two_digits h (omega arith))
    ∙ ap (hour_minute (some h)) (atoi-two_digits (day % 60) (omega arith))
    ∙ ap some total

-- A range of two times of day, as a plan writes it.
abbrev pub slot_text : ℕ → ℕ → Text
slot_text start end = fmt_minute start ++ dash ∷ fmt_minute end

no_dash : (m : ℕ) → All (λ c. (c == dash) ≡ false) (fmt_minute m)
unfolding fmt_minute
no_dash m = (ground arith, (ground arith, (refl, (ground arith, (ground arith, tt)))))

-- The range of a slot whose ends are written: they are read back, the end one day later where it
-- is not after the start, and a slot of no length is refused.
pub slot_range_minute_lem :
    (start end : ℕ)
    → start < 1440
    → end < 1440
    → slot_range_minute (slot_text start end) ≡ wrap_slot start end
unfolding slot_range_minute
slot_range_minute_lem start end hs he =
    let s : start % 1440 ≡ start = omega arith in
    let e : end % 1440 ≡ end = omega arith in
    rw
      (
        slot_range_minute,
        split_two_lem dash (fmt_minute start) (fmt_minute end) (no_dash start),
        parse_plan_minute-fmt_minute start,
        parse_plan_minute-fmt_minute end,
        s,
        e,
      )
      refl

-- The same without the wrap: each end is read back within the day.
pub split_plan_range-slot_text :
    (start end : ℕ) → split_plan_range (slot_text start end) ≡ some (start % 1440, end % 1440)
unfolding split_plan_range
split_plan_range-slot_text start end =
    rw
      (
        split_plan_range,
        split_two_lem dash (fmt_minute start) (fmt_minute end) (no_dash start),
        parse_plan_minute-fmt_minute start,
        parse_plan_minute-fmt_minute end,
      )
      refl
