-- ===== src/Slots/Expiry.antt =====
-- When a slot counts as over, by the clock.
use smart_npc.Prelude.{
  ℕ, ◌+◌, ◌-◌, ◌/◌, ◌%◌, ◌<◌, ◌≡◌, refl, ap, ◌∙◌, Bool, false, none, some, ◌&&◌, arith,
}
use smart_npc.Prelude.Tests.{ltb, leb, ◌==◌, if◌then◌else◌}
use smart_npc.Slots.{
  parse_plan_minute, wrap_slot, slot_range_minute, fmt_minute, is_past, normalize_tod_to_slot,
  slot_expired, slot_duration_minute,
}
use smart_npc.Slots.Clock.{slot_text, slot_range_minute_lem, parse_plan_minute-fmt_minute}

-- Over by the clock at minute `t` of the day: a slot within the day from its end on; one over
-- midnight from its end to the middle of the gap before it starts again. One that ends at
-- midnight, or has no length, is never over.
abbrev pub is_over : ℕ → ℕ → ℕ → Bool
is_over start end t =
    if ltb start end
    then leb end t
    else if ltb 0 end && ltb end start
    then leb end t && ltb t ((end + start) / 2)
    else false

is_past-wrap_slot :
    (start end t : ℕ)
    → start < 1440
    → end < 1440
    → t < 1440
    → is_past (wrap_slot start end) (some t) ≡ is_over start end t
unfolding normalize_tod_to_slot
is_past-wrap_slot start end t hs he ht = ground arith

slot_expired-written :
    (start end t : ℕ)
    → slot_expired (slot_text start end) (fmt_minute t)
      ≡ is_past (slot_range_minute (slot_text start end)) (parse_plan_minute (fmt_minute t))
unfolding slot_expired fmt_minute
slot_expired-written start end t = refl

-- For every slot and every time of day that are written in the day, a slot counts as expired
-- exactly when it is over by the clock: a slot within the day from its end on, one over midnight
-- from its end to the middle of the gap before it starts again, and one that ends at midnight, or
-- has no length, never.
pub slot_expired_lem :
    (start end t : ℕ)
    → start < 1440
    → end < 1440
    → t < 1440
    → slot_expired (slot_text start end) (fmt_minute t) ≡ is_over start end t
slot_expired_lem start end t hs he ht =
    let day : t % 1440 ≡ t = omega arith in
    slot_expired-written start end t
    ∙ ap (λ r. is_past r (parse_plan_minute (fmt_minute t))) (slot_range_minute_lem start end hs he)
    ∙ ap (is_past (wrap_slot start end)) (parse_plan_minute-fmt_minute t ∙ ap some day)
    ∙ is_past-wrap_slot start end t hs he ht

-- The length of a slot that is written: to its end, over midnight where the end is before the
-- start; a slot of no length has none.
pub slot_duration_minute_lem :
    (start end : ℕ)
    → start < 1440
    → end < 1440
    → slot_duration_minute (slot_text start end)
      ≡ (if start == end then none else some ((end + 1440 - start) % 1440))
unfolding slot_duration_minute
slot_duration_minute_lem start end hs he =
    rw (slot_duration_minute, slot_range_minute_lem start end hs he) (ground arith)
