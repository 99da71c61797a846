-- ===== src/Slots.antt =====
-- agenttown-mcp/pkg/prompt/slotutil.go: the times of day and the slots of a day's plan.
-- A text is the list of its code points, as `range` over a Go string yields them. `none` is the -1
-- that the functions return on a parse error; minutes are counted from midnight.
pub mod Clock
pub mod Expiry
use smart_npc.Prelude.{
  ℕ, ◌+◌, ◌-◌, ◌*◌, ◌/◌, ◌%◌, Bool, true, false, Option, none, some, List, [], ◌∷◌, ◌++◌, ◌&&◌,
  ◌||◌,
}
use smart_npc.Prelude.Tests.{ltb, leb, ◌==◌, if◌then◌else◌}

abbrev pub Text : Type 0
Text = List ℕ

abbrev pub colon : ℕ
colon = 58

abbrev pub dash : ℕ
dash = 45

-- `unicode.IsSpace`
abbrev pub is_space : ℕ → Bool
is_space c =
    (leb 9 c && leb c 13)
    || c == 32
    || c == 0x85
    || c == 0xa0
    || c == 0x1680
    || (leb 0x2000 c && leb c 0x200a)
    || c == 0x2028
    || c == 0x2029
    || c == 0x202f
    || c == 0x205f
    || c == 0x3000

-- `strings.TrimSpace`
unfoldable pub trim_left : Text → Text
trim_left [] = []
trim_left (c ∷ cs) = let rest = trim_left cs in if is_space c then rest else c ∷ cs

unfoldable pub trim_right : Text → Text
trim_right [] = []
trim_right (c ∷ cs) = elim (trim_right cs) [
  | [] ↦ if is_space c then [] else c ∷ []
  | d ∷ ds ↦ c ∷ d ∷ ds
]

abbrev pub trim_space : Text → Text
trim_space s = trim_right (trim_left s)

-- `strings.SplitN(s, sep, 2)`, where it has two parts.
pub split_two : ℕ → Text → Option (Text × Text)
split_two sep [] = none
split_two sep (c ∷ cs) =
    let rest = split_two sep cs in
    if c == sep then some ([], cs) else elim rest [ none ↦ none | some (a, b) ↦ some (c ∷ a, b) ]

-- The loop of `atoi`.
pub digits : ℕ → Text → Option ℕ
digits n [] = some n
digits n (c ∷ cs) =
    let rest = digits (n * 10 + (c - 48)) cs in if ltb c 48 || ltb 57 c then none else rest

abbrev pub number_of : Text → Option ℕ
number_of [] = none
number_of (c ∷ cs) = digits 0 (c ∷ cs)

pub atoi : Text → Option ℕ
atoi s = number_of (trim_space s)

abbrev pub hour_minute : Option ℕ → Option ℕ → Option ℕ
hour_minute (some h) (some m) = some (h * 60 + m)
hour_minute _ _ = none

abbrev pub clock : Option (Text × Text) → Option ℕ
clock none = none
clock (some (h, m)) = hour_minute (atoi h) (atoi m)

pub parse_plan_minute : Text → Option ℕ
parse_plan_minute s = clock (split_two colon (trim_space s))

abbrev pub both : Option ℕ → Option ℕ → Option (ℕ × ℕ)
both (some start) (some end) = some (start, end)
both _ _ = none

-- `SplitPlanRange`
unfoldable pub split_plan_range : Text → Option (ℕ × ℕ)
split_plan_range s = elim (split_two dash s) [
  | none ↦ none
  | some (a, b) ↦ both (parse_plan_minute a) (parse_plan_minute b)
]

-- The end of a slot that crosses midnight is counted on into the next day.
abbrev pub wrap_slot : ℕ → ℕ → Option (ℕ × ℕ)
wrap_slot start end =
    if leb end start
    then if end == start then none else some (start, end + 1440)
    else some (start, end)

pub slot_range_minute : Text → Option (ℕ × ℕ)
slot_range_minute slot = elim (split_two dash slot) [
  | none ↦ none
  | some (a, b) ↦ elim (both (parse_plan_minute a) (parse_plan_minute b)) [
    | none ↦ none
    | some (start, end) ↦ wrap_slot start end
  ]
]

pub normalize_tod_to_slot : ℕ → ℕ → ℕ → ℕ
normalize_tod_to_slot cur_min start end =
    let gap_start = end - 1440 in
    let midpoint = (gap_start + start) / 2 in
    if leb end 1440
    then cur_min
    else if leb start cur_min
    then cur_min
    else if ltb cur_min gap_start
    then cur_min + 1440
    else if ltb cur_min midpoint
    then end
    else cur_min

abbrev pub is_past : Option (ℕ × ℕ) → Option ℕ → Bool
is_past (some (start, end)) (some cur_min) = leb end (normalize_tod_to_slot cur_min start end)
is_past _ _ = false

pub slot_expired : Text → Text → Bool
slot_expired [] tod = false
slot_expired current_slot [] = false
slot_expired (c ∷ cs) (d ∷ ds) = is_past (slot_range_minute (c ∷ cs)) (parse_plan_minute (d ∷ ds))

pub slot_duration_minute : Text → Option ℕ
slot_duration_minute slot = elim (slot_range_minute slot) [
  | none ↦ none
  | some (s, e) ↦ some (e - s)
]

-- `%02d` of a number under 100.
abbrev pub two_digits : ℕ → Text
two_digits n = (48 + n / 10) ∷ (48 + n % 10) ∷ []

pub fmt_minute : ℕ → Text
fmt_minute m = let day = m % 1440 in two_digits (day / 60) ++ colon ∷ two_digits (day % 60)
