-- ===== src/Strategic.antt =====
-- agenttown-mcp/cmd/agenttown-mcp/strategic.go and strategic_replan.go: the plan of a day, as the strategic
-- layer makes it from the answer of the language model. A text is the list of its code points.
pub mod Lines
pub mod Steps
pub mod Jitter
pub mod Cover
pub mod WholeDay
pub mod Revision
pub mod Night
use smart_npc.Prelude.{
  ℕ, ◌+◌, ◌-◌, ◌*◌, Bool, true, false, Option, none, some, List, [], ◌∷◌, ◌++◌, ◌&&◌, ◌||◌, not,
}
use smart_npc.Prelude.Tests.{ltb, leb, ◌==◌, if◌then◌else◌}
use smart_npc.Slots.{Text, dash, split_plan_range, parse_plan_minute, fmt_minute}

-- `dailyPlanItem`
pub record DailyPlanItem : Type 0 where
  pub time : Text
  pub goal : Text

abbrev pub day_start_minute : ℕ
day_start_minute = 420

abbrev pub day_end_minute : ℕ
day_end_minute = 1800

abbrev pub night_start : ℕ
night_start = 1320

-- `==` of texts.
pub text_eq : Text → Text → Bool
text_eq [] [] = true
text_eq [] (d ∷ ds) = false
text_eq (c ∷ cs) [] = false
text_eq (c ∷ cs) (d ∷ ds) = c == d && text_eq cs ds

-- `FmtMinute(s) + "-" + FmtMinute(e)`
unfoldable pub range_text : ℕ → ℕ → Text
range_text s e = fmt_minute s ++ dash ∷ fmt_minute e

-- The start and the end of a slot, 0 where it cannot be parsed.
abbrev pub or_zero : Option (ℕ × ℕ) → ℕ × ℕ
or_zero none = (0, 0)
or_zero (some r) = r

abbrev pub range_of : DailyPlanItem → ℕ × ℕ
range_of it = or_zero (split_plan_range it.time)

abbrev pub start_of : DailyPlanItem → ℕ
start_of it = (range_of it).0

abbrev pub end_of : DailyPlanItem → ℕ
end_of it = (range_of it).1

abbrev pub with_range : ℕ → ℕ → DailyPlanItem → DailyPlanItem
with_range s e it = record it { time = range_text s e }

-- Step 1: slots that cannot be parsed, and those of no length, are dropped.
abbrev pub is_proper : Option (ℕ × ℕ) → Bool
is_proper none = false
is_proper (some (start, end)) = not (start == end)

unfoldable pub valid_items : List DailyPlanItem → List DailyPlanItem
valid_items [] = []
valid_items (it ∷ its) =
    let rest = valid_items its in if is_proper (split_plan_range it.time) then it ∷ rest else rest

-- Step 2: `sort.Slice` by the start; equal starts keep their order, as Go's sort of up to 12 does.
pub insert_by_start : DailyPlanItem → List DailyPlanItem → List DailyPlanItem
insert_by_start it [] = it ∷ []
insert_by_start it (d ∷ ds) =
    let rest = insert_by_start it ds in
    if ltb (start_of d) (start_of it) then d ∷ rest else it ∷ d ∷ ds

pub sort_by_start : List DailyPlanItem → List DailyPlanItem
sort_by_start [] = []
sort_by_start (it ∷ its) = insert_by_start it (sort_by_start its)

-- Step 2.5: neighbours of the same goal become one; `last` is the one merged so far.
pub merge_same_goal : DailyPlanItem → List DailyPlanItem → List DailyPlanItem
merge_same_goal last [] = last ∷ []
merge_same_goal last (it ∷ its) =
    let joined = merge_same_goal (with_range (start_of last) (end_of it) last) its in
    let apart = last ∷ merge_same_goal it its in if text_eq last.goal it.goal then joined else apart

-- Step 3: the first slot starts at `start_minute` at the latest.
abbrev pub first_of : ℕ → Option (ℕ × ℕ) → DailyPlanItem → DailyPlanItem
first_of start_minute none it = it
first_of start_minute (some (s, e)) it =
    if ltb start_minute s then with_range start_minute e it else it

unfoldable pub extend_first : ℕ → DailyPlanItem → DailyPlanItem
extend_first start_minute it = first_of start_minute (split_plan_range it.time) it

-- Step 4: a slot that ends before the next starts is extended to it.
abbrev pub fill_gap : DailyPlanItem → DailyPlanItem → DailyPlanItem
fill_gap it next =
    if ltb 0 (end_of it) && ltb (end_of it) (start_of next)
    then with_range (start_of it) (start_of next) it
    else it

pub fill_gaps : DailyPlanItem → List DailyPlanItem → List DailyPlanItem
fill_gaps it [] = it ∷ []
fill_gaps it (next ∷ its) = fill_gap it next ∷ fill_gaps next its

-- Step 5, on the last slot.
abbrev pub extend_to : ℕ → ℕ → DailyPlanItem → DailyPlanItem
extend_to s e it =
    if ltb s e
    then if ltb e night_start
      then with_range s night_start it
      else if ltb e day_end_minute
      then with_range s day_end_minute it
      else it
    else it

abbrev pub extend_of : Option (ℕ × ℕ) → DailyPlanItem → DailyPlanItem
extend_of none it = it
extend_of (some (s, e)) it = extend_to s e it

abbrev pub extend_last : DailyPlanItem → DailyPlanItem
extend_last it = extend_of (split_plan_range it.time) it

pub map_last : (DailyPlanItem → DailyPlanItem) → List DailyPlanItem → List DailyPlanItem
map_last f [] = []
map_last f (it ∷ []) = f it ∷ []
map_last f (it ∷ next ∷ its) = it ∷ map_last f (next ∷ its)

-- `clampNightEnd`, on the last slot.
abbrev pub clamp_to : ℕ → ℕ → DailyPlanItem → DailyPlanItem
clamp_to s e it =
    if ltb s e || leb (day_end_minute - 1440) e then it else with_range s (day_end_minute - 1440) it

abbrev pub clamp_of : Option (ℕ × ℕ) → DailyPlanItem → DailyPlanItem
clamp_of none it = it
clamp_of (some (s, e)) it = clamp_to s e it

abbrev pub clamp_last : DailyPlanItem → DailyPlanItem
clamp_last it = clamp_of (split_plan_range it.time) it

unfoldable pub clamp_night_end : List DailyPlanItem → List DailyPlanItem
clamp_night_end items = map_last clamp_last items

-- Steps 3 to 5.
pub finish_plan : ℕ → List DailyPlanItem → List DailyPlanItem
finish_plan start_minute [] = []
finish_plan start_minute (first ∷ rest) =
    clamp_night_end (map_last extend_last (fill_gaps (extend_first start_minute first) rest))

-- Steps 2.5 to 5.
abbrev pub normalize_sorted : ℕ → List DailyPlanItem → List DailyPlanItem
normalize_sorted start_minute [] = []
normalize_sorted start_minute (it ∷ its) = finish_plan start_minute (merge_same_goal it its)

-- `normalizeDailyPlan`
pub normalize_daily_plan : List DailyPlanItem → ℕ → List DailyPlanItem
normalize_daily_plan items start_minute =
    normalize_sorted start_minute (sort_by_start (valid_items items))

-- `matchPlanSlot`; `none` is the empty text.
abbrev pub is_in_slot : ℕ → Option (ℕ × ℕ) → Bool
is_in_slot cur none = false
is_in_slot cur (some (start, end)) =
    if leb end start
    then leb start cur || (ltb cur end && ltb cur day_start_minute)
    else leb start cur && ltb cur end

pub match_minute : List DailyPlanItem → ℕ → Option Text
match_minute [] cur = none
match_minute (it ∷ its) cur =
    let rest = match_minute its cur in
    if is_in_slot cur (split_plan_range it.time) then some it.time else rest

unfoldable pub match_plan_slot : List DailyPlanItem → Text → Option Text
match_plan_slot items time_of_day = elim (parse_plan_minute time_of_day) [
  | none ↦ none
  | some cur ↦ match_minute items cur
]
