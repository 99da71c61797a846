-- ===== src/Strategic/Revision.antt =====
-- agenttown-mcp/cmd/agenttown-mcp/strategic.go and strategic_replan.go: a plan as text, and the revision of a
-- day that keeps the slots that are over.
pub mod Roundtrip
use smart_npc.Prelude.{
  ℕ, suc, ◌+◌, Bool, true, false, Option, none, some, List, [], ◌∷◌, ◌++◌, ◌&&◌,
}
use smart_npc.Prelude.Tests.{leb, ◌==◌, if◌then◌else◌}
use smart_npc.Prelude.Lists.{length}
use smart_npc.Slots.{
  Text, colon, trim_space, split_plan_range, slot_range_minute, parse_plan_minute,
}
use smart_npc.Strategic.{DailyPlanItem}

abbrev pub newline : ℕ
newline = 10

abbrev pub space : ℕ
space = 32

abbrev pub line_of : DailyPlanItem → Text
line_of it = it.time ++ (colon ∷ space ∷ it.goal)

-- `formatDailyPlan`; the newline after the last line is trimmed.
pub format_daily_plan : List DailyPlanItem → Text
format_daily_plan [] = []
format_daily_plan (it ∷ []) = line_of it
format_daily_plan (it ∷ next ∷ its) = line_of it ++ (newline ∷ format_daily_plan (next ∷ its))

-- `strings.Split(s, "\n")`
abbrev pub cons_first : ℕ → List Text → List Text
cons_first c [] = (c ∷ []) ∷ []
cons_first c (l ∷ ls) = (c ∷ l) ∷ ls

pub split_lines : Text → List Text
split_lines [] = [] ∷ []
split_lines (c ∷ cs) =
    let rest = split_lines cs in if c == newline then [] ∷ rest else cons_first c rest

-- The parts of a line before and after its first ": ".
abbrev pub cons_label : ℕ → Option (Text × Text) → Option (Text × Text)
cons_label c none = none
cons_label c (some (a, b)) = some (c ∷ a, b)

pub split_label : Text → Option (Text × Text)
split_label [] = none
split_label (c ∷ []) = none
split_label (c ∷ d ∷ cs) =
    let rest = cons_label c (split_label (d ∷ cs)) in
    if c == colon && d == space then some ([], cs) else rest

abbrev pub item_of : Text → Text → Option (ℕ × ℕ) → Option DailyPlanItem
item_of time goal none = none
item_of time goal (some r) = some (record { time = time; goal = goal })

abbrev pub labelled : Option (Text × Text) → Option DailyPlanItem
labelled none = none
labelled (some (time, goal)) = item_of time goal (split_plan_range time)

-- One line; an empty one has no label, and is skipped like any other without one.
unfoldable pub parse_line : Text → Option DailyPlanItem
unfolding split_label
parse_line line = labelled (split_label (trim_space line))

abbrev pub cons_some : Option DailyPlanItem → List DailyPlanItem → List DailyPlanItem
cons_some none its = its
cons_some (some it) its = it ∷ its

pub parse_lines : List Text → List DailyPlanItem
parse_lines [] = []
parse_lines (l ∷ ls) = cons_some (parse_line l) (parse_lines ls)

-- `parseFormattedPlan`
unfoldable pub parse_formatted_plan : Text → List DailyPlanItem
unfolding parse_lines split_lines
parse_formatted_plan s = parse_lines (split_lines s)

abbrev pub is_over : ℕ → Option (ℕ × ℕ) → Bool
is_over cur none = false
is_over cur (some (start, end)) = leb end cur

pub over_items : ℕ → List DailyPlanItem → List DailyPlanItem
over_items cur [] = []
over_items cur (it ∷ its) =
    let rest = over_items cur its in
    if is_over cur (slot_range_minute it.time) then it ∷ rest else rest

-- `pastSlots`
unfoldable pub past_slots : Text → Text → List DailyPlanItem
unfolding over_items
past_slots old_plan time_of_day = elim (parse_plan_minute time_of_day) [
  | none ↦ []
  | some cur ↦ over_items cur (parse_formatted_plan old_plan)
]

-- `mergeRemainder`
abbrev pub before : List DailyPlanItem → Text → Text
before [] new_plan = new_plan
before (it ∷ its) new_plan = format_daily_plan (it ∷ its) ++ (newline ∷ new_plan)

unfoldable pub merge_remainder : Text → Text → Text → Text
merge_remainder old_plan new_plan time_of_day = before (past_slots old_plan time_of_day) new_plan

-- `countPastSlots`
unfoldable pub count_past_slots : Text → Text → ℕ
count_past_slots old_plan time_of_day = length (past_slots old_plan time_of_day)
