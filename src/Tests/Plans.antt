-- ===== src/Tests/Plans.antt =====
-- The plan of a day.
use smart_npc.Prelude.{ℕ, ◌≡◌, ◌≢◌, ◌<◌, none, List, [], ◌∷◌, refl, arith, ap}
use mathlib.Core.Path.{subst}
use smart_npc.Prelude.Lists.{All}
use smart_npc.Slots.{Text, trim_right, slot_range_minute}
use smart_npc.Strategic.{DailyPlanItem, range_text, normalize_daily_plan, valid_items, is_proper}
use smart_npc.Strategic.Lines.{Accepts, split_plan_range-range_text}
use smart_npc.Strategic.Steps.{InDay}
use smart_npc.Strategic.Cover.{Matches, normalize_daily_plan-Matches}
use smart_npc.Strategic.WholeDay.{written, whole_day_goal_is_degenerate}
use smart_npc.Strategic.Jitter.{shift_nodes}
use smart_npc.Strategic.Jitter.Spacing.{Spaced, WideApart, Near, shift_nodes_lem}
use smart_npc.Strategic.Revision.{format_daily_plan, parse_formatted_plan}
use smart_npc.Strategic.Revision.Roundtrip.{IsWritten, parse_formatted_plan-format_daily_plan}

abbrev work_goal : Text
work_goal = 119 ∷ []

abbrev eat_goal : Text
eat_goal = 101 ∷ []

-- Work from 08:00 to 12:00, and a meal from 13:00 to 14:00.
abbrev work_slot : DailyPlanItem
work_slot = written 480 720 work_goal

abbrev meal : DailyPlanItem
meal = written 780 840 eat_goal

abbrev plan : List DailyPlanItem
plan = work_slot ∷ meal ∷ []

accepts :
    (P : ℕ → ℕ → Type 0) (s e : ℕ) (goal : Text)
    → s < 1440
    → e < 1440
    → P s e
    → Accepts P (written s e goal)
accepts P s e goal h k p s' e' r apart =
    let same : (s ≡ s') × (e ≡ e') = ground (arith, split_plan_range-range_text s e h k, r) in
    subst (λ (n : ℕ). P n e') same.0 (subst (P s) same.1 p)

plan_is_kept : valid_items plan ≢ []
unfolding valid_items
plan_is_kept e =
    let proper = ap is_proper (split_plan_range-range_text 480 720 (omega arith) (omega arith)) in
    ground (arith, e, proper)

normalize_daily_plan-Matches_example : Matches 450 (normalize_daily_plan plan 420)
normalize_daily_plan-Matches_example =
    normalize_daily_plan-Matches plan 420 450
      (
        accepts InDay 480 720 work_goal (omega arith) (omega arith)
            (omega arith, omega arith, omega arith),
        (
          accepts InDay 780 840 eat_goal (omega arith) (omega arith)
              (omega arith, omega arith, omega arith),
          tt,
        ),
      )
      (omega arith) (omega arith) plan_is_kept (omega arith) (omega arith)

whole_day_goal_is_degenerate_example :
    (normalize_daily_plan (written 480 1320 work_goal ∷ written 1320 480 work_goal ∷ []) 480
      ≡ written 480 480 work_goal ∷ [])
    × (slot_range_minute (range_text 480 480) ≡ none)
whole_day_goal_is_degenerate_example =
    whole_day_goal_is_degenerate 480 1320 480 work_goal (omega arith) (omega arith) (omega arith)
      (omega arith)

-- Every draw goes to the far end.
abbrev far : ℕ → ℕ
far i = 30

shift_nodes_lem_example :
    Spaced 420 (shift_nodes far 15 420 (480 ∷ 720 ∷ []))
    × (WideApart 15 420 (480 ∷ 720 ∷ []) → All (Near 15) (shift_nodes far 15 420 (480 ∷ 720 ∷ [])))
shift_nodes_lem_example = shift_nodes_lem far 15 420 (480 ∷ 720 ∷ []) (λ k. omega arith)

work_slot-IsWritten : IsWritten work_slot
unfolding trim_right
work_slot-IsWritten = record {
  start = 480;
  end = 720;
  start_in_day = omega arith;
  end_in_day = omega arith;
  time = refl;
  one_line = (refl, tt);
  not_empty = λ e. cc;
  trimmed = refl;
}

meal-IsWritten : IsWritten meal
unfolding trim_right
meal-IsWritten = record {
  start = 780;
  end = 840;
  start_in_day = omega arith;
  end_in_day = omega arith;
  time = refl;
  one_line = (refl, tt);
  not_empty = λ e. cc;
  trimmed = refl;
}

parse_formatted_plan-format_daily_plan_example :
    parse_formatted_plan (format_daily_plan plan) ≡ plan
parse_formatted_plan-format_daily_plan_example =
    parse_formatted_plan-format_daily_plan plan (work_slot-IsWritten, (meal-IsWritten, tt))
