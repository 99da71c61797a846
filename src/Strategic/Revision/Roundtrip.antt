-- ===== src/Strategic/Revision/Roundtrip.antt =====
-- A plan that is written is read back, and a revision keeps what is over.
use smart_npc.Prelude.{
  ℕ, ◌<◌, ◌≡◌, ◌≢◌, refl, sym, ap, ◌∙◌, false, ◌&&◌, some, List, [], ◌∷◌, ◌++◌, arith,
}
use mathlib.Core.Path.{subst}
use smart_npc.Prelude.Tests.{◌==◌}
use smart_npc.Prelude.Lists.{All, All-append}
use smart_npc.Slots.{
  Text, colon, dash, is_space, trim_left, trim_right, trim_space, split_plan_range, fmt_minute,
}
use smart_npc.Slots.Clock.{IsSolid, IsSolid-fmt_minute}
use smart_npc.Strategic.{DailyPlanItem, range_text}
use smart_npc.Strategic.Lines.{split_plan_range-range_text}
use smart_npc.Strategic.Revision.{
  newline, space, line_of, format_daily_plan, split_lines, split_label, item_of, labelled,
  parse_line, parse_lines, parse_formatted_plan,
}

-- A slot as the normalization and the shift of the nodes write it, with a goal of one line that
-- neither is empty nor ends in a space.
pub record IsWritten (it : DailyPlanItem) : Type 0 where
  pub start : ℕ
  pub end : ℕ
  pub start_in_day : start < 1440
  pub end_in_day : end < 1440
  pub time : it.time ≡ range_text start end
  pub one_line : All (λ c. (c == newline) ≡ false) it.goal
  pub not_empty : it.goal ≢ []
  pub trimmed : trim_right it.goal ≡ it.goal

abbrev NoNewline : Text → Type 0
NoNewline = All λ c. (c == newline) ≡ false

split_lines-last : (a : Text) → NoNewline a → split_lines a ≡ a ∷ []
unfolding split_lines
split_lines-last [] h = refl
split_lines-last (c ∷ cs) h = rw (h.0, split_lines-last cs h.1) refl

split_lines-append :
    (a b : Text) → NoNewline a → split_lines (a ++ (newline ∷ b)) ≡ a ∷ split_lines b
unfolding split_lines
split_lines-append [] b h = refl
split_lines-append (c ∷ cs) b h = rw (h.0, split_lines-append cs b h.1) refl

-- No ": " within a text, and none where one follows.
abbrev NoLabel : Text → Type 0
NoLabel [] = Unit
NoLabel (c ∷ []) = Unit
NoLabel (c ∷ d ∷ cs) = ((c == colon && d == space) ≡ false) × NoLabel (d ∷ cs)

split_label-append : (a b : Text) → NoLabel a → split_label (a ++ (colon ∷ space ∷ b)) ≡ some (a, b)
unfolding split_label
split_label-append [] b h = refl
split_label-append (c ∷ []) b h = ground arith
split_label-append (c ∷ d ∷ cs) b h = rw (h.0, split_label-append (d ∷ cs) b h.1) refl

NoLabel-solid : (a : Text) → IsSolid a → NoLabel a
NoLabel-solid [] h = tt
NoLabel-solid (c ∷ []) h = tt
NoLabel-solid (c ∷ d ∷ cs) h = (ground (arith, h.1.0), NoLabel-solid (d ∷ cs) h.1)

NoNewline-solid : (a : Text) → IsSolid a → NoNewline a
NoNewline-solid [] h = tt
NoNewline-solid (c ∷ cs) h = (ground (arith, h.0), NoNewline-solid cs h.1)

IsSolid-range_text : (s e : ℕ) → IsSolid (range_text s e)
unfolding range_text
IsSolid-range_text s e =
    All-append (λ c. is_space c ≡ false) (fmt_minute s) (dash ∷ fmt_minute e) (IsSolid-fmt_minute s)
      (refl, IsSolid-fmt_minute e)

append-ne-nil : (a b : Text) → b ≢ [] → a ++ b ≢ []
append-ne-nil [] b h = h
append-ne-nil (c ∷ cs) b h = λ e. cc

range_text-ne-nil : (s e : ℕ) → range_text s e ≢ []
unfolding range_text
range_text-ne-nil s e = append-ne-nil (fmt_minute s) (dash ∷ fmt_minute e) (λ h. cc)

trim_left-append : (a b : Text) → IsSolid a → a ≢ [] → trim_left (a ++ b) ≡ a ++ b
unfolding trim_left
trim_left-append [] b h n = absurd (n refl)
trim_left-append (c ∷ cs) b h n = rw (h.0) refl

trim_right-cons : (c : ℕ) (s : Text) → trim_right s ≡ s → s ≢ [] → trim_right (c ∷ s) ≡ c ∷ s
unfolding trim_right
trim_right-cons c [] h n = absurd (n refl)
trim_right-cons c (d ∷ ds) h n = rw h refl

trim_right-append : (a b : Text) → trim_right b ≡ b → b ≢ [] → trim_right (a ++ b) ≡ a ++ b
trim_right-append [] b h n = h
trim_right-append (c ∷ cs) b h n =
    trim_right-cons c (cs ++ b) (trim_right-append cs b h n) (append-ne-nil cs b n)

trim_space-line :
    (a b : Text) → IsSolid a → a ≢ [] → trim_right b ≡ b → b ≢ [] → trim_space (a ++ b) ≡ a ++ b
trim_space-line a b h n t m = ap trim_right (trim_left-append a b h n) ∙ trim_right-append a b t m

module _ (it : DailyPlanItem) (w : IsWritten it) where
  time-IsSolid : IsSolid it.time
  time-IsSolid = subst IsSolid (sym w.time) (IsSolid-range_text w.start w.end)

  time-ne-nil : it.time ≢ []
  time-ne-nil = subst (λ (t : Text). t ≢ []) (sym w.time) (range_text-ne-nil w.start w.end)

  pub split_written : split_plan_range it.time ≡ some (w.start, w.end)
  split_written =
      ap split_plan_range w.time
      ∙ split_plan_range-range_text w.start w.end w.start_in_day w.end_in_day

  parse_line-line_of : parse_line (line_of it) ≡ some it
  unfolding parse_line
  parse_line-line_of =
      let goal = trim_right-cons space it.goal w.trimmed w.not_empty in
      let label = trim_right-cons colon (space ∷ it.goal) goal (λ h. cc) in
      ap (λ (l : Text). labelled (split_label l))
        (trim_space-line it.time (colon ∷ space ∷ it.goal) time-IsSolid time-ne-nil label (λ h. cc))
      ∙ ap labelled (split_label-append it.time it.goal (NoLabel-solid it.time time-IsSolid))
      ∙ ap (item_of it.time it.goal) split_written

  NoNewline-line_of : NoNewline (line_of it)
  NoNewline-line_of =
      All-append (λ c. (c == newline) ≡ false) it.time (colon ∷ space ∷ it.goal)
        (NoNewline-solid it.time time-IsSolid) (refl, (refl, w.one_line))

parse_lines-format :
    (its : List DailyPlanItem)
    → All IsWritten its
    → parse_lines (split_lines (format_daily_plan its)) ≡ its
unfolding parse_lines format_daily_plan split_lines parse_line split_label trim_left trim_right
parse_lines-format [] w = refl
parse_lines-format (it ∷ []) w =
    rw (split_lines-last (line_of it) (NoNewline-line_of it w.0), parse_line-line_of it w.0) refl
parse_lines-format (it ∷ next ∷ its) w =
    rw
      (
        split_lines-append (line_of it) (format_daily_plan (next ∷ its)) (NoNewline-line_of it w.0),
        parse_line-line_of it w.0,
        parse_lines-format (next ∷ its) w.1,
      )
      refl

-- A plan that is written as text is read back as it was, where every slot is one that is written,
-- with a goal of one line that is not empty and does not end in a space.
pub parse_formatted_plan-format_daily_plan :
    (its : List DailyPlanItem)
    → All IsWritten its
    → parse_formatted_plan (format_daily_plan its) ≡ its
unfolding parse_formatted_plan
parse_formatted_plan-format_daily_plan its w = parse_lines-format its w
