-- ===== src/AgentState/Throttle/Quota.antt =====
-- `TryBeginStrategicReplan` over a sequence of attempts.
use smart_npc.Prelude.{
  ℕ, suc, ◌+◌, ◌≤◌, ◌≡◌, refl, Bool, true, false, List, [], ◌∷◌, ◌⊎◌, inl, inr, map, arith, ◌∙◌,
}
use smart_npc.Prelude.Tests.{if◌then◌else◌, Bool-cases}
use smart_npc.Prelude.Lists.{All}
use smart_npc.Prelude.Int.{ℤ, eqb_ℤ}
use smart_npc.Float64.{Float64}
use smart_npc.AgentState.Throttle.{Throttle, is_too_soon, try_begin_strategic_replan}

abbrev pub count_granted : List Bool → ℕ
count_granted [] = 0
count_granted (true ∷ bs) = suc (count_granted bs)
count_granted (false ∷ bs) = count_granted bs

module _ {F : Type 0} ⦃fl : Float64 F⦄ (max_per_day : ℕ) (min_gap : F) where
  -- Attempts at a game time on a day, and which of them were granted.
  unfoldable pub attempts : Throttle F → List (F × ℤ) → Throttle F × List Bool
  attempts t [] = (t, [])
  attempts t ((now, day) ∷ later) =
      let (t', granted) = try_begin_strategic_replan now day max_per_day min_gap t in
      let rest = attempts t' later in (rest.0, granted ∷ rest.1)

module _ {F : Type 0} where
  -- The grants that the counter holds against a day.
  abbrev spent : ℤ → Throttle F → ℕ
  spent day t = if eqb_ℤ day t.strategic_replan_day then t.strategic_replan_count else 0

module _ {F : Type 0} ⦃fl : Float64 F⦄ (max_per_day : ℕ) (min_gap : F) where
  try_granted :
      (now : F) (day : ℤ) (t : Throttle F)
      → let (t', granted) = try_begin_strategic_replan now day max_per_day min_gap t in
        granted ≡ true
        → (spent day t' ≡ spent day t + 1)
          × (spent day t' ≤ max_per_day)
          × (t'.last_strategic_replan_gt ≡ now)
          × (is_too_soon now t.last_strategic_replan_gt min_gap ≡ false)
  unfolding try_begin_strategic_replan
  try_granted now day t h = ground arith

  try_refused :
      (now : F) (day : ℤ) (t : Throttle F)
      → let (t', granted) = try_begin_strategic_replan now day max_per_day min_gap t in
        granted ≡ false
        → (spent day t' ≡ spent day t) × (t'.last_strategic_replan_gt ≡ t.last_strategic_replan_gt)
  unfolding try_begin_strategic_replan
  try_refused now day t h = ground arith

  quota :
      (day : ℤ) (t : Throttle F) (nows : List F)
      → let granted = count_granted (attempts max_per_day min_gap t (map (λ n. (n, day)) nows)).1 in
        (granted ≡ 0) ⊎ (spent day t + granted ≤ max_per_day)
  unfolding attempts
  quota day t [] = inl refl
  quota day t (now ∷ nows) =
      let (t', granted) = try_begin_strategic_replan now day max_per_day min_gap t in
      let rest = quota day t' nows in
      elim (Bool-cases granted) [
        | inl e ↦ inr (rw e (omega (arith, try_granted now day t e, rest)))
        | inr e ↦ rw e (omega (arith, try_refused now day t e, rest))
      ]

  -- Whatever happened before, of the attempts made on one game day, at any times and however many,
  -- at most `max_per_day` are granted.
  pub at_most_max_per_day :
      (day : ℤ) (t : Throttle F) (nows : List F)
      → count_granted (attempts max_per_day min_gap t (map (λ n. (n, day)) nows)).1 ≤ max_per_day
  at_most_max_per_day day t nows = omega (arith, quota day t nows)

  last-refused :
      (t : Throttle F) (later : List (F × ℤ))
      → All (λ b. b ≡ false) (attempts max_per_day min_gap t later).1
      → (attempts max_per_day min_gap t later).0.last_strategic_replan_gt
        ≡ t.last_strategic_replan_gt
  unfolding attempts
  last-refused t [] h = refl
  last-refused t ((now, day) ∷ later) h =
      let (t', granted) = try_begin_strategic_replan now day max_per_day min_gap t in
      last-refused t' later h.1 ∙ (try_refused now day t h.0).1

  abbrev pub attempt : Throttle F → F × ℤ → Throttle F × Bool
  attempt t (now, day) = try_begin_strategic_replan now day max_per_day min_gap t

  -- Between two grants with only refusals in between, on whatever days, the game clock has not
  -- gone less than `min_gap`: the second attempt was not too soon after the first.
  pub grants_are_apart :
      (t : Throttle F) (first second : F × ℤ) (between : List (F × ℤ))
      → (attempt t first).1 ≡ true
      → All (λ b. b ≡ false) (attempts max_per_day min_gap (attempt t first).0 between).1
      → (attempt (attempts max_per_day min_gap (attempt t first).0 between).0 second).1 ≡ true
      → is_too_soon second.0 first.0 min_gap ≡ false
  grants_are_apart t first second between g r g' =
      let t₁ = (try_begin_strategic_replan first.0 first.1 max_per_day min_gap t).0 in
      let t₂ = (attempts max_per_day min_gap t₁ between).0 in
      rw (← (try_granted first.0 first.1 t g).2, ← last-refused t₁ between r)
        ((try_granted second.0 second.1 t₂ g').3)
