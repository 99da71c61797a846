-- ===== src/AgentState/Situations/Expiry.antt =====
-- `ActiveSituations` and `FilterSituations`.
use smart_npc.Prelude.{◌≡◌, refl, false, List, [], ◌∷◌, ◌++◌, arith, ap, ◌∙◌}
use smart_npc.Prelude.Lists.{All}
use smart_npc.Float64.{Float64}
use smart_npc.AgentState.Situations.{
  ActiveSituation, is_expired, filter_situations, active_situations,
}

module _ {F : Type 0} ⦃fl : Float64 F⦄ where
  filter-All :
      (now ttl : F) (ss : List (ActiveSituation F))
      → All (λ s. is_expired now ttl s ≡ false) (filter_situations ss now ttl)
  unfolding filter_situations
  filter-All now ttl [] = tt
  filter-All now ttl (s ∷ ss) = ground (arith, filter-All now ttl ss)

  filter_of_All :
      (now ttl : F) (ss : List (ActiveSituation F))
      → All (λ s. is_expired now ttl s ≡ false) ss
      → filter_situations ss now ttl ≡ ss
  unfolding filter_situations
  filter_of_All now ttl [] h = refl
  filter_of_All now ttl (s ∷ ss) h = ground (arith, filter_of_All now ttl ss h.1)

  filter-append :
      (now ttl : F) (xs ys : List (ActiveSituation F))
      → filter_situations (xs ++ ys) now ttl
        ≡ filter_situations xs now ttl ++ filter_situations ys now ttl
  unfolding filter_situations
  filter-append now ttl [] ys = refl
  filter-append now ttl (x ∷ xs) ys = ground (arith, filter-append now ttl xs ys)

  filter-cons :
      (now ttl : F) (ss : List (ActiveSituation F)) (s : ActiveSituation F)
      → is_expired now ttl s ≡ false
      → filter_situations (s ∷ ss) now ttl ≡ s ∷ filter_situations ss now ttl
  unfolding filter_situations
  filter-cons now ttl ss s kept = rw kept

  -- A read returns what it stores, which is what `FilterSituations` makes of a snapshot taken
  -- before; nothing of it is past its TTL, a second read at the same time changes nothing, and a
  -- situation that is not past its TTL stays between the same others.
  pub active_situations_lem :
      (now ttl : F) (before after : List (ActiveSituation F)) (s : ActiveSituation F)
      → is_expired now ttl s ≡ false
      → let (stored, live) = active_situations now ttl (before ++ s ∷ after) in
        (live ≡ filter_situations (before ++ s ∷ after) now ttl)
        × (stored ≡ live)
        × All (λ t. is_expired now ttl t ≡ false) live
        × ((active_situations now ttl stored).0 ≡ stored)
        × (live ≡ filter_situations before now ttl ++ s ∷ filter_situations after now ttl)
  unfolding active_situations
  active_situations_lem now ttl before after s kept = (
    refl,
    refl,
    filter-All now ttl (before ++ s ∷ after),
    filter_of_All now ttl _ (filter-All now ttl (before ++ s ∷ after)),
    filter-append now ttl before (s ∷ after)
        ∙ ap (λ l. filter_situations before now ttl ++ l) (filter-cons now ttl after s kept),
  )
