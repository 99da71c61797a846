-- ===== src/AgentState/Situations/Kinds.antt =====
-- `BeginSituation` and `EndSituation`, by kind.
use smart_npc.Prelude.{
  ◌⊎◌, String, ◌≡◌, refl, false, List, [], ◌∷◌, ◌++◌, str_eq, eq_iff, arith, ◌||◌,
}
use smart_npc.Prelude.Tests.{if◌then◌else◌}
use smart_npc.AgentState.Situations.{
  ActiveSituation, has_kind, begin_situation, remove_kind, end_situation,
}

module _ {F : Type 0} where
  -- No kind is active twice.
  abbrev pub IsUnique : List (ActiveSituation F) → Type 0
  IsUnique [] = Unit {0}
  IsUnique (s ∷ ss) = (has_kind s.kind ss ≡ false) × IsUnique ss

  has_kind-append :
      (kind : String) (xs ys : List (ActiveSituation F))
      → has_kind kind (xs ++ ys) ≡ (has_kind kind xs || has_kind kind ys)
  has_kind-append kind [] ys = refl
  has_kind-append kind (x ∷ xs) ys = ground (arith, has_kind-append kind xs ys)

  IsUnique-append :
      (s : ActiveSituation F) (ss : List (ActiveSituation F))
      → has_kind s.kind ss ≡ false
      → IsUnique ss
      → IsUnique (ss ++ s ∷ [])
  IsUnique-append s [] h u = (refl, tt)
  IsUnique-append s (x ∷ xs) h u = ground (
    arith,
    IsUnique-append s xs,
    has_kind-append x.kind xs (s ∷ []),
    eq_iff x.kind s.kind,
    eq_iff s.kind x.kind,
  )

  has_kind-remove_kind :
      (kind other : String) (ss : List (ActiveSituation F))
      → IsUnique ss
      → has_kind other (remove_kind kind ss)
        ≡ (if str_eq kind other then false else has_kind other ss)
  unfolding remove_kind
  has_kind-remove_kind kind other [] u = ground arith
  has_kind-remove_kind kind other (s ∷ ss) u = ground (
    arith,
    has_kind-remove_kind kind other ss u.1,
    eq_iff s.kind kind,
    eq_iff s.kind other,
    eq_iff kind other,
  )

  IsUnique-remove_kind :
      (kind : String) (ss : List (ActiveSituation F)) → IsUnique ss → IsUnique (remove_kind kind ss)
  unfolding remove_kind
  IsUnique-remove_kind kind [] u = tt
  IsUnique-remove_kind kind (s ∷ ss) u = ground (
    arith,
    IsUnique-remove_kind kind ss u.1,
    has_kind-remove_kind kind s.kind ss u.1,
    eq_iff kind s.kind,
  )

  -- Where no kind is active twice, `BeginSituation` keeps it so, makes its kind active, and leaves
  -- each other kind as it was; an active kind keeps the list, and so its earliest start.
  pub begin_situation_lem :
      (kind desc : String) (t : F) (ss : List (ActiveSituation F))
      → IsUnique ss
      → let ss' = begin_situation kind desc t ss in
        IsUnique ss'
        × ((other : String) → has_kind other ss' ≡ (str_eq kind other || has_kind other ss))
        × ((has_kind kind ss ≡ false) ⊎ (ss' ≡ ss))
  unfolding begin_situation
  begin_situation_lem kind desc t ss u =
      let s : ActiveSituation F = record { kind = kind; desc = desc; start_game_sec = t } in
      (
        ground (arith, IsUnique-append s ss),
        (λ other. ground (arith, has_kind-append other ss (s ∷ []), eq_iff kind other)),
        ground arith,
      )

  -- Where no kind is active twice, `EndSituation` reports whether its kind was active; afterwards
  -- the kind is not, each other kind is as it was, and still no kind is active twice.
  pub end_situation_lem :
      (kind : String) (ss : List (ActiveSituation F))
      → IsUnique ss
      → let (ss', was_active) = end_situation kind ss in
        IsUnique ss'
        × (was_active ≡ has_kind kind ss)
        × ((other : String)
            → has_kind other ss' ≡ (if str_eq kind other then false else has_kind other ss))
  unfolding end_situation
  end_situation_lem kind ss u = (
    ground (arith, IsUnique-remove_kind kind ss u),
    ground arith,
    (λ other. ground (arith, has_kind-remove_kind kind other ss u, eq_iff kind other)),
  )
