-- ===== src/WorldKb/Authored/Match.antt =====
-- `matchAuthoredObject` does not depend on the order in which Go iterates the authored map.
use Prim.Native.String.len
use Prim.Native.String.{len, ◌++◌, slice}
use package.text.Mathlib.TextEquality.{starts_with_iff}
use package.text.Mathlib.TextPositions.{len_utf8-pos, len-append, slice-append_left}
use package.text.Mathlib.TextLemmas.{append_cancel_right}
use mathlib.Core.Path.{subst}
use smart_npc.Prelude.{
  String, ℕ, zero, ◌+◌, ◌≤◌, ◌≡◌, refl, sym, ap, ◌∙◌, ◌⊎◌, inl, inr, true, false, not, ◌&&◌, List,
  [], ◌∷◌, str_eq, eq_iff, arith,
}
use smart_npc.Prelude.Tests.{if◌then◌else◌, Bool-cases, ltb}
use smart_npc.Prelude.StringSet.{contains}
use smart_npc.WorldKb.Authored.{has_group_prefix, match_group, match_authored_object}

group_slice :
    (id key : String) → has_group_prefix id key ≡ true → slice id zero (len key + 1) ≡ key ++ "-"
group_slice id key h =
    let (rest, e) = (starts_with_iff id (key ++ "-")).0 h in
    let l : len (key ++ "-") ≡ len key + 1 = len-append key "-" in
    subst (λ (s : String). slice s zero (len key + 1) ≡ key ++ "-") e
      (subst (λ (n : ℕ). slice ((key ++ "-") ++ rest) zero n ≡ key ++ "-") l
        (slice-append_left (key ++ "-") rest))

-- Two groups of one object that are equally long are the same.
group_unique :
    (id a b : String)
    → has_group_prefix id a ≡ true
    → has_group_prefix id b ≡ true
    → len a ≡ len b
    → a ≡ b
group_unique id a b ha hb e =
    append_cancel_right a b "-"
      (sym (group_slice id a ha) ∙ ap (λ (n : ℕ). slice id zero (n + 1)) e ∙ group_slice id b hb)

len-zero : (s : String) → len s ≤ 0 → s ≡ ""
len-zero String.[] h = refl
len-zero (String.◌∷◌ c s) h = absurd (omega (arith, (len_utf8-pos c).1, len.cons c s))

-- The longest group so far.
record Longest (ks : List String) (id best r : String) : Type 0 where
  from : (r ≡ best) ⊎ ((contains r ks ≡ true) × (has_group_prefix id r ≡ true))
  above : len best ≤ len r
  longest : (k : String) → contains k ks ≡ true → has_group_prefix id k ≡ true → len k ≤ len r

-- One more key, which became the best or did not.
abbrev Chosen : (k id best best' : String) → Type 0
Chosen k id best best' =
    ((best' ≡ k) × (has_group_prefix id k ≡ true) × (len best ≤ len k))
    ⊎ ((best' ≡ best) × (has_group_prefix id k ≡ true → len k ≤ len best))

chosen :
    (k id best : String)
    → Chosen k id best (if has_group_prefix id k && ltb (len best) (len k) then k else best)
chosen k id best = elim (Bool-cases (has_group_prefix id k)) [
  | inr p ↦ inr (rw p refl, λ q. cc)
  | inl p ↦ elim (Bool-cases (ltb (len best) (len k))) [
    | inl l ↦ inl (rw (p, l) refl, p, ground (arith, l))
    | inr l ↦ inr (rw (p, l) refl, λ q. ground (arith, l))
  ]
]

extend :
    (k : String) (ks : List String) (id best best' r : String)
    → Chosen k id best best'
    → Longest ks id best' r
    → Longest (k ∷ ks) id best r
extend k ks id best best' r (inl (e, p, l)) g = record {
  from = elim g.from [
    | inl same ↦ inr (
      ground (arith, same, e, eq_iff k r),
      subst (λ (s : String). has_group_prefix id s ≡ true) (sym (same ∙ e)) p,
    )
    | inr (c, q) ↦ inr (ground (arith, c), q)
  ];
  above = let l' : len best' ≡ len k = ap len e in omega (arith, g.above);
  longest = λ j c q. elim (Bool-cases (str_eq k j)) [
    | inl same ↦
        let l' : len best' ≡ len j = ap len (e ∙ (eq_iff k j).0 same) in omega (arith, g.above)
    | inr other ↦ g.longest j (ground (arith, c, other)) q
  ];
}
extend k ks id best best' r (inr (e, l)) g = record {
  from = elim g.from [ inl same ↦ inl (same ∙ e) | inr (c, q) ↦ inr (ground (arith, c), q) ];
  above = let l' : len best' ≡ len best = ap len e in omega (arith, g.above);
  longest = λ j c q. elim (Bool-cases (str_eq k j)) [
    | inl same ↦
        let kj : k ≡ j = (eq_iff k j).0 same in
        let short : len k ≤ len best =
          l (subst (λ (s : String). has_group_prefix id s ≡ true) (sym kj) q) in
        let l' : len best' ≡ len best = ap len e in
        let l'' : len k ≡ len j = ap len kj in omega (arith, g.above)
    | inr other ↦ g.longest j (ground (arith, c, other)) q
  ];
}

match_group-Longest :
    (ks : List String) (id best : String)
    → contains id ks ≡ false
    → Longest ks id best (match_group ks id best)
unfolding match_group
match_group-Longest [] id best h = record {
  from = inl refl;
  above = omega arith;
  longest = λ k c p. cc;
}
match_group-Longest (k ∷ ks) id best h =
    let best' = if has_group_prefix id k && ltb (len best) (len k) then k else best in
    let other : str_eq id k ≡ false = ground (arith, h, eq_iff id k, eq_iff k id) in
    let skips : (not (str_eq k "") && str_eq id k) ≡ false = ground (arith, other) in
    rw skips (
      extend k ks id best best' (match_group ks id best') (chosen k id best)
        (match_group-Longest ks id best' (ground (arith, h))))

module _ (xs ys : List String) (same : (k : String) → contains k xs ≡ contains k ys) where
  Longest-unique : (id r s : String) → Longest xs id "" r → Longest ys id "" s → r ≡ s
  Longest-unique id r s g h = agree g.from h.from
    where
      agree :
          (r ≡ "") ⊎ ((contains r xs ≡ true) × (has_group_prefix id r ≡ true))
          → (s ≡ "") ⊎ ((contains s ys ≡ true) × (has_group_prefix id s ≡ true))
          → r ≡ s
      agree (inl e) (inl e') = e ∙ sym e'
      agree (inl e) (inr (c, p)) =
          let l : len r ≡ 0 = ap len e in
          let m = g.longest s (same s ∙ c) p in e ∙ sym (len-zero s (omega (arith, m)))
      agree (inr (c, p)) (inl e) =
          let l : len s ≡ 0 = ap len e in
          let m = h.longest r (sym (same r) ∙ c) p in len-zero r (omega (arith, m)) ∙ sym e
      agree (inr (c, p)) (inr (c', p')) =
          let m = g.longest s (same s ∙ c') p' in
          let m' = h.longest r (sym (same r) ∙ c) p in
          group_unique id r s p p' (omega (arith, m, m'))

  -- Two lists of the same authored keys, in whatever order and however often each, give the same
  -- match for every generated id.
  pub match_authored_object-order :
      (id : String) → match_authored_object xs id ≡ match_authored_object ys id
  unfolding match_authored_object
  match_authored_object-order id = elim (Bool-cases (contains id ys)) [
    | inl exact ↦ rw (same id ∙ exact, exact) refl
    | inr none_exact ↦
        let agree =
          Longest-unique id (match_group xs id "") (match_group ys id "")
            (match_group-Longest xs id "" (same id ∙ none_exact))
            (match_group-Longest ys id "" none_exact) in
        rw (same id ∙ none_exact, none_exact, agree) refl
  ]
