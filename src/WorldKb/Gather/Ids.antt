-- ===== src/WorldKb/Gather/Ids.antt =====
-- What the loop over a section of the generated document gathers.
use smart_npc.Prelude.{
  String, true, false, ◌||◌, ◌≡◌, refl, sym, ap, ◌∙◌, ◌⊎◌, inl, inr, some, List, [], ◌∷◌, ◌++◌, map,
  str_eq, eq_iff, arith,
}
use mathlib.Core.Path.{subst}
use mathlib.Core.List.{append-nil, append_assoc, map-append}
use smart_npc.Prelude.Tests.{Bool-cases}
use smart_npc.Prelude.Lists.{All}
use smart_npc.Prelude.StringSet.{contains}
use smart_npc.WorldKb.Json.{Items, nil, cons, Fields, get}
use smart_npc.WorldKb.Entities.{text_of}
use smart_npc.WorldKb.Gather.Turn.{
  id_of, generated_ids, merge_entities-cons, KeepsIds, overlay_keeps_id, matched_by_turn,
}
use smart_npc.WorldKb.Gather.{Section, done, Gathered, Kind, merge_entities, check_dangling}

-- The check after a loop passes only where each authored key was found.
pub check_dangling-done :
    (s : Section) (ids found : List String) {u : Unit {0}} (j : String)
    → check_dangling s ids found ≡ done u
    → contains j ids ≡ true
    → contains j found ≡ true
unfolding check_dangling
check_dangling-done s [] found j h c = cc
check_dangling-done s (id ∷ ids) found {u} j h c = elim (Bool-cases (contains id found)) [
  | inl known ↦ elim (Bool-cases (str_eq id j)) [
    | inl same ↦ subst (λ (k : String). contains k found ≡ true) ((eq_iff id j).0 same) known
    | inr other ↦
        check_dangling-done s ids found {u = u} j (ground (arith, h, known))
          (ground (arith, c, other))
  ]
  | inr unknown ↦ absurd (ground (arith, h, unknown))
]

abbrev pub NoRepeat : List String → Type 0
NoRepeat [] = Unit
NoRepeat (x ∷ xs) = (contains x xs ≡ false) × NoRepeat xs

not_among :
    (id : String) (ids xs : List String)
    → All (λ x. contains x (id ∷ ids) ≡ false) xs
    → contains id xs ≡ false
not_among id ids [] h = refl
not_among id ids (x ∷ xs) h = ground (arith, h.0, not_among id ids xs h.1, eq_iff x id, eq_iff id x)

older :
    (id : String) (ids xs : List String)
    → All (λ x. contains x (id ∷ ids) ≡ false) xs
    → All (λ x. contains x ids ≡ false) xs
older id ids [] h = tt
older id ids (x ∷ xs) h = (ground (arith, h.0), older id ids xs h.1)

module _ {F E : Type 0} where
  -- The index holds the generated ids.
  pub contains-by_id :
      (k : Kind F E) (vs : Items F) (g g' : Gathered E) (j : String)
      → merge_entities k vs g ≡ done g'
      → contains j g'.by_id ≡ (contains j (generated_ids vs) || contains j g.by_id)
  unfolding merge_entities
  contains-by_id k nil g g' j h = ground arith
  contains-by_id k (cons v vs) g g' j h =
      let (g1, t, rest) = merge_entities-cons k v vs g g' h in
      contains-by_id k vs g1 g' j rest ∙ rw (t.by_id) (ground (arith, eq_iff (id_of v) j))

  -- No id stands twice, and none that the index held before.
  pub fresh_ids :
      (k : Kind F E) (vs : Items F) (g g' : Gathered E)
      → merge_entities k vs g ≡ done g'
      → NoRepeat (generated_ids vs) × All (λ id. contains id g.by_id ≡ false) (generated_ids vs)
  unfolding merge_entities
  fresh_ids k nil g g' h = (tt, tt)
  fresh_ids k (cons v vs) g g' h =
      let (g1, t, rest) = merge_entities-cons k v vs g g' h in
      let (once, new) = fresh_ids k vs g1 g' rest in
      let new' : All (λ id. contains id (id_of v ∷ g.by_id) ≡ false) (generated_ids vs) =
        subst (λ (w : List String). All (λ id. contains id w ≡ false) (generated_ids vs)) (t.by_id)
          new in
      (
        (not_among (id_of v) g.by_id (generated_ids vs) new', once),
        (t.fresh, older (id_of v) g.by_id (generated_ids vs) new'),
      )

  -- The entities carry the ids of the generated document, in its order, where no overlay names an
  -- id of its own.
  pub entity_ids :
      (k : Kind F E) (name : E → String) (vs : Items F) (g g' : Gathered E)
      → KeepsIds k
      → ((m : Fields F) (e : E) → k.project m ≡ some e → name e ≡ text_of (get "id" m))
      → merge_entities k vs g ≡ done g'
      → map name g'.entities ≡ map name g.entities ++ generated_ids vs
  unfolding merge_entities
  entity_ids k name nil g g' keeps named h =
      let same : g ≡ g' = ground (arith, h) in rw (← same) (sym (append-nil _))
  entity_ids k name (cons v vs) g g' keeps named h =
      let (g1, t, rest) = merge_entities-cons k v vs g g' h in
      let named_v : name t.entity ≡ id_of v =
        named t.merged t.entity t.projected
        ∙ ap text_of (overlay_keeps_id k (id_of v) t.document t.merged t.key keeps t.overlaid)
        ∙ sym (ap id_of t.is_object) in
      entity_ids k name vs g1 g' keeps named rest
      ∙ rw (t.entities) (simp (map-append, append_assoc, named_v))

  -- The matched keys are those that some generated entity took.
  pub matched_by_generated :
      (k : Kind F E) (vs : Items F) (g g' : Gathered E) (j : String)
      → merge_entities k vs g ≡ done g'
      → contains j g'.matched ≡ true
      → (contains j g.matched ≡ true)
        ⊎ ((id : String) × (contains id (generated_ids vs) ≡ true) × (k.authored_key id ≡ some j))
  unfolding merge_entities
  matched_by_generated k nil g g' j h c = inl (ground arith)
  matched_by_generated k (cons v vs) g g' j h c =
      let (g1, t, rest) = merge_entities-cons k v vs g g' h in
      elim (matched_by_generated k vs g1 g' j rest c) [
        | inl m ↦ elim (matched_by_turn k v g g1 j t m) [
          | inl before ↦ inl before
          | inr e ↦ inr (id_of v, ground (arith, eq_iff (id_of v) (id_of v)), e)
        ]
        | inr (id, among, e) ↦ inr (id, ground (arith, among), e)
      ]
