-- ===== src/WorldKb/Gather/Turn.antt =====
-- One turn of the loop over a section of the generated document.
use smart_npc.Prelude.{
  String, true, false, ◌≡◌, refl, ap, ◌∙◌, ◌⊎◌, inl, inr, Option, none, some, List, [], ◌∷◌, ◌++◌,
  str_eq, eq_iff, arith,
}
use smart_npc.Prelude.Tests.{Bool-cases, Option-cases}
use smart_npc.Prelude.StringSet.{contains}
use smart_npc.WorldKb.Json.Overlay.{Distinct, lookup-deep_merge_maps}
use smart_npc.WorldKb.Json.{
  Value, null, flag, num, text, arr, obj, texts, nums, Items, nil, cons, Fields, lookup, or_nil,
  get, deep_merge_maps,
}
use smart_npc.WorldKb.Entities.{text_of}
use smart_npc.WorldKb.Gather.{
  MergeError, Outcome, done, refused, Gathered, Kind, overlay_entity, merge_entity, merge_entities,
}

pub Outcome-cases :
    {A : Type 0} (r : Outcome A) → ((a : A) × (r ≡ done a)) ⊎ ((e : MergeError) × (r ≡ refused e))
Outcome-cases (done a) = inl (a, refl)
Outcome-cases (refused e) = inr (e, refl)

-- The ids of the entities of a generated section.
module _ {F : Type 0} where
  abbrev pub id_of : Value F → String
  id_of (obj m) = text_of (get "id" m)
  id_of _ = ""

  abbrev pub generated_ids : Items F → List String
  generated_ids nil = []
  generated_ids (cons v vs) = id_of v ∷ generated_ids vs

-- No overlay has an id of its own.
module _ {F E : Type 0} where
  abbrev pub KeepsIds : Kind F E → Type 0
  KeepsIds k =
      (contains "id" k.protected ≡ false)
      × ((key : String) (a : Fields F)
          → lookup key k.authored ≡ some (obj a)
          → Distinct (k.shim a) × (lookup "id" (k.shim a) ≡ none))

  -- What a turn of the loop that succeeds did.
  pub record Took (k : Kind F E) (v : Value F) (g g' : Gathered E) : Type 0 where
    pub document : Fields F
    pub merged : Fields F
    pub key : Option String
    pub entity : E
    pub is_object : v ≡ obj document
    pub fresh : contains (id_of v) g.by_id ≡ false
    pub overlaid : overlay_entity k (id_of v) document ≡ done (merged, key)
    pub projected : k.project merged ≡ some entity
    pub entities : g'.entities ≡ g.entities ++ entity ∷ []
    pub by_id : g'.by_id ≡ id_of v ∷ g.by_id
    pub matched : g'.matched ≡ elim key [ none ↦ g.matched | some j ↦ j ∷ g.matched ]

  merge_entity-Took_keyed :
      (k : Kind F E) (m : Fields F) (g g' : Gathered E) (merged : Fields F) (key : Option String)
      (e : E)
      → merge_entity k (obj m) g ≡ done g'
      → overlay_entity k (text_of (get "id" m)) m ≡ done (merged, key)
      → k.project merged ≡ some e
      → Took k (obj m) g g'
  unfolding merge_entity
  merge_entity-Took_keyed k m g g' merged none e h o p = record {
    document = m;
    merged = merged;
    key = none;
    entity = e;
    is_object = refl;
    fresh = ground arith;
    overlaid = o;
    projected = p;
    entities = ground arith;
    by_id = ground arith;
    matched = ground arith;
  }
  merge_entity-Took_keyed k m g g' merged (some j) e h o p = record {
    document = m;
    merged = merged;
    key = some j;
    entity = e;
    is_object = refl;
    fresh = ground arith;
    overlaid = o;
    projected = p;
    entities = ground arith;
    by_id = ground arith;
    matched = ground arith;
  }

  pub merge_entity-Took :
      (k : Kind F E) (v : Value F) (g g' : Gathered E)
      → merge_entity k v g ≡ done g'
      → Took k v g g'
  unfolding merge_entity
  merge_entity-Took k (obj m) g g' h =
      elim (Outcome-cases (overlay_entity k (text_of (get "id" m)) m)) [
        | inl o ↦ elim (Option-cases (k.project o.0.0)) [
          | inr p ↦ merge_entity-Took_keyed k m g g' o.0.0 o.0.1 p.0 h o.1 p.1
          | inl p ↦ absurd (ground (arith, o.1))
        ]
        | inr o ↦ absurd (ground (arith, o.1))
      ]
  merge_entity-Took k null g g' h = cc
  merge_entity-Took k (flag b) g g' h = cc
  merge_entity-Took k (num b) g g' h = cc
  merge_entity-Took k (text b) g g' h = cc
  merge_entity-Took k (arr b) g g' h = cc
  merge_entity-Took k (texts b) g g' h = cc
  merge_entity-Took k (nums b) g g' h = cc

  -- A loop that succeeds, taken apart: its first turn and the rest.
  pub merge_entities-cons :
      (k : Kind F E) (v : Value F) (vs : Items F) (g g' : Gathered E)
      → merge_entities k (cons v vs) g ≡ done g'
      → (g1 : Gathered E) × Took k v g g1 × (merge_entities k vs g1 ≡ done g')
  unfolding merge_entities
  merge_entities-cons k v vs g g' h = elim (Outcome-cases (merge_entity k v g)) [
    | inl r ↦ (r.0, merge_entity-Took k v g r.0 r.1, cc (r.1))
    | inr r ↦ absurd (ground (arith, r.1))
  ]

  merge_keeps_id :
      (k : Kind F E) (m a : Fields F) (key : String)
      → KeepsIds k
      → lookup key k.authored ≡ some (obj a)
      → get "id" (deep_merge_maps m (k.shim a) k.protected) ≡ get "id" m
  unfolding get
  merge_keeps_id k m a key keeps e =
      let (distinct, unnamed) = keeps.1 key a e in
      ap or_nil {y = lookup "id" m}
        (lookup-deep_merge_maps m (k.shim a) k.protected "id" distinct ∙ rw (keeps.0, unnamed) refl)

  overlay_value_keeps_id :
      (k : Kind F E) (id : String) (m merged : Fields F) (key : Option String) (j : String)
      (v : Value F)
      → KeepsIds k
      → k.authored_key id ≡ some j
      → lookup j k.authored ≡ some v
      → overlay_entity k id m ≡ done (merged, key)
      → get "id" merged ≡ get "id" m
  unfolding overlay_entity
  overlay_value_keeps_id k id m merged key j (obj a) keeps e l h =
      let same : deep_merge_maps m (k.shim a) k.protected ≡ merged = ground (arith, h, e, l) in
      rw (← same) (merge_keeps_id k m a j keeps l)
  overlay_value_keeps_id k id m merged key j v keeps e l h = absurd (ground (arith, h, e, l))

  pub overlay_keeps_id :
      (k : Kind F E) (id : String) (m merged : Fields F) (key : Option String)
      → KeepsIds k
      → overlay_entity k id m ≡ done (merged, key)
      → get "id" merged ≡ get "id" m
  unfolding overlay_entity
  overlay_keeps_id k id m merged key keeps h = elim (Option-cases (k.authored_key id)) [
    | inl e ↦ ap (get "id") (ground (arith, h, e))
    | inr (j, e) ↦ elim (Option-cases (lookup j k.authored)) [
      | inl l ↦ ap (get "id") (ground (arith, h, e, l))
      | inr (v, l) ↦ overlay_value_keeps_id k id m merged key j v keeps e l h
    ]
  ]

  overlay_value_takes :
      (k : Kind F E) (id : String) (m merged : Fields F) (j j' : String) (v : Value F)
      → k.authored_key id ≡ some j'
      → lookup j' k.authored ≡ some v
      → overlay_entity k id m ≡ done (merged, some j)
      → k.authored_key id ≡ some j
  unfolding overlay_entity
  overlay_value_takes k id m merged j j' (obj a) e l h = ground (arith, h, e, l)
  overlay_value_takes k id m merged j j' v e l h = absurd (ground (arith, h, e, l))

  overlay_takes :
      (k : Kind F E) (id : String) (m merged : Fields F) (j : String)
      → overlay_entity k id m ≡ done (merged, some j)
      → k.authored_key id ≡ some j
  unfolding overlay_entity
  overlay_takes k id m merged j h = elim (Option-cases (k.authored_key id)) [
    | inl e ↦ absurd (ground (arith, h, e))
    | inr (j', e) ↦ elim (Option-cases (lookup j' k.authored)) [
      | inl l ↦ absurd (ground (arith, h, e, l))
      | inr (v, l) ↦ overlay_value_takes k id m merged j j' v e l h
    ]
  ]

  pub matched_by_turn :
      (k : Kind F E) (v : Value F) (g g1 : Gathered E) (j : String)
      → Took k v g g1
      → contains j g1.matched ≡ true
      → (contains j g.matched ≡ true) ⊎ (k.authored_key (id_of v) ≡ some j)
  matched_by_turn k v g g1 j t c = elim (Option-cases t.key) [
    | inl n ↦ inl (ground (arith, n, t.matched))
    | inr (j', e) ↦ elim (Bool-cases (str_eq j' j)) [
      | inl same ↦ inr (
          overlay_takes k (id_of v) t.document t.merged j
            (t.overlaid ∙ ground (arith, e, same, eq_iff j' j)))
      | inr other ↦ inl (ground (arith, t.matched, e, other))
    ]
  ]
