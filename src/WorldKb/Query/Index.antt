-- ===== src/WorldKb/Query/Index.antt =====
-- The index of the knowledge base finds each entity, and what a name stands for.
use smart_npc.Prelude.{
  String, true, false, ◌≡◌, refl, inl, inr, none, some, List, [], ◌∷◌, map, str_eq, eq_iff, arith,
}
use smart_npc.Prelude.Tests.{Option-cases}
use smart_npc.Prelude.Lists.{All}
use smart_npc.Prelude.StringSet.{contains}
use smart_npc.WorldKb.Entities.{Zone, Object, Agent}
use smart_npc.WorldKb.Gather.Ids.{NoRepeat}
use smart_npc.WorldKb.Merger.{Kb}
use smart_npc.WorldKb.Query.{
  index, resolve_target, found, failed, zone_kind, object_kind, agent_kind, unknown_target,
}

module _ {E : Type 0} (id_of : E → String) where
  -- An id has an entry exactly when an entity has it.
  index-none :
      (es : List E) (id : String) → index id_of es id ≡ none → contains id (map id_of es) ≡ false
  unfolding index
  index-none [] id h = refl
  index-none (e ∷ es) id h = elim (Option-cases (index id_of es id)) [
    | inl n ↦ ground (arith, index-none es id n, h, n)
    | inr (d, s) ↦ absurd (ground (arith, h, s))
  ]

  index-absent :
      (es : List E) (id : String) → contains id (map id_of es) ≡ false → index id_of es id ≡ none
  unfolding index
  index-absent [] id h = refl
  index-absent (e ∷ es) id h = rw (index-absent es id (ground (arith, h))) (ground (arith, h))

  -- Entries that a longer list keeps.
  index-cons :
      (e : E) (es ds : List E)
      → contains (id_of e) (map id_of es) ≡ false
      → All (λ d. index id_of es (id_of d) ≡ some d) ds
      → All (λ d. index id_of (e ∷ es) (id_of d) ≡ some d) ds
  unfolding index
  index-cons e es [] h a = tt
  index-cons e es (d ∷ ds) h a = (rw (a.0) refl, index-cons e es ds h a.1)

  pub index-finds :
      (es : List E) → NoRepeat (map id_of es) → All (λ e. index id_of es (id_of e) ≡ some e) es
  unfolding index
  index-finds [] h = tt
  index-finds (e ∷ es) h = (
    rw (index-absent es (id_of e) h.0) (ground (arith, eq_iff (id_of e) (id_of e))),
    index-cons e es es h.0 (index-finds es h.1),
  )

module _ {F : Type 0} (kb : Kb F) (desc : String) where
  abbrev pub zone_names : List String
  zone_names = map (λ (z : Zone F). z.id) kb.zone_list

  abbrev pub object_names : List String
  object_names = map (λ (o : Object F). o.id) kb.object_list

  abbrev pub agent_names : List String
  agent_names = map (λ (a : Agent F). a.id) kb.agent_list

  index-some :
      {E : Type 0} (id_of : E → String) (es : List E)
      → contains desc (map id_of es) ≡ true
      → (e : E) × (index id_of es desc ≡ some e)
  index-some id_of es h = elim (Option-cases (index id_of es desc)) [
    | inl n ↦ absurd (ground (arith, index-none id_of es desc n, h))
    | inr s ↦ s
  ]

  -- A name that is not empty stands for the zone of that id where there is one, else for the
  -- object, else for the agent, and is unknown only where there is none of them.
  pub resolve_target_lem :
      str_eq desc "" ≡ false
      → (contains desc zone_names ≡ true → resolve_target (some kb) desc ≡ found (desc, zone_kind))
        × (contains desc zone_names ≡ false
            → contains desc object_names ≡ true
            → resolve_target (some kb) desc ≡ found (desc, object_kind))
        × (contains desc zone_names ≡ false
            → contains desc object_names ≡ false
            → contains desc agent_names ≡ true
            → resolve_target (some kb) desc ≡ found (desc, agent_kind))
        × (contains desc zone_names ≡ false
            → contains desc object_names ≡ false
            → contains desc agent_names ≡ false
            → resolve_target (some kb) desc ≡ failed unknown_target)
  unfolding resolve_target
  resolve_target_lem named = (
    λ z. let (e, i) = index-some (λ (z : Zone F). z.id) kb.zone_list z in rw (named, i) refl,
    λ z o.
        let (e, i) = index-some (λ (o : Object F). o.id) kb.object_list o in
        rw (named, index-absent (λ (z : Zone F). z.id) kb.zone_list desc z, i) refl,
    λ z o a.
        let (e, i) = index-some (λ (a : Agent F). a.id) kb.agent_list a in
        rw
          (
            named,
            index-absent (λ (z : Zone F). z.id) kb.zone_list desc z,
            index-absent (λ (o : Object F). o.id) kb.object_list desc o,
            i,
          )
          refl,
    λ z o a.
        rw
          (
            named,
            index-absent (λ (z : Zone F). z.id) kb.zone_list desc z,
            index-absent (λ (o : Object F). o.id) kb.object_list desc o,
            index-absent (λ (a : Agent F). a.id) kb.agent_list desc a,
          )
          refl,
  )
