-- ===== src/WorldKb/Merger/Documents.antt =====
-- What a merge of two documents that succeeds has checked and produced.
use mathlib.Core.Path.{subst}
use smart_npc.Prelude.{String, true, ◌≡◌, sym, ap, ◌∙◌, ◌⊎◌, inl, inr, some, List, [], map, arith}
use smart_npc.Prelude.StringSet.{contains}
use smart_npc.Prelude.Int.{ℤ}
use smart_npc.Float64.{Float64}
use smart_npc.WorldKb.Json.{Fields, Items, get, keys}
use smart_npc.WorldKb.Entities.{Zone, Object, Agent}
use smart_npc.WorldKb.Authored.{match_authored_object}
use smart_npc.WorldKb.Relations.{Relationship, items_of, fields_of, flatten_relationships}
use smart_npc.WorldKb.Gather.{
  Section, zones, objects, agents, MergeWarning, Outcome, done, refused, ◌>>=◌, Gathered,
  nothing_gathered, Kind, merge_entities, check_dangling,
}
use smart_npc.WorldKb.Gather.Turn.{Outcome-cases, generated_ids, KeepsIds}
use smart_npc.WorldKb.Gather.Ids.{
  check_dangling-done, NoRepeat, contains-by_id, fresh_ids, entity_ids, matched_by_generated,
}
use smart_npc.WorldKb.Projection.Spatial.{
  project_zone-ReadsZone, project_object-ReadsObject, project_agent-ReadsAgent,
}
use smart_npc.WorldKb.Merger.Sorting.{map-sort_by_id}
use smart_npc.WorldKb.Merger.{
  Kb, sort_by_id, zone_kind, object_kind, agent_kind, non_empty, merge_zones, merge_objects,
  merge_agents, assemble, merge_documents,
}

-- A section that was gathered, and the check after it.
gathered_and_checked :
    {E : Type 0} (m : Outcome (Gathered E)) (check : Gathered E → Outcome (Unit {0}))
    (g : Gathered E)
    → (do g ← m; _ ← check g; done g) ≡ done g
    → (m ≡ done g) × (check g ≡ done tt)
gathered_and_checked {E} (refused e) check g h = cc
gathered_and_checked {E} (done a) check g h = elim (Outcome-cases (check a)) [
  | inl (u, e) ↦
      let same : a ≡ g = ground (arith, e, h) in
      (ap done same, subst (λ (x : Gathered E). check x ≡ done tt) same e)
  | inr (x, e) ↦ absurd (ground (arith, e, h))
]

module _ {F : Type 0} ⦃fl : Float64 F⦄ (trunc : F → ℤ) (default_radius : F)
    (order : List String → List String) (gen auth : Fields F) where
  record Parts (kb : Kb F) (w : List MergeWarning) : Type 0 where
    zs : Gathered (Zone F)
    os : Gathered (Object F)
    as_ : Gathered (Agent F)
    rels : List Relationship
    zones_ok : merge_zones gen auth ≡ done zs
    objects_ok : merge_objects default_radius gen auth ≡ done os
    agents_ok : merge_agents gen auth ≡ done as_
    assembled : assemble gen auth zs os as_ rels ≡ (kb, w)

  merge_documents-Parts :
      (kb : Kb F) (w : List MergeWarning)
      → merge_documents trunc default_radius order gen auth ≡ done (kb, w)
      → Parts kb w
  unfolding merge_documents
  merge_documents-Parts kb w h = elim (Outcome-cases (merge_zones gen auth)) [
    | inl (zs, z) ↦ elim (Outcome-cases (merge_objects default_radius gen auth)) [
      | inl (os, o) ↦ elim (Outcome-cases (merge_agents gen auth)) [
        | inl (as_, a) ↦ elim (Outcome-cases (flatten_relationships trunc (order as_.by_id) auth)) [
          | inl (rels, r) ↦ record {
            zs = zs;
            os = os;
            as_ = as_;
            rels = rels;
            zones_ok = z;
            objects_ok = o;
            agents_ok = a;
            assembled = ground (arith, h, z, o, a, r);
          }
          | inr (e, r) ↦ absurd (ground (arith, h, z, o, a, r))
        ]
        | inr (e, a) ↦ absurd (ground (arith, h, z, o, a))
      ]
      | inr (e, o) ↦ absurd (ground (arith, h, z, o))
    ]
    | inr (e, z) ↦ absurd (ground (arith, h, z))
  ]

  abbrev pub zone_authored : Fields F
  zone_authored = fields_of (get "zones" auth)

  abbrev pub object_authored : Fields F
  object_authored = fields_of (get "objects" auth)

  abbrev pub agent_authored : Fields F
  agent_authored = fields_of (get "agents" auth)

  abbrev pub zone_ids : List String
  zone_ids = generated_ids (items_of (get "zones" gen))

  abbrev pub object_ids : List String
  object_ids = generated_ids (items_of (get "objects" gen))

  abbrev pub agent_ids : List String
  agent_ids = generated_ids (items_of (get "agents" gen))

  zones_gathered :
      (zs : Gathered (Zone F))
      → merge_zones gen auth ≡ done zs
      → (merge_entities
            (zone_kind zone_authored)
            (items_of (get "zones" gen))
            (nothing_gathered (Zone F))
          ≡ done zs)
        × (check_dangling zones (keys zone_authored) zs.by_id ≡ done tt)
  unfolding merge_zones
  zones_gathered zs h =
      gathered_and_checked _ (λ g. check_dangling zones (keys zone_authored) g.by_id) zs h

  objects_gathered :
      (os : Gathered (Object F))
      → merge_objects default_radius gen auth ≡ done os
      → (merge_entities
            (object_kind default_radius object_authored)
            (items_of (get "objects" gen))
            (nothing_gathered (Object F))
          ≡ done os)
        × (check_dangling objects (keys object_authored) os.matched ≡ done tt)
  unfolding merge_objects
  objects_gathered os h =
      gathered_and_checked _ (λ g. check_dangling objects (keys object_authored) g.matched) os h

  agents_gathered :
      (as_ : Gathered (Agent F))
      → merge_agents gen auth ≡ done as_
      → (merge_entities
            (agent_kind agent_authored)
            (items_of (get "agents" gen))
            (nothing_gathered (Agent F))
          ≡ done as_)
        × (check_dangling agents (keys agent_authored) as_.by_id ≡ done tt)
  unfolding merge_agents
  agents_gathered as_ h =
      gathered_and_checked _ (λ g. check_dangling agents (keys agent_authored) g.by_id) as_ h

  known :
      {E : Type 0} (k : Kind F E) (vs : Items F) (g : Gathered E) (s : Section) (ids : List String)
      (j : String)
      → merge_entities k vs (nothing_gathered E) ≡ done g
      → check_dangling s ids g.by_id ≡ done tt
      → contains j ids ≡ true
      → contains j (generated_ids vs) ≡ true
  known k vs g s ids j m c h =
      let found = check_dangling-done s ids g.by_id {u = tt} j c h in
      ground (arith, contains-by_id k vs (nothing_gathered _) g j m, found)

  -- A merge that succeeds has met every authored key: each authored zone and agent has a generated
  -- one of its id, and each authored object key is the match of some generated object.
  pub authored_ids_are_known :
      (kb : Kb F) (w : List MergeWarning) (j : String)
      → merge_documents trunc default_radius order gen auth ≡ done (kb, w)
      → (contains j (keys zone_authored) ≡ true → contains j zone_ids ≡ true)
        × (contains j (keys agent_authored) ≡ true → contains j agent_ids ≡ true)
        × (contains j (keys object_authored) ≡ true
            → (id : String) × (contains id object_ids ≡ true)
              × (match_authored_object (keys object_authored) id ≡ j))
  authored_ids_are_known kb w j h =
      let p = merge_documents-Parts kb w h in
      let z = zones_gathered p.zs p.zones_ok in
      let o = objects_gathered p.os p.objects_ok in
      let a = agents_gathered p.as_ p.agents_ok in
      (
        λ c. known (zone_kind zone_authored) _ p.zs zones _ j z.0 z.1 c,
        λ c. known (agent_kind agent_authored) _ p.as_ agents _ j a.0 a.1 c,
        λ c. taken (
            matched_by_generated (object_kind default_radius object_authored) _
              (nothing_gathered (Object F)) p.os j o.0
              (check_dangling-done objects _ p.os.matched {u = tt} j o.1 c)),
      )
    where
      taken :
          (contains j [] ≡ true)
            ⊎ ((id : String) × (contains id object_ids ≡ true)
                × (non_empty (match_authored_object (keys object_authored) id) ≡ some j))
          → (id : String) × (contains id object_ids ≡ true)
            × (match_authored_object (keys object_authored) id ≡ j)
      taken (inl absent) = cc
      taken (inr (id, among, e)) = (id, among, ground (arith, e))

  pub entities_are_generated :
      (kb : Kb F) (w : List MergeWarning)
      → KeepsIds (zone_kind zone_authored)
      → KeepsIds (object_kind default_radius object_authored)
      → KeepsIds (agent_kind agent_authored)
      → merge_documents trunc default_radius order gen auth ≡ done (kb, w)
      → (map (λ (z : Zone F). z.id) kb.zone_list ≡ sort_by_id (λ s. s) zone_ids)
        × (map (λ (o : Object F). o.id) kb.object_list ≡ sort_by_id (λ s. s) object_ids)
        × (map (λ (a : Agent F). a.id) kb.agent_list ≡ sort_by_id (λ s. s) agent_ids)
        × NoRepeat zone_ids
        × NoRepeat object_ids
        × NoRepeat agent_ids
  unfolding assemble
  entities_are_generated kb w kz ko ka h =
      let p = merge_documents-Parts kb w h in
      let z = (zones_gathered p.zs p.zones_ok).0 in
      let o = (objects_gathered p.os p.objects_ok).0 in
      let a = (agents_gathered p.as_ p.agents_ok).0 in
      (
        ap (λ (r : Kb F × List MergeWarning). map (λ (z : Zone F). z.id) (r.0).zone_list)
              (sym p.assembled)
            ∙ map-sort_by_id (λ (z : Zone F). z.id) p.zs.entities
            ∙ ap (sort_by_id (λ s. s)) (
                entity_ids (zone_kind zone_authored) (λ (z : Zone F). z.id) _ _ p.zs kz
                  (λ m e q. (project_zone-ReadsZone m e q).id) z),
        ap (λ (r : Kb F × List MergeWarning). map (λ (o : Object F). o.id) (r.0).object_list)
              (sym p.assembled)
            ∙ map-sort_by_id (λ (o : Object F). o.id) p.os.entities
            ∙ ap (sort_by_id (λ s. s)) (
                entity_ids (object_kind default_radius object_authored) (λ (o : Object F). o.id) _ _
                  p.os ko (λ m e q. (project_object-ReadsObject default_radius m e q).id) o),
        ap (λ (r : Kb F × List MergeWarning). map (λ (a : Agent F). a.id) (r.0).agent_list)
              (sym p.assembled)
            ∙ map-sort_by_id (λ (a : Agent F). a.id) p.as_.entities
            ∙ ap (sort_by_id (λ s. s)) (
                entity_ids (agent_kind agent_authored) (λ (a : Agent F). a.id) _ _ p.as_ ka
                  (λ m e q. (project_agent-ReadsAgent m e q).id) a),
        (fresh_ids (zone_kind zone_authored) _ _ p.zs z).0,
        (fresh_ids (object_kind default_radius object_authored) _ _ p.os o).0,
        (fresh_ids (agent_kind agent_authored) _ _ p.as_ a).0,
      )
