-- ===== src/WorldKb/Merger/Facts.antt =====
-- What an authored overlay can and cannot change of a generated entity.
use smart_npc.Prelude.{String, true, ◌≡◌, refl, sym, ap, ◌∙◌, some, [], ◌∷◌, ◌++◌, arith}
use smart_npc.Prelude.StringSet.{contains}
use smart_npc.Float64.{Float64}
use smart_npc.WorldKb.Json.{text, obj, Fields, lookup, or_nil, get, deep_merge_maps, merge_value}
use smart_npc.WorldKb.Json.Overlay.{Distinct, lookup-deep_merge_maps, merge_value-text}
use smart_npc.WorldKb.Entities.{Zone, Object, Agent, text_of, vec_of}
use smart_npc.WorldKb.Authored.{apply_authored_shim_zone}
use smart_npc.WorldKb.Projection.{project_bounds, project_zone, project_object, project_agent}
use smart_npc.WorldKb.Projection.Spatial.{
  project_zone-ReadsZone, project_object-ReadsObject, project_agent-ReadsAgent, get-protected,
}
use smart_npc.WorldKb.Gather.{done, Gathered, overlay_entity, merge_entity}
use smart_npc.WorldKb.Gather.Turn.{merge_entity-Took}
use smart_npc.WorldKb.Merger.{
  protected_zone_fields, protected_object_fields, protected_agent_fields, zone_kind,
}

module _ {F : Type 0} ⦃fl : Float64 F⦄ where
  -- Whatever an overlay without repeated keys says, the entity that is read from the merged document
  -- has the spatial facts of the generated one: a zone its bounds, entry point and facing; an
  -- object its positions, facing, class and default state; an agent its position, class, action
  -- table and behaviour tree.
  pub facts_are_generated :
      (m a : Fields F) (default_radius : F)
      → Distinct a
      → ((z : Zone F)
          → project_zone (deep_merge_maps m a protected_zone_fields) ≡ some z
          → (project_bounds (get "bounds" m) ≡ some z.bounds)
            × (vec_of (get "entry_point" m) ≡ some z.entry_point)
            × (vec_of (get "entry_facing" m) ≡ some z.entry_facing))
        × ((o : Object F)
            → project_object default_radius (deep_merge_maps m a protected_object_fields) ≡ some o
            → (vec_of (get "actor_position" m) ≡ some o.actor_position)
              × (vec_of (get "interaction_point" m) ≡ some o.interaction_point)
              × (vec_of (get "interaction_facing" m) ≡ some o.interaction_facing)
              × (o.actor_class ≡ text_of (get "actor_class" m))
              × (o.default_state ≡ text_of (get "default_state" m)))
        × ((g : Agent F)
            → project_agent (deep_merge_maps m a protected_agent_fields) ≡ some g
            → (vec_of (get "initial_position" m) ≡ some g.initial_position)
              × (g.actor_class ≡ text_of (get "actor_class" m))
              × (g.action_table ≡ text_of (get "action_table" m))
              × (g.main_behavior_tree ≡ text_of (get "main_behavior_tree" m)))
  facts_are_generated m a default_radius d = (
    λ z h.
        let r = project_zone-ReadsZone _ z h in
        let keep = λ (k : String) (p : contains k protected_zone_fields ≡ true).
          sym (get-protected m a protected_zone_fields k d p) in
        (
          ap project_bounds (keep "bounds" refl) ∙ r.bounds,
          ap vec_of (keep "entry_point" refl) ∙ r.entry,
          ap vec_of (keep "entry_facing" refl) ∙ r.facing,
        ),
    λ o h.
        let r = project_object-ReadsObject default_radius _ o h in
        let keep = λ (k : String) (p : contains k protected_object_fields ≡ true).
          sym (get-protected m a protected_object_fields k d p) in
        (
          ap vec_of (keep "actor_position" refl) ∙ r.position,
          ap vec_of (keep "interaction_point" refl) ∙ r.point,
          ap vec_of (keep "interaction_facing" refl) ∙ r.facing,
          r.class ∙ ap text_of (sym (keep "actor_class" refl)),
          r.default_state ∙ ap text_of (sym (keep "default_state" refl)),
        ),
    λ g h.
        let r = project_agent-ReadsAgent _ g h in
        let keep = λ (k : String) (p : contains k protected_agent_fields ≡ true).
          sym (get-protected m a protected_agent_fields k d p) in
        (
          ap vec_of (keep "initial_position" refl) ∙ r.position,
          r.class ∙ ap text_of (sym (keep "actor_class" refl)),
          r.action_table ∙ ap text_of (sym (keep "action_table" refl)),
          r.behavior_tree ∙ ap text_of (sym (keep "main_behavior_tree" refl)),
        ),
  )

  -- An authored zone with an `id` of its own renames the zone: the index, and with it the tests for
  -- doubles and for dangling ids, has the generated id, the zone that is appended the authored one.
  pub authored_id_replaces :
      (authored m a : Fields F) (g g' : Gathered (Zone F)) (s : String)
      → lookup (text_of (get "id" m)) authored ≡ some (obj a)
      → Distinct (apply_authored_shim_zone a)
      → lookup "id" (apply_authored_shim_zone a) ≡ some (text s)
      → merge_entity (zone_kind authored) (obj m) g ≡ done g'
      → (z : Zone F) × (g'.entities ≡ g.entities ++ z ∷ [])
        × (z.id ≡ s)
        × (g'.by_id ≡ text_of (get "id" m) ∷ g.by_id)
  unfolding overlay_entity get
  authored_id_replaces authored m a g g' s l d e h =
      let t = merge_entity-Took (zone_kind authored) (obj m) g g' h in
      let merged : deep_merge_maps t.document (apply_authored_shim_zone a) protected_zone_fields
          ≡ t.merged =
        ground (arith, t.overlaid, l) in
      let named : get "id" t.merged ≡ text s =
        ap (get "id") (sym merged)
        ∙ ap or_nil {y = some (merge_value (lookup "id" t.document) (text s))} (
            lookup-deep_merge_maps t.document (apply_authored_shim_zone a) protected_zone_fields
              "id" d
            ∙ rw e refl)
        ∙ merge_value-text (lookup "id" t.document) s in
      (
        t.entity,
        t.entities,
        (project_zone-ReadsZone t.merged t.entity t.projected).id ∙ ap text_of named,
        t.by_id,
      )
