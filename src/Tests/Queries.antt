-- ===== src/Tests/Queries.antt =====
-- One entity of the knowledge base, its validation and its queries.
use smart_npc.Prelude.{◌≡◌, ◌↔◌, some, [], ◌∷◌, ◌++◌, refl}
use smart_npc.Prelude.Int.{ℤ, pos}
use smart_npc.WorldKb.Json.{text, obj, Fields, end, field, lookup, get, set, deep_merge_maps}
use smart_npc.WorldKb.Json.Overlay.{Distinct}
use smart_npc.WorldKb.Entities.{
  Zone, Object, Agent, vec_of, text_of, any_to_float64_slice, to_vec3, to_string_slice, dedup_from,
  extract_extra,
}
use smart_npc.WorldKb.Projection.{project_zone, project_object, project_agent, project_bounds}
use smart_npc.WorldKb.Authored.{apply_authored_shim_zone}
use smart_npc.WorldKb.Gather.{Gathered, nothing_gathered, done, merge_entity}
use smart_npc.WorldKb.Merger.{
  protected_zone_fields, protected_object_fields, protected_agent_fields, zone_kind,
}
use smart_npc.WorldKb.Merger.Facts.{facts_are_generated, authored_id_replaces}
use smart_npc.WorldKb.Validator.{validate}
use smart_npc.WorldKb.Validator.Consistency.{IsConsistent, validate-IsConsistent}
use smart_npc.Tests.Data.{whole_seconds}
use smart_npc.Tests.Kb.{plaza, described, kb, the_plaza}

facts_are_generated_example :
    ((z : Zone ℤ)
      → project_zone (deep_merge_maps plaza described protected_zone_fields) ≡ some z
      → (project_bounds (get "bounds" plaza) ≡ some z.bounds)
        × (vec_of (get "entry_point" plaza) ≡ some z.entry_point)
        × (vec_of (get "entry_facing" plaza) ≡ some z.entry_facing))
    × ((o : Object ℤ)
        → project_object (pos 1500) (deep_merge_maps plaza described protected_object_fields)
          ≡ some o
        → (vec_of (get "actor_position" plaza) ≡ some o.actor_position)
          × (vec_of (get "interaction_point" plaza) ≡ some o.interaction_point)
          × (vec_of (get "interaction_facing" plaza) ≡ some o.interaction_facing)
          × (o.actor_class ≡ text_of (get "actor_class" plaza))
          × (o.default_state ≡ text_of (get "default_state" plaza)))
    × ((g : Agent ℤ)
        → project_agent (deep_merge_maps plaza described protected_agent_fields) ≡ some g
        → (vec_of (get "initial_position" plaza) ≡ some g.initial_position)
          × (g.actor_class ≡ text_of (get "actor_class" plaza))
          × (g.action_table ≡ text_of (get "action_table" plaza))
          × (g.main_behavior_tree ≡ text_of (get "main_behavior_tree" plaza)))
unfolding lookup
facts_are_generated_example = facts_are_generated plaza described (pos 1500) (refl, tt)

-- The authored square takes the name of a park.
abbrev renamed : Fields ℤ
renamed = field "id" (text "park") end

abbrev authored_zones : Fields ℤ
authored_zones = field "plaza" (obj renamed) end

abbrev park : Gathered (Zone ℤ)
park = record {
  entities = record the_plaza { id = "park"; description = "" } ∷ [];
  by_id = "plaza" ∷ [];
  matched = "plaza" ∷ [];
  warnings = [];
}

authored_id_replaces_example :
    (z : Zone ℤ) × (park.entities ≡ [] ++ z ∷ [])
    × (z.id ≡ "park")
    × (park.by_id ≡ text_of (get "id" plaza) ∷ [])
unfolding lookup get apply_authored_shim_zone merge_entity project_zone project_bounds
    deep_merge_maps set vec_of any_to_float64_slice to_vec3 dedup_from extract_extra to_string_slice
authored_id_replaces_example =
    authored_id_replaces authored_zones plaza renamed (nothing_gathered (Zone ℤ)) park "park"
      found_authored distinct_id overlay_id renames
  where
    found_authored : lookup (text_of (get "id" plaza)) authored_zones ≡ some (obj renamed)
    found_authored = refl

    distinct_id : Distinct (apply_authored_shim_zone renamed)
    distinct_id = (refl, tt)

    overlay_id : lookup "id" (apply_authored_shim_zone renamed) ≡ some (text "park")
    overlay_id = refl

    renames :
        merge_entity (zone_kind authored_zones) (obj plaza) (nothing_gathered (Zone ℤ)) ≡ done park
    renames = refl

validate-IsConsistent_example : ((validate (some kb)).errors ≡ []) ↔ IsConsistent kb
validate-IsConsistent_example = validate-IsConsistent kb
