-- ===== src/WorldKb/Projection.antt =====
-- agenttown-mcp/pkg/worldkb/merger.go: `projectZone`, `projectObject` and `projectAgent`, which read an
-- entity from its merged document.
pub mod Spatial
use smart_npc.Prelude.{String, Bool, true, false, Option, none, some, List, [], ◌∷◌}
use smart_npc.Prelude.Tests.{if◌then◌else◌}
use smart_npc.Float64.{Float64}
use smart_npc.WorldKb.Json.{
  Value, null, text, arr, obj, num, Items, nil, cons, Fields, end, field, lookup, get,
}
use smart_npc.WorldKb.Entities.{
  Vec3, Bounds, Zone, Object, Agent, Personality, ◌>>=◌, dedup_from, known_zone_keys,
  known_object_keys, known_agent_keys, text_of, connections_of, to_string_slice,
  any_to_float64_slice, to_vec3, vec_of, extract_extra, merge_extra, or_empty,
}

module _ {F : Type 0} ⦃fl : Float64 F⦄ where
  open fl use {zero_f, lt_f}

  -- An optional vector: zero where the value is no list of numbers, or an empty one.
  unfoldable pub optional_vec : Value F → Option (Vec3 F)
  optional_vec v = elim (any_to_float64_slice v) [
    | none ↦ some (zero_f, zero_f, zero_f)
    | some [] ↦ some (zero_f, zero_f, zero_f)
    | some (x ∷ xs) ↦ to_vec3 (x ∷ xs)
  ]

  unfoldable pub project_bounds : Value F → Option (Bounds F)
  unfolding optional_vec
  project_bounds (obj bm) = do
    center ← vec_of (get "center" bm)
    extent ← vec_of (get "extent" bm)
    rotation ← optional_vec (get "rotation" bm)
    some (record { center = center; extent = extent; rotation = rotation })
  project_bounds _ = none

  unfoldable pub project_zone : Fields F → Option (Zone F)
  project_zone m = do
    bounds ← project_bounds (get "bounds" m)
    entry ← vec_of (get "entry_point" m)
    facing ← vec_of (get "entry_facing" m)
    some (record {
      id = text_of (get "id" m);
      display_name = text_of (get "display_name" m);
      description = text_of (get "description" m);
      aliases = dedup_from [] (or_empty (to_string_slice (get "aliases" m)));
      bounds = bounds;
      entry_point = entry;
      entry_facing = facing;
      connections = connections_of (get "connections" m);
      extra = extract_extra m known_zone_keys;
    })

  abbrev pub radius_or : F → Value F → F
  radius_or default_radius (num v) = if lt_f zero_f v then v else default_radius
  radius_or default_radius _ = default_radius

  interaction_names : Items F → List String
  interaction_names nil = []
  interaction_names (cons (obj m) xs) = elim (lookup "name" m) [
    | some (text name) ↦ name ∷ interaction_names xs
    | _ ↦ interaction_names xs
  ]
  interaction_names (cons _ xs) = interaction_names xs

  -- The names, and what goes to `Extra`: the whole list where its first entry is an object.
  unfoldable pub project_interactions : Value F → List String × Fields F
  unfolding interaction_names
  project_interactions (arr (cons (obj m) xs)) = (
    interaction_names (cons (obj m) xs),
    field "available_interactions" (arr (cons (obj m) xs)) end,
  )
  project_interactions v = (or_empty (to_string_slice v), end)

  -- `default_radius` is `defaultInteractionRadius`, 1500.
  unfoldable pub project_object : F → Fields F → Option (Object F)
  project_object default_radius m = do
    position ← vec_of (get "actor_position" m)
    point ← vec_of (get "interaction_point" m)
    facing ← vec_of (get "interaction_facing" m)
    let (names, listed) = project_interactions (get "available_interactions" m)
    some (record {
      id = text_of (get "id" m);
      display_name = text_of (get "display_name" m);
      description = text_of (get "description" m);
      category = text_of (get "category" m);
      semantic_group = text_of (get "semantic_group" m);
      zone_id = text_of (get "zone_id" m);
      actor_class = text_of (get "actor_class" m);
      actor_position = position;
      interaction_point = point;
      interaction_facing = facing;
      interaction_radius = radius_or default_radius (get "interaction_radius" m);
      available_interactions = names;
      default_state = text_of (get "default_state" m);
      tags = or_empty (to_string_slice (get "tags" m));
      extra = merge_extra listed (extract_extra m known_object_keys);
    })

  abbrev pub personality_of : Value F → Personality
  personality_of (obj pm) = record {
    traits = or_empty (to_string_slice (get "traits" pm));
    speech_style = text_of (get "speech_style" pm);
  }
  personality_of _ = record { traits = []; speech_style = "" }

  unfoldable pub project_agent : Fields F → Option (Agent F)
  project_agent m = do
    position ← vec_of (get "initial_position" m)
    some (record {
      id = text_of (get "id" m);
      display_name = text_of (get "display_name" m);
      description = text_of (get "description" m);
      type = text_of (get "type" m);
      profession = text_of (get "profession" m);
      personality = personality_of (get "personality" m);
      initial_zone = text_of (get "initial_zone" m);
      initial_position = position;
      actor_class = text_of (get "actor_class" m);
      action_table = text_of (get "action_table" m);
      main_behavior_tree = text_of (get "main_behavior_tree" m);
      extra = extract_extra m known_agent_keys;
    })
