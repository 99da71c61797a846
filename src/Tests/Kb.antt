-- ===== src/Tests/Kb.antt =====
-- The knowledge base: a plaza with a kiosk and a vendor, in which the authored half describes each.
use smart_npc.Prelude.{◌≡◌, String, none, some, List, [], ◌∷◌, refl, arith}
use mathlib.Core.Path.{subst}
use smart_npc.Prelude.Lists.{All}
use smart_npc.Prelude.Int.{ℤ, pos}
use smart_npc.Prelude.StringSet.{contains}
use smart_npc.WorldKb.Json.{
  Value, text, arr, obj, num, nil, cons, Fields, end, field, lookup, get, set, delete, keys,
  deep_merge_maps,
}
use smart_npc.WorldKb.Json.Overlay.{Distinct}
use smart_npc.WorldKb.Entities.{
  Zone, Object, Agent, vec_of, to_string_slice, any_to_float64_slice, to_vec3, dedup_from,
  extract_extra, merge_extra, project_connections,
}
use smart_npc.WorldKb.Projection.{
  project_zone, project_object, project_agent, project_bounds, project_interactions, optional_vec,
}
use smart_npc.WorldKb.Authored.{
  match_authored_object, match_group, apply_authored_shim_zone, apply_authored_shim_agent,
}
use smart_npc.WorldKb.Authored.Match.{match_authored_object-order}
use smart_npc.WorldKb.Relations.{
  fields_of, flatten_relationships, agent_relationships, top_relationships,
}
use smart_npc.WorldKb.Gather.{done, merge_entity, merge_entities, overlay_entity, check_dangling}
use smart_npc.WorldKb.Gather.Turn.{KeepsIds}
use smart_npc.WorldKb.Merger.{
  Kb, zone_kind, object_kind, agent_kind, merge_zones, merge_objects, merge_agents, assemble,
  merge_documents, insert_by_id, sort_by_id,
}
use smart_npc.WorldKb.Query.{get_zone, get_object, get_agent}
use smart_npc.WorldKb.Query.Merged.{merged_entities_are_found}
use smart_npc.Tests.Data.{whole_seconds}

abbrev pub vector : Value ℤ
vector = arr (cons (num (pos 1)) (cons (num (pos 2)) (cons (num (pos 3)) nil)))

abbrev pub plaza : Fields ℤ
plaza = field "id" (text "plaza") (
    field "bounds" (obj (field "center" vector (field "extent" vector end)))
      (field "entry_point" vector (field "entry_facing" vector end)))

abbrev pub kiosk : Fields ℤ
kiosk = field "id" (text "kiosk-1") (
    field "actor_position" vector
      (field "interaction_point" vector (field "interaction_facing" vector end)))

abbrev pub vendor : Fields ℤ
vendor = field "id" (text "H-01") (field "initial_position" vector end)

abbrev generated : Fields ℤ
generated = field "zones" (arr (cons (obj plaza) nil)) (
    field "objects" (arr (cons (obj kiosk) nil)) (field "agents" (arr (cons (obj vendor) nil)) end))

abbrev pub described : Fields ℤ
described = field "description" (text "busy") end

abbrev section : String → Value ℤ
section id = obj (field id (obj described) end)

abbrev authored : Fields ℤ
authored =
    field "zones" (section "plaza")
      (field "objects" (section "kiosk") (field "agents" (section "H-01") end))

abbrev trunc : ℤ → ℤ
trunc n = n

abbrev as_is : List String → List String
as_is ids = ids

abbrev pub spot : ℤ × ℤ × ℤ
spot = (pos 1, pos 2, pos 3)

abbrev pub the_plaza : Zone ℤ
the_plaza = record {
  id = "plaza";
  display_name = "";
  description = "busy";
  aliases = [];
  bounds = record { center = spot; extent = spot; rotation = (pos 0, pos 0, pos 0) };
  entry_point = spot;
  entry_facing = spot;
  connections = [];
  extra = end;
}

abbrev pub the_kiosk : Object ℤ
the_kiosk = record {
  id = "kiosk-1";
  display_name = "";
  description = "busy";
  category = "";
  semantic_group = "";
  zone_id = "";
  actor_class = "";
  actor_position = spot;
  interaction_point = spot;
  interaction_facing = spot;
  interaction_radius = pos 1500;
  available_interactions = [];
  default_state = "";
  tags = [];
  extra = end;
}

abbrev pub the_vendor : Agent ℤ
the_vendor = record {
  id = "H-01";
  display_name = "";
  description = "busy";
  type = "";
  profession = "";
  personality = record { traits = []; speech_style = "" };
  initial_zone = "";
  initial_position = spot;
  actor_class = "";
  action_table = "";
  main_behavior_tree = "";
  extra = end;
}

abbrev pub kb : Kb ℤ
kb = record {
  version = "";
  narrative = record { setting = ""; theme = "" };
  zone_list = the_plaza ∷ [];
  object_list = the_kiosk ∷ [];
  agent_list = the_vendor ∷ [];
  relationships = [];
}

merged : merge_documents trunc (pos 1500) as_is generated authored ≡ done (kb, [])
unfolding merge_documents merge_zones merge_objects merge_agents merge_entities merge_entity
    overlay_entity check_dangling lookup get set delete keys deep_merge_maps project_zone
    project_object project_agent project_bounds project_interactions optional_vec
    match_authored_object match_group apply_authored_shim_zone apply_authored_shim_agent vec_of
    to_string_slice any_to_float64_slice to_vec3 dedup_from extract_extra merge_extra
    project_connections flatten_relationships agent_relationships top_relationships assemble
    insert_by_id sort_by_id
merged = refl

-- The authored half has a key once or twice, and in either order.
abbrev groups : List String
groups = "stall" ∷ "kiosk" ∷ []

abbrev groups_again : List String
groups_again = "kiosk" ∷ "stall" ∷ "kiosk" ∷ []

same_groups : (k : String) → contains k groups ≡ contains k groups_again
same_groups k = ground arith

match_authored_object-order_example :
    match_authored_object groups "kiosk-1" ≡ match_authored_object groups_again "kiosk-1"
match_authored_object-order_example =
    match_authored_object-order groups groups_again same_groups "kiosk-1"

one_overlay :
    (j key : String) (d a : Fields ℤ) → lookup key (field j (obj d) end) ≡ some (obj a) → d ≡ a
unfolding lookup
one_overlay j key d a h = ground (arith, h)

keeps_zones : KeepsIds (zone_kind (fields_of (get "zones" authored)))
unfolding get lookup apply_authored_shim_zone
keeps_zones = (
  refl,
  λ key a h.
      subst
        (λ (m : Fields ℤ).
          Distinct (apply_authored_shim_zone m) × (lookup "id" (apply_authored_shim_zone m) ≡ none))
        (one_overlay "plaza" key described a h) ((refl, tt), refl),
)

keeps_objects : KeepsIds (object_kind (pos 1500) (fields_of (get "objects" authored)))
unfolding get lookup
keeps_objects = (
  refl,
  λ key a h.
      subst (λ (m : Fields ℤ). Distinct m × (lookup "id" m ≡ none))
        (one_overlay "kiosk" key described a h) ((refl, tt), refl),
)

keeps_agents : KeepsIds (agent_kind (fields_of (get "agents" authored)))
unfolding get lookup apply_authored_shim_agent
keeps_agents = (
  refl,
  λ key a h.
      subst
        (λ (m : Fields ℤ).
          Distinct (apply_authored_shim_agent m)
          × (lookup "id" (apply_authored_shim_agent m) ≡ none))
        (one_overlay "H-01" key described a h) ((refl, tt), refl),
)

merged_entities_are_found_example :
    All (λ (z : Zone ℤ). get_zone (some kb) z.id ≡ some z) kb.zone_list
    × All (λ (o : Object ℤ). get_object (some kb) o.id ≡ some o) kb.object_list
    × All (λ (a : Agent ℤ). get_agent (some kb) a.id ≡ some a) kb.agent_list
merged_entities_are_found_example =
    merged_entities_are_found trunc (pos 1500) as_is generated authored kb [] keeps_zones
      keeps_objects keeps_agents merged
