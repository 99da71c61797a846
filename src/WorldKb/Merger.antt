-- ===== src/WorldKb/Merger.antt =====
-- agenttown-mcp/pkg/worldkb/merger.go: `MergeMaps`.
pub mod Sorting
pub mod Documents
pub mod Facts
use Prim.Native.String.{compare}
use Prim.Native.Nat.{Ordering}
use smart_npc.Prelude.{
  String, Bool, true, false, ◌||◌, Option, none, some, List, [], ◌∷◌, ◌++◌, str_eq,
}
use smart_npc.Prelude.Tests.{if◌then◌else◌}
use smart_npc.Prelude.StringSet.{contains}
use smart_npc.Prelude.Int.{ℤ, pos}
use smart_npc.Float64.{Float64}
use smart_npc.WorldKb.Json.{
  Value, text, arr, obj, num, Items, nil, cons, Fields, end, lookup, get, keys,
}
use smart_npc.WorldKb.Entities.{Zone, Object, Agent, text_of}
use smart_npc.WorldKb.Projection.{project_zone, project_object, project_agent}
use smart_npc.WorldKb.Authored.{
  match_authored_object, apply_authored_shim_zone, apply_authored_shim_agent,
}
use smart_npc.WorldKb.Relations.{Relationship, items_of, fields_of, flatten_relationships}
use smart_npc.WorldKb.Gather.{
  Section, zones, objects, agents, MergeError, nil_map, missing_ends, MergeWarning,
  schema_version_mismatch, Outcome, done, refused, ◌>>=◌, Gathered, nothing_gathered, Kind,
  merge_entities, check_dangling,
}

abbrev pub protected_zone_fields : List String
protected_zone_fields = "bounds" ∷ "entry_point" ∷ "entry_facing" ∷ "actor_path" ∷ []

abbrev pub protected_object_fields : List String
protected_object_fields =
    "actor_class" ∷ "actor_position" ∷ "interaction_point" ∷ "interaction_facing" ∷ "default_state"
    ∷ []

abbrev pub protected_agent_fields : List String
protected_agent_fields =
    "actor_class" ∷ "initial_position" ∷ "action_table" ∷ "main_behavior_tree" ∷ []

pub record Narrative : Type 0 where
  pub setting : String
  pub theme : String

pub record Kb (F : Type 0) : Type 0 where
  pub version : String
  pub narrative : Narrative
  pub zone_list : List (Zone F)
  pub object_list : List (Object F)
  pub agent_list : List (Agent F)
  pub relationships : List Relationship

-- `sort.SliceStable` by id.
module _ {E : Type 0} (id_of : E → String) where
  abbrev pub is_before : E → E → Bool
  is_before a b = elim (compare (id_of a) (id_of b)) [ Ordering.lt ↦ true | _ ↦ false ]

  unfoldable pub insert_by_id : E → List E → List E
  insert_by_id e [] = e ∷ []
  insert_by_id e (d ∷ ds) =
      let rest = insert_by_id e ds in if is_before d e then d ∷ rest else e ∷ d ∷ ds

  unfoldable pub sort_by_id : List E → List E
  sort_by_id [] = []
  sort_by_id (e ∷ es) = insert_by_id e (sort_by_id es)

version_warnings : String → String → List MergeWarning
version_warnings gen auth =
    if str_eq gen "" || str_eq auth "" || str_eq gen auth
    then []
    else schema_version_mismatch gen auth ∷ []

module _ {F : Type 0} where
  narrative_of : Fields F → Narrative
  narrative_of auth = elim (get "narrative" auth) [
    | obj narr ↦ record {
      setting = text_of (get "setting" narr);
      theme = text_of (get "theme" narr);
    }
    | _ ↦ elim (get "site" auth) [
      | text site ↦ record { setting = site; theme = "" }
      | obj site ↦ record {
        setting = text_of (get "display_name" site);
        theme = text_of (get "description" site);
      }
      | _ ↦ record { setting = ""; theme = "" }
    ]
  ]

  authored_version : Fields F → String
  authored_version auth =
      let version = text_of (get "version" auth) in
      if str_eq version "" then text_of (get "schema_version" auth) else version

abbrev pub non_empty : String → Option String
non_empty s = if str_eq s "" then none else some s

module _ {F : Type 0} ⦃fl : Float64 F⦄ where
  abbrev pub zone_kind : Fields F → Kind F (Zone F)
  zone_kind authored = record {
    section = zones;
    authored = authored;
    authored_key = some;
    shim = apply_authored_shim_zone;
    protected = protected_zone_fields;
    project = project_zone;
  }

  abbrev pub object_kind : F → Fields F → Kind F (Object F)
  object_kind default_radius authored = record {
    section = objects;
    authored = authored;
    authored_key = λ id. non_empty (match_authored_object (keys authored) id);
    shim = λ m. m;
    protected = protected_object_fields;
    project = project_object default_radius;
  }

  abbrev pub agent_kind : Fields F → Kind F (Agent F)
  agent_kind authored = record {
    section = agents;
    authored = authored;
    authored_key = some;
    shim = apply_authored_shim_agent;
    protected = protected_agent_fields;
    project = project_agent;
  }

  -- The three sections, each with its check for authored ids that no entity took.
  unfoldable pub merge_zones : Fields F → Fields F → Outcome (Gathered (Zone F))
  merge_zones gen auth = do
    let authored = fields_of (get "zones" auth)
    g ← merge_entities (zone_kind authored) (items_of (get "zones" gen)) (nothing_gathered (Zone F))
    _ ← check_dangling zones (keys authored) g.by_id
    done g

  unfoldable pub merge_objects : F → Fields F → Fields F → Outcome (Gathered (Object F))
  merge_objects default_radius gen auth = do
    let authored = fields_of (get "objects" auth)
    g ←
        merge_entities (object_kind default_radius authored) (items_of (get "objects" gen))
          (nothing_gathered (Object F))
    _ ← check_dangling objects (keys authored) g.matched
    done g

  unfoldable pub merge_agents : Fields F → Fields F → Outcome (Gathered (Agent F))
  merge_agents gen auth = do
    let authored = fields_of (get "agents" auth)
    g ←
        merge_entities (agent_kind authored) (items_of (get "agents" gen))
          (nothing_gathered (Agent F))
    _ ← check_dangling agents (keys authored) g.by_id
    done g

  -- The knowledge base of what was gathered, sorted by id.
  unfoldable pub assemble :
      Fields F
      → Fields F
      → Gathered (Zone F)
      → Gathered (Object F)
      → Gathered (Agent F)
      → List Relationship
      → Kb F × List MergeWarning
  unfolding narrative_of authored_version version_warnings
  assemble gen auth zs os as_ rels =
      let gen_version = text_of (get "schema_version" gen) in
      let auth_version = authored_version auth in
      (
        record {
          version = if str_eq gen_version "" then auth_version else gen_version;
          narrative = narrative_of auth;
          zone_list = sort_by_id (λ (z : Zone F). z.id) zs.entities;
          object_list = sort_by_id (λ (o : Object F). o.id) os.entities;
          agent_list = sort_by_id (λ (a : Agent F). a.id) as_.entities;
          relationships = rels;
        },
        version_warnings gen_version auth_version ++ zs.warnings ++ os.warnings ++ as_.warnings,
      )

  -- `MergeMaps` of two maps. `order` lists the ids of the agents as Go iterates them.
  unfoldable pub merge_documents :
      (F → ℤ)
      → F
      → (List String → List String)
      → Fields F
      → Fields F
      → Outcome (Kb F × List MergeWarning)
  merge_documents trunc default_radius order gen auth = do
    zs ← merge_zones gen auth
    os ← merge_objects default_radius gen auth
    as_ ← merge_agents gen auth
    rels ← flatten_relationships trunc (order as_.by_id) auth
    done (assemble gen auth zs os as_ rels)

  -- `MergeMaps`; `none` is a nil map.
  pub merge_maps :
      (F → ℤ)
      → F
      → (List String → List String)
      → Option (Fields F)
      → Option (Fields F)
      → Outcome (Kb F × List MergeWarning)
  merge_maps trunc default_radius order (some gen) (some auth) =
      merge_documents trunc default_radius order gen auth
  merge_maps trunc default_radius order _ _ = refused nil_map
