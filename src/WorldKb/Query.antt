-- ===== src/WorldKb/Query.antt =====
-- agenttown-mcp/pkg/worldkb/query.go: look-ups in the knowledge base; `none` is a nil knowledge base. The
-- maps of loader.go's `buildIndex` give the last entity of an id.
pub mod Index
pub mod Merged
use smart_npc.Prelude.{
  String, Bool, true, false, ◌&&◌, Option, none, some, List, [], ◌∷◌, map, str_eq,
}
use smart_npc.Prelude.Tests.{if◌then◌else◌}
use smart_npc.Float64.{Float64}
use smart_npc.WorldKb.Entities.{Vec3, Zone, Object, Agent}
use smart_npc.WorldKb.Merger.{Kb}

-- One of the maps of `buildIndex`.
module _ {E : Type 0} (id_of : E → String) where
  pub index : List E → String → Option E
  index [] id = none
  index (e ∷ es) id = elim (index es id) [
    | some later ↦ some later
    | none ↦ if str_eq (id_of e) id then some e else none
  ]

pub data QueryError : Type 0 where
  not_loaded unknown_target empty_descriptor : QueryError

pub data TargetKind : Type 0 where
  zone_kind object_kind agent_kind : TargetKind

pub data Answer {ℓ} (A : Type ℓ) : Type ℓ where
  found : A → Answer A
  failed : QueryError → Answer A

pub record ZoneInfo : Type 0 where
  pub id : String
  pub display_name : String
  pub description : String

pub record ObjectInfo : Type 0 where
  pub id : String
  pub display_name : String
  pub description : String
  pub category : String
  pub semantic_group : String
  pub zone_id : String
  pub available_interactions : List String

module _ {F : Type 0} where
  abbrev pub zone_by_id : Kb F → String → Option (Zone F)
  zone_by_id kb = index (λ (z : Zone F). z.id) kb.zone_list

  abbrev pub object_by_id : Kb F → String → Option (Object F)
  object_by_id kb = index (λ (o : Object F). o.id) kb.object_list

  abbrev pub agent_by_id : Kb F → String → Option (Agent F)
  agent_by_id kb = index (λ (a : Agent F). a.id) kb.agent_list

  pub get_zone : Option (Kb F) → String → Option (Zone F)
  get_zone none id = none
  get_zone (some kb) id = zone_by_id kb id

  pub get_object : Option (Kb F) → String → Option (Object F)
  get_object none id = none
  get_object (some kb) id = object_by_id kb id

  pub get_agent : Option (Kb F) → String → Option (Agent F)
  get_agent none id = none
  get_agent (some kb) id = agent_by_id kb id

  pub get_position : Option (Kb F) → String → Answer (Vec3 F × TargetKind)
  get_position none id = failed not_loaded
  get_position (some kb) id = elim (zone_by_id kb id) [
    | some z ↦ found (z.entry_point, zone_kind)
    | none ↦ elim (object_by_id kb id) [
      | some o ↦ found (o.interaction_point, object_kind)
      | none ↦ failed unknown_target
    ]
  ]

  pub get_available_interactions : Option (Kb F) → String → List String
  get_available_interactions none id = []
  get_available_interactions (some kb) id = elim (object_by_id kb id) [
    | some o ↦ o.available_interactions
    | none ↦ []
  ]

  abbrev resolve_known :
      Option (Zone F) → Option (Object F) → Option (Agent F) → String → Answer (String × TargetKind)
  resolve_known (some z) o a desc = found (desc, zone_kind)
  resolve_known none (some o) a desc = found (desc, object_kind)
  resolve_known none none (some a) desc = found (desc, agent_kind)
  resolve_known none none none desc = failed unknown_target

  pub resolve_target : Option (Kb F) → String → Answer (String × TargetKind)
  resolve_target none desc = failed not_loaded
  resolve_target (some kb) desc =
      if str_eq desc ""
      then failed empty_descriptor
      else resolve_known (zone_by_id kb desc) (object_by_id kb desc) (agent_by_id kb desc) desc

  pub list_zones : Option (Kb F) → List ZoneInfo
  list_zones none = []
  list_zones (some kb) =
      map
        (λ (z : Zone F). record {
          id = z.id;
          display_name = z.display_name;
          description = z.description;
        })
        kb.zone_list

  pub list_objects : Option (Kb F) → List ObjectInfo
  list_objects none = []
  list_objects (some kb) =
      map
        (λ (o : Object F). record {
          id = o.id;
          display_name = o.display_name;
          description = o.description;
          category = o.category;
          semantic_group = o.semantic_group;
          zone_id = o.zone_id;
          available_interactions = o.available_interactions;
        })
        kb.object_list

module _ {F : Type 0} ⦃fl : Float64 F⦄ where
  open fl use {zero_f, add_f, sub_f, le_f}

  abbrev between : F → F → F → Bool
  between p center extent = le_f (sub_f center extent) p && le_f p (add_f center extent)

  contains_point : Vec3 F → Zone F → Bool
  contains_point (x, y, h) z =
      let (cx, cy, cz) = z.bounds.center in
      let (ex, ey, ez) = z.bounds.extent in between x cx ex && between y cy ey

  which_zone_of : Vec3 F → List (Zone F) → String
  which_zone_of pos [] = ""
  which_zone_of pos (z ∷ zs) =
      let rest = which_zone_of pos zs in if contains_point pos z then z.id else rest

  pub which_zone : Option (Kb F) → Vec3 F → String
  unfolding contains_point which_zone_of
  which_zone none pos = ""
  which_zone (some kb) pos = which_zone_of pos kb.zone_list

  -- `mul` and `sqrt` are those of float64.
  which_object_of : (F → F → F) → (F → F) → Vec3 F → List (Object F) → String
  which_object_of mul sqrt pos [] = ""
  which_object_of mul sqrt (x, y, h) (o ∷ os) =
      let rest = which_object_of mul sqrt (x, y, h) os in
      let (ax, ay, az) = o.actor_position in
      let dx = sub_f x ax in
      let dy = sub_f y ay in
      if le_f o.interaction_radius zero_f
      then rest
      else if le_f (sqrt (add_f (mul dx dx) (mul dy dy))) o.interaction_radius
      then o.id
      else rest

  pub which_object : (F → F → F) → (F → F) → Option (Kb F) → Vec3 F → String
  unfolding which_object_of
  which_object mul sqrt none pos = ""
  which_object mul sqrt (some kb) pos = which_object_of mul sqrt pos kb.object_list
