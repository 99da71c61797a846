-- ===== src/WorldKb/Entities.antt =====
-- agenttown-mcp/pkg/worldkb/types.go: the entities of the knowledge base; and the projection of merged
-- documents to them in merger.go. A projection fails with `none`; the texts of its errors are left out.
use smart_npc.Prelude.{String, Bool, false, Option, none, some, List, [], ◌∷◌}
use smart_npc.Prelude.Tests.{if◌then◌else◌}
use smart_npc.Prelude.StringSet.{contains}
use smart_npc.WorldKb.Json.{
  Value, null, flag, num, text, arr, obj, texts, nums, Items, nil, cons, Fields, end, field, get,
  set,
}

-- `[3]float64`
abbrev pub Vec3 : Type 0 → Type 0
Vec3 F = F × F × F

pub record Bounds (F : Type 0) : Type 0 where
  pub center : Vec3 F
  pub extent : Vec3 F
  pub rotation : Vec3 F

pub record Connection : Type 0 where
  pub to : String
  pub type : String
  pub bidirectional : Bool

pub record Zone (F : Type 0) : Type 0 where
  pub id : String
  pub display_name : String
  pub description : String
  pub aliases : List String
  pub bounds : Bounds F
  pub entry_point : Vec3 F
  pub entry_facing : Vec3 F
  pub connections : List Connection
  pub extra : Fields F

pub record Object (F : Type 0) : Type 0 where
  pub id : String
  pub display_name : String
  pub description : String
  pub category : String
  pub semantic_group : String
  pub zone_id : String
  pub actor_class : String
  pub actor_position : Vec3 F
  pub interaction_point : Vec3 F
  pub interaction_facing : Vec3 F
  pub interaction_radius : F
  pub available_interactions : List String
  pub default_state : String
  pub tags : List String
  pub extra : Fields F

pub record Personality : Type 0 where
  pub traits : List String
  pub speech_style : String

pub record Agent (F : Type 0) : Type 0 where
  pub id : String
  pub display_name : String
  pub description : String
  pub type : String
  pub profession : String
  pub personality : Personality
  pub initial_zone : String
  pub initial_position : Vec3 F
  pub actor_class : String
  pub action_table : String
  pub main_behavior_tree : String
  pub extra : Fields F

infixl 5 ◌>>=◌
abbrev pub ◌>>=◌ {ℓ κ} : {A : Type ℓ} {B : Type κ} → Option A → (A → Option B) → Option B
none >>= f = none
some a >>= f = f a

-- `dedupStrings`, with the set of what was seen.
unfoldable pub dedup_from : List String → List String → List String
dedup_from seen [] = []
dedup_from seen (v ∷ s) =
    let fresh = v ∷ dedup_from (v ∷ seen) s in
    let again = dedup_from seen s in if contains v seen then again else fresh

abbrev pub known_zone_keys : List String
known_zone_keys =
    "id" ∷ "display_name" ∷ "description" ∷ "aliases" ∷ "bounds" ∷ "entry_point" ∷ "entry_facing"
    ∷ "connections" ∷ []

abbrev pub known_object_keys : List String
known_object_keys =
    "id" ∷ "display_name" ∷ "description" ∷ "category" ∷ "semantic_group" ∷ "zone_id"
    ∷ "actor_class" ∷ "actor_position" ∷ "interaction_point" ∷ "interaction_facing"
    ∷ "interaction_radius" ∷ "available_interactions" ∷ "default_state" ∷ "tags" ∷ []

abbrev pub known_agent_keys : List String
known_agent_keys =
    "id" ∷ "display_name" ∷ "description" ∷ "type" ∷ "profession" ∷ "personality" ∷ "initial_zone"
    ∷ "initial_position" ∷ "actor_class" ∷ "action_table" ∷ "main_behavior_tree" ∷ []

abbrev pub or_empty : Option (List String) → List String
or_empty none = []
or_empty (some s) = s

module _ {F : Type 0} where
  -- `if v, ok := m[k].(string); ok { r = v }`, over the empty text.
  abbrev pub text_of : Value F → String
  text_of (text s) = s
  text_of _ = ""

  abbrev pub flag_of : Value F → Bool
  flag_of (flag b) = b
  flag_of _ = false

  all_texts : Items F → Option (List String)
  all_texts nil = some []
  all_texts (cons (text s) xs) = do rest ← all_texts xs; some (s ∷ rest)
  all_texts (cons _ xs) = none

  unfoldable pub to_string_slice : Value F → Option (List String)
  unfolding all_texts
  to_string_slice (texts s) = some s
  to_string_slice (arr xs) = all_texts xs
  to_string_slice null = some []
  to_string_slice _ = none

  all_nums : Items F → Option (List F)
  all_nums nil = some []
  all_nums (cons (num f) xs) = do rest ← all_nums xs; some (f ∷ rest)
  all_nums (cons _ xs) = none

  unfoldable pub any_to_float64_slice : Value F → Option (List F)
  unfolding all_nums
  any_to_float64_slice (nums s) = some s
  any_to_float64_slice (arr xs) = all_nums xs
  any_to_float64_slice null = some []
  any_to_float64_slice _ = none

  unfoldable pub to_vec3 : List F → Option (Vec3 F)
  to_vec3 (x ∷ y ∷ z ∷ []) = some (x, y, z)
  to_vec3 _ = none

  -- A required vector.
  unfoldable pub vec_of : Value F → Option (Vec3 F)
  vec_of v = do xs ← any_to_float64_slice v; to_vec3 xs

  unfoldable pub extract_extra : Fields F → List String → Fields F
  extract_extra end known = end
  extract_extra (field k v m) known =
      let rest = extract_extra m known in if contains k known then rest else field k v rest

  unfoldable pub merge_extra : Fields F → Fields F → Fields F
  merge_extra dst end = dst
  merge_extra dst (field k v src) = merge_extra (set k v dst) src

  unfoldable pub project_connections : Items F → List Connection
  project_connections nil = []
  project_connections (cons (obj cm) cs) =
      record {
        to = text_of (get "to" cm);
        type = text_of (get "type" cm);
        bidirectional = flag_of (get "bidirectional" cm);
      }
      ∷ project_connections cs
  project_connections (cons _ cs) = project_connections cs

  abbrev pub connections_of : Value F → List Connection
  connections_of (arr cs) = project_connections cs
  connections_of _ = []
