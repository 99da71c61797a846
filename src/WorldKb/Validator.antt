-- ===== src/WorldKb/Validator.antt =====
-- agenttown-mcp/pkg/worldkb/validator.go: the checks of ids and references over a merged knowledge base.
-- An issue is its code, its entity and the id that its message names.
pub mod Consistency
use Prim.Native.Char.{code}
use smart_npc.Prelude.{
  ℕ, ◌+◌, String, Bool, true, false, not, ◌&&◌, ◌||◌, Option, none, some, List, [], ◌∷◌, ◌++◌, map,
  str_eq,
}
use smart_npc.Prelude.Tests.{if◌then◌else◌, leb, ◌==◌}
use smart_npc.Prelude.StringSet.{contains}
use smart_npc.WorldKb.Entities.{Connection, Zone, Object, Agent}
use smart_npc.WorldKb.Relations.{Relationship}
use smart_npc.WorldKb.Merger.{Kb}

pub data IssueCode : Type 0 where
  nil_kb invalid_id_format object_zone_ref_invalid : IssueCode
  empty_object_category empty_object_actions : IssueCode
  invalid_agent_id_format agent_initial_zone_ref_invalid : IssueCode
  zone_connection_ref_invalid relationship_from_invalid relationship_to_invalid : IssueCode

pub record Issue : Type 0 where
  pub issue_code : IssueCode
  pub entity : String
  pub named : String

pub record IssueSet : Type 0 where
  pub errors : List Issue
  pub warnings : List Issue

pub has_errors : IssueSet → Bool
has_errors s = elim s.errors [ [] ↦ false | e ∷ es ↦ true ]

abbrev is_lower : ℕ → Bool
is_lower c = leb 97 c && leb c 122

abbrev is_upper : ℕ → Bool
is_upper c = leb 65 c && leb c 90

abbrev is_digit : ℕ → Bool
is_digit c = leb 48 c && leb c 57

abbrev is_id_char : ℕ → Bool
is_id_char c = is_lower c || is_digit c || c == 95 || c == 45

abbrev is_agent_id_char : ℕ → Bool
is_agent_id_char c = is_id_char c || is_upper c

-- `[…]{lo,hi}$`: all the characters are of the class, and their number is in the range.
pub all_of : (ℕ → Bool) → String → ℕ → Option ℕ
all_of p String.[] n = some n
all_of p (String.◌∷◌ c s) n = let rest = all_of p s (n + 1) in if p (code c) then rest else none

abbrev pub in_range : ℕ → ℕ → Option ℕ → Bool
in_range lo hi none = false
in_range lo hi (some n) = leb lo n && leb n hi

-- `^[a-z][a-z0-9_-]{2,63}$`
unfoldable pub is_valid_id : String → Bool
is_valid_id String.[] = false
is_valid_id (String.◌∷◌ c s) = is_lower (code c) && in_range 2 63 (all_of is_id_char s 0)

-- `^[A-Za-z][A-Za-z0-9_-]{1,63}$`
unfoldable pub is_valid_agent_id : String → Bool
is_valid_agent_id String.[] = false
is_valid_agent_id (String.◌∷◌ c s) =
    (is_lower (code c) || is_upper (code c)) && in_range 1 63 (all_of is_agent_id_char s 0)

abbrev pub issue : IssueCode → String → String → Issue
issue c entity named = record { issue_code = c; entity = entity; named = named }

-- One issue where a test fails.
abbrev pub unless : Bool → Issue → List Issue
unless true i = []
unless false i = i ∷ []

-- `for _, x := range xs { … append … }`
pub each {ℓ} : {A : Type ℓ} → (A → List Issue) → List A → List Issue
each f [] = []
each f (x ∷ xs) = f x ++ each f xs

abbrev is_empty : List String → Bool
is_empty [] = true
is_empty (x ∷ xs) = false

relationship_issues : List String → Relationship → List Issue
relationship_issues agent_ids r =
    unless (contains r.from agent_ids) (issue relationship_from_invalid "" r.from)
    ++ unless (contains r.to agent_ids) (issue relationship_to_invalid "" r.to)

module _ {F : Type 0} where
  zone_issues : Zone F → List Issue
  zone_issues z = unless (is_valid_id z.id) (issue invalid_id_format z.id "")

  object_issues : List String → Object F → List Issue
  object_issues zone_ids o =
      unless (is_valid_id o.id) (issue invalid_id_format o.id "")
      ++ unless (str_eq o.zone_id "" || contains o.zone_id zone_ids)
          (issue object_zone_ref_invalid o.id o.zone_id)

  object_warnings : Object F → List Issue
  object_warnings o =
      unless (not (str_eq o.category "")) (issue empty_object_category o.id "")
      ++ unless (not (is_empty o.available_interactions)) (issue empty_object_actions o.id "")

  agent_issues : List String → Agent F → List Issue
  agent_issues zone_ids a =
      unless (is_valid_agent_id a.id) (issue invalid_agent_id_format a.id "")
      ++ unless (str_eq a.initial_zone "" || contains a.initial_zone zone_ids)
          (issue agent_initial_zone_ref_invalid a.id a.initial_zone)

  connection_issues : List String → Zone F → List Issue
  connection_issues zone_ids z =
      each (λ c. unless (contains c.to zone_ids) (issue zone_connection_ref_invalid z.id c.to))
        z.connections

  -- `Validate`
  pub validate : Option (Kb F) → IssueSet
  unfolding zone_issues object_issues object_warnings agent_issues connection_issues
      relationship_issues
  validate none = record { errors = issue nil_kb "" "" ∷ []; warnings = [] }
  validate (some kb) =
      let zone_ids = map (λ (z : Zone F). z.id) kb.zone_list in
      let agent_ids = map (λ (a : Agent F). a.id) kb.agent_list in
      record {
        errors =
            each zone_issues kb.zone_list
            ++ each (object_issues zone_ids) kb.object_list
            ++ each (agent_issues zone_ids) kb.agent_list
            ++ each (connection_issues zone_ids) kb.zone_list
            ++ each (relationship_issues agent_ids) kb.relationships;
        warnings = each object_warnings kb.object_list;
      }
