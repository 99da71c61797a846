-- ===== src/WorldKb/Gather.antt =====
-- agenttown-mcp/pkg/worldkb/merger.go: the loops of `MergeMaps` over the sections of the generated
-- document. The three loops are one function over what differs between them. The position of an
-- entity in an error's text and the texts of the warnings are left out.
pub mod Turn
pub mod Ids
use smart_npc.Prelude.{String, Bool, true, false, Option, none, some, List, [], ◌∷◌, ◌++◌, str_eq}
use smart_npc.Prelude.Tests.{if◌then◌else◌}
use smart_npc.Prelude.StringSet.{contains}
use smart_npc.WorldKb.Json.{Value, obj, Items, nil, cons, Fields, lookup, get, deep_merge_maps}
use smart_npc.WorldKb.Entities.{text_of}

pub data Section : Type 0 where
  zones objects agents : Section

pub data MergeError : Type 0 where
  nil_map : MergeError
  not_an_object : Section → MergeError
  missing_id : Section → MergeError
  duplicate_id : Section → String → MergeError
  overlay_not_an_object : Section → String → MergeError
  invalid_entity : Section → String → MergeError
  dangling_id : Section → String → MergeError
  missing_ends : String → MergeError

pub data MergeWarning : Type 0 where
  schema_version_mismatch : String → String → MergeWarning
  no_narrative : Section → String → MergeWarning

-- The answer of a step of the merge: its error, or what it made.
pub data Outcome {ℓ} (A : Type ℓ) : Type ℓ where
  refused : MergeError → Outcome A
  done : A → Outcome A

infixl 5 ◌>>=◌
abbrev pub ◌>>=◌ {ℓ κ} : {X : Type ℓ} {Y : Type κ} → Outcome X → (X → Outcome Y) → Outcome Y
refused e >>= step = refused e
done x >>= step = step x

-- What the loop over one section of the generated document has gathered.
pub record Gathered (E : Type 0) : Type 0 where
  pub entities : List E
  pub by_id : List String
  pub matched : List String
  pub warnings : List MergeWarning

abbrev pub nothing_gathered : (E : Type 0) → Gathered E
nothing_gathered E = record { entities = []; by_id = []; matched = []; warnings = [] }

-- What differs between the three loops.
pub record Kind (F E : Type 0) : Type 0 where
  pub section : Section
  pub authored : Fields F
  pub authored_key : String → Option String
  pub shim : Fields F → Fields F
  pub protected : List String
  pub project : Fields F → Option E

module _ {E : Type 0} where
  abbrev or_invalid : Section → String → Option E → Outcome E
  or_invalid s id none = refused (invalid_entity s id)
  or_invalid s id (some e) = done e

  abbrev note : Section → String → Option String → Gathered E → Gathered E
  note s id none g = record g { warnings = g.warnings ++ no_narrative s id ∷ [] }
  note s id (some key) g = record g { matched = key ∷ g.matched }

module _ {F E : Type 0} where
  -- The merged document of an entity, and the authored key that it took.
  unfoldable pub overlay_entity : Kind F E → String → Fields F → Outcome (Fields F × Option String)
  overlay_entity k id m = elim (k.authored_key id) [
    | none ↦ done (m, none)
    | some key ↦ elim (lookup key k.authored) [
      | none ↦ done (m, none)
      | some (obj a) ↦ done (deep_merge_maps m (k.shim a) k.protected, some key)
      | some _ ↦ refused (overlay_not_an_object k.section key)
    ]
  ]

  unfoldable pub merge_entity : Kind F E → Value F → Gathered E → Outcome (Gathered E)
  unfolding overlay_entity
  merge_entity k (obj m) g =
      let id = text_of (get "id" m) in
      if str_eq id ""
      then refused (missing_id k.section)
      else if contains id g.by_id
      then refused (duplicate_id k.section id)
      else do
        (merged, key) ← overlay_entity k id m
        e ← or_invalid k.section id (k.project merged)
        done (record (note k.section id key g) {
          entities = g.entities ++ e ∷ [];
          by_id = id ∷ g.by_id;
        })
  merge_entity k _ g = refused (not_an_object k.section)

  unfoldable pub merge_entities : Kind F E → Items F → Gathered E → Outcome (Gathered E)
  unfolding merge_entity
  merge_entities k nil g = done g
  merge_entities k (cons v vs) g = do g' ← merge_entity k v g; merge_entities k vs g'

-- The loop that looks for an authored id with no generated entity.
unfoldable pub check_dangling : Section → List String → List String → Outcome (Unit {0})
check_dangling s [] found = done tt
check_dangling s (id ∷ ids) found =
    let rest = check_dangling s ids found in
    if contains id found then rest else refused (dangling_id s id)
