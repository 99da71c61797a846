-- ===== src/WorldKb/Authored.antt =====
-- agenttown-mcp/pkg/worldkb/merger.go: the authored half of the knowledge base: which authored key
-- applies to a generated object, and the conversion of old authored documents.
pub mod Match
use Prim.Native.String.{len, ◌++◌}
use package.text.Mathlib.Text.{starts_with}
use smart_npc.Prelude.{
  String, ℕ, Bool, true, false, not, ◌&&◌, Option, none, some, List, [], ◌∷◌, str_eq,
}
use smart_npc.Prelude.Tests.{if◌then◌else◌, ltb}
use smart_npc.Prelude.StringSet.{contains}
use smart_npc.WorldKb.Json.{
  Value, text, arr, obj, texts, Items, nil, cons, Fields, end, field, lookup, set, delete,
}
use smart_npc.WorldKb.Entities.{to_string_slice}

-- `strings.HasPrefix(id, key + "-")`
abbrev pub has_group_prefix : String → String → Bool
has_group_prefix id key = starts_with id (key ++ "-")

-- The loop of `matchAuthoredObject` over the authored keys, in their order of iteration.
unfoldable pub match_group : List String → String → String → String
match_group [] id best = best
match_group (key ∷ rest) id best =
    let other =
      match_group rest id
        (if has_group_prefix id key && ltb (len best) (len key) then key else best) in
    if not (str_eq key "") && str_eq id key then key else other

unfoldable pub match_authored_object : List String → String → String
unfolding match_group
match_authored_object authored id =
    if str_eq id "" then "" else if contains id authored then id else match_group authored id ""

-- `strings.Join(s, "、")`
join_roles : List String → String
join_roles [] = ""
join_roles (r ∷ []) = r
join_roles (r ∷ r' ∷ rs) = r ++ "、" ++ join_roles (r' ∷ rs)

module _ {F : Type 0} where
  -- `[]any` of objects `{"to": s}`
  to_connections : List String → Items F
  to_connections [] = nil
  to_connections (to ∷ tos) = cons (obj (field "to" (text to) end)) (to_connections tos)

  abbrev has : String → Fields F → Bool
  has k m = elim (lookup k m) [ none ↦ false | some v ↦ true ]

  abbrev connected_to : Option (List String) → Fields F → Fields F
  connected_to (some (to ∷ tos)) m =
      if has "connections" m then m else set "connections" (arr (to_connections (to ∷ tos))) m
  connected_to _ m = m

  unfoldable pub apply_authored_shim_zone : Fields F → Fields F
  unfolding to_connections
  apply_authored_shim_zone m = elim (lookup "connected_to" m) [
    | none ↦ m
    | some ct ↦ delete "connected_to" (connected_to (to_string_slice ct) m)
  ]

  abbrev role_profession : Option (List String) → Fields F → Fields F
  role_profession (some (r ∷ rs)) m =
      if has "profession" m then m else set "profession" (text (join_roles (r ∷ rs))) m
  role_profession _ m = m

  shim_role : Fields F → Fields F
  unfolding join_roles
  shim_role m = elim (lookup "role" m) [
    | none ↦ m
    | some role ↦ delete "role" (role_profession (to_string_slice role) m)
  ]

  shim_personality : Fields F → Fields F
  shim_personality m = elim (lookup "personality" m) [
    | none ↦ m
    | some p ↦ elim (to_string_slice p) [
      | none ↦ m
      | some traits ↦ set "personality" (obj (field "traits" (texts traits) end)) m
    ]
  ]

  abbrev home_zone : Value F → Fields F → Fields F
  home_zone (text hz) m = if has "initial_zone" m then m else set "initial_zone" (text hz) m
  home_zone _ m = m

  shim_home_zone : Fields F → Fields F
  shim_home_zone m = elim (lookup "home_zone" m) [
    | none ↦ m
    | some hz ↦ delete "home_zone" (home_zone hz m)
  ]

  unfoldable pub apply_authored_shim_agent : Fields F → Fields F
  unfolding shim_role shim_personality shim_home_zone
  apply_authored_shim_agent m = shim_home_zone (shim_personality (shim_role m))
