-- ===== src/WorldKb/Json.antt =====
-- agenttown-mcp/pkg/worldkb/merger.go: the `map[string]any` of a decoded JSON document, and the overlay
-- of one document on another. A map is its list of entries, in an order of iteration. Values are
-- not shared and not written in place, so `cloneMap` has no counterpart.
pub mod Overlay
use smart_npc.Prelude.{
  ℕ, String, Bool, true, false, not, ◌||◌, Option, none, some, List, [], ◌∷◌, str_eq,
}
use smart_npc.Prelude.Tests.{if◌then◌else◌}
use smart_npc.Prelude.StringSet.{contains}

-- `any`: what JSON decodes to, and the `[]string` and `[]float64` that Go code puts there.
mutual
  pub data Value (F : Type 0) : Type 0 where
    null : Value F
    flag : Bool → Value F
    num : F → Value F
    text : String → Value F
    arr : Items F → Value F
    obj : Fields F → Value F
    texts : List String → Value F
    nums : List F → Value F

  pub data Items (F : Type 0) : Type 0 where
    nil : Items F
    cons : Value F → Items F → Items F

  pub data Fields (F : Type 0) : Type 0 where
    end : Fields F
    field : String → Value F → Fields F → Fields F

module _ {F : Type 0} where
  -- `v, ok := m[k]`
  unfoldable pub lookup : String → Fields F → Option (Value F)
  lookup k end = none
  lookup k (field j v m) = if str_eq j k then some v else lookup k m

  -- `m[k]`, where a missing key gives nil.
  abbrev pub or_nil : Option (Value F) → Value F
  or_nil none = null
  or_nil (some v) = v

  unfoldable pub get : String → Fields F → Value F
  get k m = or_nil (lookup k m)

  -- `m[k] = v`
  unfoldable pub set : String → Value F → Fields F → Fields F
  set k v end = field k v end
  set k v (field j w m) = if str_eq j k then field j v m else field j w (set k v m)

  -- `delete(m, k)`
  unfoldable pub delete : String → Fields F → Fields F
  delete k end = end
  delete k (field j w m) = let rest = delete k m in if str_eq j k then rest else field j w rest

  unfoldable pub keys : Fields F → List String
  keys end = []
  keys (field k v m) = k ∷ keys m

-- `deepMergeMaps`; `merge_value` is what the loop stores for one key.
unfoldable mutual
  pub deep_merge_maps : {F : Type 0} → Fields F → Fields F → List String → Fields F
  deep_merge_maps dst end protected = dst
  deep_merge_maps dst (field k v src) protected =
      deep_merge_maps
        (if contains k protected then dst else set k (merge_value (lookup k dst) v) dst) src
        protected

  pub merge_value : {F : Type 0} → Option (Value F) → Value F → Value F
  merge_value (some (obj dst)) (obj src) = obj (deep_merge_maps dst src [])
  merge_value old v = v
