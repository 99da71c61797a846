-- ===== src/WorldKb/Json/Overlay.antt =====
-- What the overlay of one document on another holds under each key.
use smart_npc.Prelude.{
  String, ◌≡◌, refl, ◌∙◌, inl, inr, Option, none, some, List, str_eq, eq_iff, arith,
}
use smart_npc.Prelude.Tests.{if◌then◌else◌, Bool-cases}
use smart_npc.Prelude.StringSet.{contains}
use smart_npc.WorldKb.Json.{
  Value, text, obj, Fields, end, field, lookup, set, deep_merge_maps, merge_value,
}

module _ {F : Type 0} where
  -- A Go map holds a key once.
  abbrev pub Distinct : Fields F → Type 0
  Distinct end = Unit
  Distinct (field k v m) = (lookup k m ≡ none) × Distinct m

  -- One key of an overlay: `v` on top of what was there.
  abbrev pub overlay : Option (Value F) → Option (Value F) → Option (Value F)
  overlay old none = old
  overlay old (some v) = some (merge_value old v)

  pub lookup-set :
      (j k : String) (v : Value F) (m : Fields F)
      → lookup j (set k v m) ≡ (if str_eq k j then some v else lookup j m)
  unfolding lookup set
  lookup-set j k v end = refl
  lookup-set j k v (field i w m) =
      ground (arith, eq_iff k j, eq_iff i k, eq_iff i j, lookup-set j k v m)

  abbrev written : Fields F → List String → String → Value F → Fields F
  written dst protected k v =
      if contains k protected then dst else set k (merge_value (lookup k dst) v) dst

  lookup-written :
      (dst : Fields F) (protected : List String) (j k : String) (v : Value F)
      → lookup j (written dst protected k v) ≡ (
          if contains k protected
          then lookup j dst
          else if str_eq k j
          then some (merge_value (lookup k dst) v)
          else lookup j dst)
  lookup-written dst protected j k v = elim (Bool-cases (contains k protected)) [
    | inl p ↦ rw p refl
    | inr p ↦ rw p (lookup-set j k (merge_value (lookup k dst) v) dst)
  ]

  pub lookup-deep_merge_maps :
      (dst src : Fields F) (protected : List String) (j : String)
      → Distinct src
      → lookup j (deep_merge_maps dst src protected)
        ≡ (if contains j protected then lookup j dst else overlay (lookup j dst) (lookup j src))
  unfolding deep_merge_maps lookup
  lookup-deep_merge_maps dst end protected j d = ground arith
  lookup-deep_merge_maps dst (field k v src) protected j d =
      lookup-deep_merge_maps (written dst protected k v) src protected j d.1
      ∙ rw (lookup-written dst protected j k v) (ground (arith, eq_iff k j, d.0))

  -- A text takes the place of whatever was there.
  pub merge_value-text : (o : Option (Value F)) (s : String) → merge_value o (text s) ≡ text s
  unfolding merge_value
  merge_value-text none s = refl
  merge_value-text (some (obj m)) s = refl
  merge_value-text (some v) s = refl
