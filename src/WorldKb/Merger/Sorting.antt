-- ===== src/WorldKb/Merger/Sorting.antt =====
-- agenttown-mcp/pkg/worldkb/merger.go: what `sort.SliceStable` by id does to the ids.
use smart_npc.Prelude.{
  String, Bool, false, ◌||◌, ◌≡◌, refl, ap, ◌∙◌, inl, inr, List, [], ◌∷◌, map, str_eq, eq_iff,
  arith,
}
use smart_npc.Prelude.Tests.{Bool-cases}
use smart_npc.Prelude.StringSet.{contains}
use smart_npc.WorldKb.Gather.Ids.{NoRepeat}
use smart_npc.WorldKb.Merger.{sort_by_id, insert_by_id, is_before}

-- Sorting entities by id sorts their ids.
map-insert_by_id :
    {E : Type 0} (name : E → String) (e : E) (ds : List E)
    → map name (insert_by_id name e ds) ≡ insert_by_id (λ s. s) (name e) (map name ds)
unfolding insert_by_id
map-insert_by_id name e [] = refl
map-insert_by_id name e (d ∷ ds) = elim (Bool-cases (is_before name d e)) [
  | inl b ↦ rw (b, map-insert_by_id name e ds) refl
  | inr b ↦ rw b refl
]

pub map-sort_by_id :
    {E : Type 0} (name : E → String) (es : List E)
    → map name (sort_by_id name es) ≡ sort_by_id (λ s. s) (map name es)
unfolding sort_by_id
map-sort_by_id name [] = refl
map-sort_by_id name (e ∷ es) =
    map-insert_by_id name e (sort_by_id name es)
    ∙ ap (insert_by_id (λ s. s) (name e)) (map-sort_by_id name es)

contains-insert_by_id :
    (x s : String) (ds : List String)
    → contains x (insert_by_id (λ r. r) s ds) ≡ (str_eq s x || contains x ds)
unfolding insert_by_id
contains-insert_by_id x s [] = refl
contains-insert_by_id x s (d ∷ ds) = elim (Bool-cases (is_before (λ (r : String). r) d s)) [
  | inl b ↦ rw b (ground (arith, contains-insert_by_id x s ds))
  | inr b ↦ rw b refl
]

NoRepeat-insert_by_id :
    (s : String) (ds : List String)
    → contains s ds ≡ false
    → NoRepeat ds
    → NoRepeat (insert_by_id (λ r. r) s ds)
unfolding insert_by_id
NoRepeat-insert_by_id s [] h n = (refl, tt)
NoRepeat-insert_by_id s (d ∷ ds) h n = elim (Bool-cases (is_before (λ (r : String). r) d s)) [
  | inl b ↦ rw b (
    ground (arith, contains-insert_by_id d s ds, n.0, h, eq_iff s d, eq_iff d s),
    NoRepeat-insert_by_id s ds (ground (arith, h)) n.1,
  )
  | inr b ↦ rw b (h, n)
]

contains-sort_by_id :
    (x : String) (ss : List String) → contains x (sort_by_id (λ r. r) ss) ≡ contains x ss
unfolding sort_by_id
contains-sort_by_id x [] = refl
contains-sort_by_id x (s ∷ ss) =
    contains-insert_by_id x s (sort_by_id (λ r. r) ss)
    ∙ ap (λ (b : Bool). str_eq s x || b) (contains-sort_by_id x ss)

pub NoRepeat-sort_by_id : (ss : List String) → NoRepeat ss → NoRepeat (sort_by_id (λ r. r) ss)
unfolding sort_by_id
NoRepeat-sort_by_id [] h = tt
NoRepeat-sort_by_id (s ∷ ss) h =
    NoRepeat-insert_by_id s (sort_by_id (λ r. r) ss) (contains-sort_by_id s ss ∙ h.0)
      (NoRepeat-sort_by_id ss h.1)
