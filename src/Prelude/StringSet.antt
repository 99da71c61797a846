-- ===== src/Prelude/StringSet.antt =====
-- Go's `map[string]struct{}`: a set of strings.
use Prim.Native.String.{String}
use mathlib.Core.Path.{◌≡◌, refl}
use mathlib.Core.Bool.{Bool, false, ◌||◌}
use mathlib.Core.List.{List, [], ◌∷◌, ◌++◌}
use native.Mathlib.Omega.{arith}
use text.Mathlib.Text.{◌==◌ as str_eq}
use text.Mathlib.TextEquality.{eq_iff}
use smart_npc.Prelude.Tests.{if◌then◌else◌}

-- `_, ok := m[k]`
abbrev pub contains : String → List String → Bool
contains k [] = false
contains k (x ∷ xs) = str_eq x k || contains k xs

-- `m[k] = struct{}{}`
pub insert : String → List String → List String
insert k xs = if contains k xs then xs else k ∷ xs

-- `delete(m, k)`
pub delete : String → List String → List String
delete k [] = []
delete k (x ∷ xs) = let rest = delete k xs in if str_eq x k then rest else x ∷ rest

pub contains-append :
    (k : String) (xs ys : List String) → contains k (xs ++ ys) ≡ (contains k xs || contains k ys)
contains-append k [] ys = refl
contains-append k (x ∷ xs) ys = ground (arith, contains-append k xs ys)

pub contains-insert :
    (j k : String) (xs : List String) → contains j (insert k xs) ≡ (str_eq k j || contains j xs)
unfolding insert
contains-insert j k xs = ground (arith, eq_iff k j)

pub contains-delete :
    (j k : String) (xs : List String)
    → contains j (delete k xs) ≡ (if str_eq k j then false else contains j xs)
unfolding delete
contains-delete j k [] = ground arith
contains-delete j k (x ∷ xs) =
    ground (arith, contains-delete j k xs, eq_iff x k, eq_iff x j, eq_iff k j)
