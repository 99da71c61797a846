-- ===== src/Strategic/Jitter/Spacing.antt =====
-- How far apart the shifted nodes of a plan are, and how far from where they were.
use smart_npc.Prelude.{ℕ, ◌+◌, ◌-◌, ◌*◌, ◌≤◌, ◌<◌, ◌≡◌, refl, List, [], ◌∷◌, arith}
use smart_npc.Prelude.Lists.{All}
use smart_npc.Strategic.Jitter.{at_least, shift_rest, shift_nodes}

-- Shifted nodes whose places rise by 30 at least, from `low` on.
abbrev pub Spaced : ℕ → List (ℕ × ℕ) → Type 0
Spaced low [] = Unit
Spaced low ((n, j) ∷ rest) = (low ≤ j) × Spaced (j + 30) rest

-- Nodes that are 30 + 2 * max_jitter apart.
abbrev pub WideApart : ℕ → ℕ → List ℕ → Type 0
WideApart max_jitter low [] = Unit
WideApart max_jitter low (n ∷ ns) = (low ≤ n) × WideApart max_jitter (n + 30 + 2 * max_jitter) ns

abbrev pub Near : ℕ → ℕ × ℕ → Type 0
Near max_jitter (n, j) = (n ≤ j + max_jitter) × (j ≤ n + max_jitter)

shift_rest-Spaced :
    (draw : ℕ → ℕ) (max_jitter i prev : ℕ) (ns : List ℕ)
    → Spaced (prev + 30) (shift_rest draw max_jitter i prev ns)
unfolding shift_rest
shift_rest-Spaced draw max_jitter i prev [] = tt
shift_rest-Spaced draw max_jitter i prev (n ∷ ns) = (
  ground arith,
  shift_rest-Spaced draw max_jitter (i + 1) (at_least (prev + 30) (n + draw i - max_jitter)) ns,
)

shift_rest-Near :
    (draw : ℕ → ℕ) (max_jitter i prev m : ℕ) (ns : List ℕ)
    → ((k : ℕ) → draw k ≤ 2 * max_jitter)
    → prev ≤ m + max_jitter
    → WideApart max_jitter (m + 30 + 2 * max_jitter) ns
    → All (Near max_jitter) (shift_rest draw max_jitter i prev ns)
unfolding shift_rest
shift_rest-Near draw max_jitter i prev m [] d h w = tt
shift_rest-Near draw max_jitter i prev m (n ∷ ns) d h w =
    let j = at_least (prev + 30) (n + draw i - max_jitter) in
    let b = d i in
    let near : j ≤ n + max_jitter = ground (arith, w.0, b) in
    ((ground (arith, w.0, b), near), shift_rest-Near draw max_jitter (i + 1) j n ns d near w.1)

-- The shifted nodes of a plan rise by 30 minutes at least, the first is not before `min_start`, and
-- no node moves by more than `max_jitter` where the nodes are 30 + 2 * max_jitter apart and the
-- first is not before `min_start`. The draws are at most 2 * max_jitter.
pub shift_nodes_lem :
    (draw : ℕ → ℕ) (max_jitter min_start : ℕ) (ns : List ℕ)
    → ((k : ℕ) → draw k ≤ 2 * max_jitter)
    → Spaced min_start (shift_nodes draw max_jitter min_start ns)
      × (WideApart max_jitter min_start ns
          → All (Near max_jitter) (shift_nodes draw max_jitter min_start ns))
unfolding shift_nodes
shift_nodes_lem draw max_jitter min_start [] d = (tt, λ w. tt)
shift_nodes_lem draw max_jitter min_start (n ∷ ns) d =
    let j = at_least min_start (n + draw 0 - max_jitter) in
    let b = d 0 in
    (
      (ground arith, shift_rest-Spaced draw max_jitter 1 j ns),
      λ w.
          let near : j ≤ n + max_jitter = ground (arith, w.0, b) in
          ((ground (arith, w.0, b), near), shift_rest-Near draw max_jitter 1 j n ns d near w.1),
    )

-- The second of two nodes that are less than 30 apart moves by more than `max_jitter` where the
-- first is drawn to the far end, whatever the second draw is. The first is not before `min_start`.
pub shift_beyond_jitter :
    (draw : ℕ → ℕ) (max_jitter min_start n m : ℕ) (ns : List ℕ)
    → draw 0 ≡ 2 * max_jitter
    → min_start ≤ n
    → m < n + 30
    → (j : ℕ) × (k : ℕ) × (shift_nodes draw max_jitter min_start (n ∷ m ∷ ns)
        ≡ (n, j) ∷ (m, k) ∷ shift_rest draw max_jitter 2 k ns)
      × (m + max_jitter < k)
unfolding shift_nodes shift_rest
shift_beyond_jitter draw max_jitter min_start n m ns d h close =
    let j = at_least min_start (n + draw 0 - max_jitter) in
    let k = at_least (j + 30) (m + draw 1 - max_jitter) in (j, k, refl, ground (arith, d))
