-- ===== src/Strategic/Jitter.antt =====
-- agenttown-mcp/cmd/agenttown-mcp/strategic.go: `jitterPlanNodes`, which shifts the nodes of a plan at random.
-- The draws of `rand.IntN(2*maxJitter+1)` are a function of the node's position. Minutes are natural
-- numbers: a shift below 0 is 0, which the two lower bounds of the code hide.
pub mod Spacing
use smart_npc.Prelude.{
  ℕ, zero, suc, ◌+◌, ◌-◌, Bool, true, false, Option, none, some, List, [], ◌∷◌, ◌&&◌,
}
use smart_npc.Prelude.Tests.{ltb, leb, ◌==◌, if◌then◌else◌}
use smart_npc.Slots.{split_plan_range, slot_range_minute}
use smart_npc.Strategic.{DailyPlanItem, with_range}

abbrev pub plan_jitter_minutes : ℕ
plan_jitter_minutes = 15

abbrev pub plan_jitter_min_gap : ℕ
plan_jitter_min_gap = 30

-- The sorted set of the nodes.
pub add_node : ℕ → List ℕ → List ℕ
add_node n [] = n ∷ []
add_node n (m ∷ ms) =
    let rest = add_node n ms in if n == m then m ∷ ms else if ltb n m then n ∷ m ∷ ms else m ∷ rest

pub nodes_of : List DailyPlanItem → List ℕ
unfolding add_node
nodes_of [] = []
nodes_of (it ∷ its) = elim (slot_range_minute it.time) [
  | none ↦ nodes_of its
  | some (s, e) ↦ add_node s (add_node e (nodes_of its))
]

-- The first node is not before `min_start`, and each other one not within the gap after the one
-- before, `prev`.
abbrev pub at_least : ℕ → ℕ → ℕ
at_least low j = if ltb j low then low else j

pub shift_rest : (ℕ → ℕ) → ℕ → ℕ → ℕ → List ℕ → List (ℕ × ℕ)
shift_rest draw max_jitter i prev [] = []
shift_rest draw max_jitter i prev (n ∷ ns) =
    let j = at_least (prev + plan_jitter_min_gap) (n + draw i - max_jitter) in
    (n, j) ∷ shift_rest draw max_jitter (i + 1) j ns

pub shift_nodes : (ℕ → ℕ) → ℕ → ℕ → List ℕ → List (ℕ × ℕ)
unfolding shift_rest
shift_nodes draw max_jitter min_start [] = []
shift_nodes draw max_jitter min_start (n ∷ ns) =
    let j = at_least min_start (n + draw 0 - max_jitter) in
    (n, j) ∷ shift_rest draw max_jitter 1 j ns

pub shift_of : ℕ → List (ℕ × ℕ) → Option ℕ
shift_of n [] = none
shift_of n ((m, j) ∷ rest) = let later = shift_of n rest in if m == n then some j else later

abbrev moved : Option ℕ → Option ℕ → DailyPlanItem → DailyPlanItem
moved (some s) (some e) it = with_range s e it
moved _ _ it = it

pub shift_item : List (ℕ × ℕ) → DailyPlanItem → DailyPlanItem
unfolding shift_of
shift_item shifts it = elim (split_plan_range it.time) [
  | none ↦ it
  | some (s, e) ↦ moved (shift_of s shifts) (shift_of (if leb e s then e + 1440 else e) shifts) it
]

pub shift_items : List (ℕ × ℕ) → List DailyPlanItem → List DailyPlanItem
shift_items shifts [] = []
shift_items shifts (it ∷ its) = shift_item shifts it ∷ shift_items shifts its

-- `jitterPlanNodes`
pub jitter_plan_nodes : (ℕ → ℕ) → List DailyPlanItem → ℕ → ℕ → List DailyPlanItem
jitter_plan_nodes draw items zero min_start = items
jitter_plan_nodes draw items (suc max) min_start =
    shift_items (shift_nodes draw (suc max) min_start (nodes_of items)) items
