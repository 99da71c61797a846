-- ===== src/AgentState/Refill/Budget.antt =====
-- How often `BeginTacticalRefill` lets one slot be decomposed.
use smart_npc.Prelude.{
  ℕ, ◌+◌, ◌-◌, ◌≤◌, String, Bool, true, false, List, [], ◌∷◌, str_eq, eq_iff, arith,
}
use smart_npc.Prelude.Tests.{if◌then◌else◌}
use smart_npc.Prelude.Int.{ℤ}
use smart_npc.AgentState.{AgentState}
use smart_npc.AgentState.Flight.{Flight}
use smart_npc.AgentState.Schedule.{write_through, persist_schedule}
use smart_npc.AgentState.Refill.{begin_tactical_refill, commit_tactical_refill}

-- One refill for the slot: what the in-flight fields and the queue are by then, and the arguments.
pub record Round (F : Type 0) : Type 0 where
  pub flight : Flight F
  pub goal : String
  pub index : ℤ
  pub has_tactical_hc : Bool
  pub suppress_auto_hint : Bool

module _ {F : Type 0} (slot : String) where
  -- A refill whose LLM call succeeds: guards, decomposition, commit.
  pub refill_round : Round F → AgentState F → AgentState F × Bool
  refill_round r a =
      let (b, prep) =
        begin_tactical_refill r.goal slot r.index r.has_tactical_hc r.suppress_auto_hint
          (record a { flight = r.flight }) in
      if prep.should_skip
      then (b, false)
      else (commit_tactical_refill slot r.index prep.is_redecompose b, true)

  pub count_decompositions : AgentState F → List (Round F) → ℕ
  count_decompositions a [] = 0
  count_decompositions a (r ∷ rs) =
      let (b, done) = refill_round r a in
      let rest = count_decompositions b rs in (if done then 1 else 0) + rest

  -- What is left of the slot's budget.
  abbrev left : AgentState F → ℕ
  left a = if str_eq slot a.persistent.schedule.current_slot then 3 - a.redecompose_count else 4

  left-refill_round :
      (r : Round F) (a : AgentState F)
      → let (b, done) = refill_round r a in left b + (if done then 1 else 0) ≤ left a
  unfolding refill_round begin_tactical_refill commit_tactical_refill write_through persist_schedule
  left-refill_round r a =
      ground (arith, eq_iff slot a.persistent.schedule.current_slot, eq_iff slot slot)

  decompositions-le-left :
      (a : AgentState F) (rs : List (Round F)) → count_decompositions a rs ≤ left a
  unfolding count_decompositions
  decompositions-le-left a [] = omega arith
  decompositions-le-left a (r ∷ rs) =
      omega (arith, left-refill_round r a, decompositions-le-left (refill_round r a).0 rs)

  -- However often the worker asks to refill one slot, and whatever happens to the in-flight action
  -- and the queue in between, at most four decompositions succeed: the first of the slot and three
  -- more.
  pub at_most_four_decompositions :
      (a : AgentState F) (rs : List (Round F)) → count_decompositions a rs ≤ 4
  at_most_four_decompositions a rs = ground (arith, decompositions-le-left a rs)
