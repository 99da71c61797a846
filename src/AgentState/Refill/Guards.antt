-- ===== src/AgentState/Refill/Guards.antt =====
-- When a tactical decomposition may start, and what it takes with it.
use smart_npc.Prelude.{◌≤◌, ◌<◌, String, ◌≡◌, ◌≢◌, Bool, false, ◌⊎◌}
use smart_npc.Prelude.Lists.{length}
use smart_npc.Prelude.Int.{ℤ}
use smart_npc.AgentState.{AgentState}

module _ {F : Type 0} (goal slot : String) (idx : ℤ) (has_tactical_hc suppress : Bool)
    (a : AgentState F) where
  -- What makes a decomposition wait.
  abbrev pub IsBlocked : Type 0
  IsBlocked =
      (has_tactical_hc ≡ false)
      ⊎ (a.flight.current_action_id ≢ "")
      ⊎ (goal ≡ "")
      ⊎ ((slot ≡ a.persistent.schedule.current_slot)
          × ((0 < length a.flight.action_queue) ⊎ (3 ≤ a.redecompose_count)))
