-- ===== src/Dispatch/Handover.antt =====
-- The end of a yield to UE's combat AI.
use smart_npc.Prelude.{◌≡◌, ◌⊎◌, List, [], ◌∷◌, ◌++◌}
use smart_npc.Float64.{Float64}
use smart_npc.Reaction.{clear_reaction}
use smart_npc.Dispatch.Agent.{
  Handled, bridge_action, strategic_replan, wake, Texts, Context, stop_of,
}
use smart_npc.Dispatch.Yield.{end_combat_yield}
use smart_npc.Dispatch.Silence.{stops, owed}

module _ {F : Type 0} ⦃fl : Float64 F⦄ (t : Texts F) where
  -- Control is back: after a fight that began in `c` and went through `fight`, what `handed` says.
  abbrev pub Returned : Context F → Handled F → Handled F → Type 0
  Returned c fight handed =
      ((handed.0).yield ≡ end_combat_yield c.yield)
      × ((handed.0).coord ≡ clear_reaction c.coord)
      × ((handed.0).state.flight ≡ c.state.flight)
      × ((stops (fight.1 ++ handed.1) ≡ [])
          ⊎ (stops (fight.1 ++ handed.1) ≡ owed c.yield.prev_action_id))
      × (handed.1
          ≡ stop_of (fight.0).yield.prev_action_id ++ bridge_action ∷ wake ∷ strategic_replan ∷ [])
