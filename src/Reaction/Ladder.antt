-- ===== src/Reaction/Ladder.antt =====
-- Router decisions that interrupt reactions, over a sequence of events.
use smart_npc.Prelude.{ℕ, ◌+◌, ◌-◌, ◌≤◌, String, ◌≡◌, Bool, true, false, List, [], ◌∷◌, ◌⊎◌, arith}
use smart_npc.Prelude.Tests.{if◌then◌else◌}
use smart_npc.Prelude.Int.{ℤ, pos, pos_part, ◌≤ℤ◌}
use smart_npc.Float64.{Float64}
use smart_npc.Reaction.{
  Coordination, Motive, urgent, begin_reaction, router_decision, interrupt_guard,
}

-- The judge's score for an event, the game time then and the text of the event.
pub record Judged (F : Type 0) : Type 0 where
  pub score : ℤ
  pub now : F
  pub desc : String

module _ {F : Type 0} ⦃fl : Float64 F⦄ (span : F) (motive : Motive) where
  pub judge : Judged F → Coordination F → Coordination F × Bool
  judge e c = interrupt_guard span (router_decision e.score motive) e.now e.desc c

  pub count_interrupts : List (Judged F) → Coordination F → ℕ
  count_interrupts [] c = 0
  count_interrupts (e ∷ es) c =
      let (c', began) = judge e c in
      let rest = count_interrupts es c' in (if began then 1 else 0) + rest

module _ {F : Type 0} ⦃fl : Float64 F⦄ (span : F) where
  -- The steps that are left above the bar.
  abbrev left : Coordination F → ℕ
  left c = if c.reaction_active then 10 - pos_part c.reaction_severity else 11

  left-judge :
      (e : Judged F) (c : Coordination F)
      → pos 0 ≤ℤ c.reaction_severity
      → let (c', began) = judge span urgent e c in
        (left c' + (if began then 1 else 0) ≤ left c) × (pos 0 ≤ℤ c'.reaction_severity)
  unfolding judge interrupt_guard router_decision begin_reaction
  left-judge e c k = ground arith

  interrupts-le-left :
      (es : List (Judged F)) (c : Coordination F)
      → pos 0 ≤ℤ c.reaction_severity
      → count_interrupts span urgent es c ≤ left c
  unfolding count_interrupts
  interrupts-le-left [] c k = omega arith
  interrupts-le-left (e ∷ es) c k =
      let one = left-judge e c k in
      omega (arith, one.0, interrupts-le-left es (judge span urgent e c).0 one.1)

  -- Until the guard is lifted, and where its bar is not negative: however many events are judged
  -- urgent, with whatever scores, at most eleven of them interrupt, and at most ten where a
  -- reaction is active already.
  pub at_most_eleven_interrupts :
      (es : List (Judged F)) (c : Coordination F)
      → pos 0 ≤ℤ c.reaction_severity
      → (count_interrupts span urgent es c ≤ 11)
        × (count_interrupts span urgent es (record c { reaction_active = true }) ≤ 10)
  at_most_eleven_interrupts es c k =
      let any = interrupts-le-left es c k in
      let active = interrupts-le-left es (record c { reaction_active = true }) k in
      (ground (arith, any), omega (arith, active))

  -- No reaction is active, or one with the bar of a social exchange.
  abbrev pub IsCalm : Coordination F → Type 0
  IsCalm c = (c.reaction_active ≡ false) ⊎ (c.reaction_severity ≤ℤ pos 2)
