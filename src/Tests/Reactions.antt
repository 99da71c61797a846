-- ===== src/Tests/Reactions.antt =====
-- The guard of a reaction.
use smart_npc.Prelude.{ℕ, ◌≤◌, true, false, [], ◌∷◌, arith}
use smart_npc.Prelude.Int.{ℤ, pos}
use smart_npc.Protocol.{decoded}
use smart_npc.AgentState.{AgentState}
use smart_npc.Reaction.{Coordination, no_kind, urgent}
use smart_npc.Reaction.Ladder.{Judged, count_interrupts, at_most_eleven_interrupts}
use smart_npc.Tests.Data.{whole_seconds, busy, fresh, agent, perceived}

abbrev pub guard : Coordination ℤ
guard = record {
  stopped = false;
  replan_in_progress = false;
  replan_kind = no_kind;
  reaction_active = true;
  reaction_severity = pos 4;
  reaction_deadline_game_sec = pos 90;
  reaction_desc = "attacked";
  reaction_social = false;
}

abbrev hit : ℕ → Judged ℤ
hit score = record { score = pos score; now = pos 100; desc = "hit" }

at_most_eleven_interrupts_example :
    (count_interrupts (pos 3600) urgent (hit 5 ∷ hit 5 ∷ hit 12 ∷ []) guard ≤ 11)
    × (count_interrupts
          (pos 3600)
          urgent
          (hit 5 ∷ hit 5 ∷ hit 12 ∷ [])
          (record guard { reaction_active = true })
        ≤ 10)
at_most_eleven_interrupts_example =
    at_most_eleven_interrupts (pos 3600) (hit 5 ∷ hit 5 ∷ hit 12 ∷ []) guard (omega arith)

abbrev chat : Coordination ℤ
chat = record guard { reaction_severity = pos 2; reaction_social = true }

abbrev pub reacting : AgentState ℤ
reacting = record agent {
  flight = busy;
  perception = record (fresh.perception) { latest_perception = decoded (perceived "home" (pos 2)) };
}
