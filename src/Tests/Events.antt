-- ===== src/Tests/Events.antt =====
-- World events, situations and perceptions.
use smart_npc.Prelude.{String, ◌≡◌, refl, false, List, [], ◌∷◌, ◌++◌, arith}
use smart_npc.Prelude.Int.{ℤ, pos}
use smart_npc.AgentState.WorldEvents.{
  WorldEvents, Call, mark_seen, enqueue, drain, no_events, mark_world_event_seen,
  enqueue_world_event, enqueue_duplicate, drain_world_events, run,
}
use smart_npc.AgentState.WorldEvents.Bounds.{IsConsistent, run-no_events-IsConsistent}
use smart_npc.AgentState.WorldEvents.Dedup.{replay_is_dropped}
use smart_npc.AgentState.WorldEvents.Fifo.{arrivals, drain_arrivals}
use smart_npc.AgentState.Situations.{ActiveSituation}
use smart_npc.Prelude.KeepLast.{keep_last}
use smart_npc.Tests.Data.{whole_seconds, differ, event}

abbrev empty : WorldEvents ℤ
empty = no_events

abbrev history : List (Call ℤ)
history = mark_seen "e1" ∷ enqueue (event "e2") ∷ enqueue (event "e2") ∷ drain ∷ []

run-no_events-IsConsistent_example : IsConsistent (run (no_events {F = ℤ}) history)
run-no_events-IsConsistent_example = run-no_events-IsConsistent history

replay_is_dropped_example :
    let w' = run (mark_world_event_seen "e1" empty).0 history in
    ((enqueue_world_event (event "e1") w').1 ≡ enqueue_duplicate)
    × ((enqueue_world_event (event "e1") w').0.world_event_queue ≡ w'.world_event_queue)
    × ((mark_world_event_seen "e1" w').1 ≡ false)
unfolding no_events mark_world_event_seen run
replay_is_dropped_example =
    replay_is_dropped empty (event "e1") history (run-no_events-IsConsistent [])
      (differ "e1" "" refl) refl (omega arith) (refl, (refl, (refl, (refl, tt))))

drain_arrivals_example :
    let w' = run empty (arrivals (event "e1" ∷ event "e2" ∷ [])) in
    ((drain_world_events w').1 ≡ keep_last 64 ([] ++ event "e1" ∷ event "e2" ∷ []))
    × ((drain_world_events w').0.world_event_queue ≡ [])
    × ((drain_world_events w').0.world_event_seen ≡ w'.world_event_seen)
unfolding no_events run
drain_arrivals_example =
    drain_arrivals (event "e1" ∷ event "e2" ∷ []) empty (run-no_events-IsConsistent [])
      (((differ "e1" "" refl, refl), ((differ "e2" "" refl, refl), tt)), (refl, (refl, tt)))

abbrev waiting : WorldEvents ℤ
waiting = record empty { world_event_queue = event "e1" ∷ event "e2" ∷ [] }

abbrev second : String
second = "e2"

abbrev combat : ActiveSituation ℤ
combat = record { kind = "combat"; desc = "H-03"; start_game_sec = pos 10 }

abbrev storm : ActiveSituation ℤ
storm = record { kind = "storm"; desc = ""; start_game_sec = pos 90 }
