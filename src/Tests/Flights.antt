-- ===== src/Tests/Flights.antt =====
-- The in-flight action, the queue and the clearing methods.
use smart_npc.Prelude.{String, ◌≡◌, refl, true, false, none, List, [], ◌∷◌, ◌≤◌}
use smart_npc.Prelude.Int.{ℤ, pos}
use smart_npc.AgentState.{AgentState}
use smart_npc.AgentState.Flight.{
  no_source, source_tool, current_info, record_action_started, record_action_interrupted,
  record_action_completion, clear_in_flight_keep_queue,
}
use smart_npc.AgentState.Flight.Completion.{
  interrupted_handover, late_completion_wipes_source, stale_announcement,
}
use smart_npc.AgentState.Flight.Accounting.{
  FlightCall, start, complete, keep_queue, count_reports, count_starts,
  reported_at_most_once_per_start,
}
use smart_npc.AgentState.ActionQueue.Dispatch.{QueueCall, append, dispatch, refused, in_flight}
use smart_npc.Tests.Data.{differ, speak, idle, busy, agent}

abbrev act : String
act = "act_1"

interrupted_handover_example :
    let g = (clear_in_flight_keep_queue (record_action_interrupted "work" "attacked" busy)).0 in
    let (h, r) = record_action_completion act "interrupted" "stopped" g in
    (g.current_action_id ≡ "")
    × (r.was_in_flight ≡ true)
    × (r.was_expected_interrupt ≡ true)
    × (r.info ≡ current_info busy)
    × (h.last_end_result ≡ "interrupted")
    × (h.last_end_why ≡ "attacked")
    × (h.last_end_interrupted ≡ false)
    × (h.unfinished_task ≡ "work")
    × (h.cleared_action ≡ none)
    × (h.action_queue ≡ busy.action_queue)
interrupted_handover_example =
    interrupted_handover busy act "work" "attacked" "stopped" (differ act "" refl) refl

late_completion_wipes_source_example :
    let g = (clear_in_flight_keep_queue busy).0 in
    let started = record_action_started "act_2" "MoveTo" none source_tool "call_3" 9 (pos 8) g in
    let (h, r) = record_action_completion act "interrupted" "stopped" started in
    (started.current_action_src ≡ source_tool)
    × (r.info ≡ current_info busy)
    × (current_info h ≡ record (current_info started) { src = no_source })
late_completion_wipes_source_example =
    late_completion_wipes_source busy act "act_2" "MoveTo" "call_3" "interrupted" "stopped" none
      source_tool 9 (pos 8) (differ act "" refl) refl (differ "act_2" act refl)

stale_announcement_example :
    let announced = record_action_interrupted "work" "attacked" busy in
    let ended = (record_action_completion act "success" "done" announced).0 in
    let started =
      record_action_started "act_2" "MoveTo" none source_tool "call_3" 9 (pos 8) ended in
    let (h, r) = record_action_completion "act_2" "interrupted" "pushed" started in
    (r.was_in_flight ≡ true)
    × (r.was_expected_interrupt ≡ true)
    × (h.last_end_result ≡ "success")
    × (h.last_end_why ≡ "done")
stale_announcement_example =
    stale_announcement busy act "work" "attacked" "success" "done" "act_2" "MoveTo" "call_3"
      "pushed" none source_tool 9 (pos 8) (differ act "" refl) refl
      (differ "success" "interrupted" refl) (differ "success" "" refl)

abbrev started_once : List (FlightCall ℤ)
started_once =
    start (current_info busy) (pos 3)
    ∷ keep_queue
    ∷ complete act "interrupted" ""
    ∷ complete act "success" ""
    ∷ []

reported_at_most_once_per_start_example :
    count_reports act idle started_once ≤ count_starts act started_once
reported_at_most_once_per_start_example =
    reported_at_most_once_per_start act idle started_once (differ act "" refl) (differ "" act refl)
      refl

abbrev worker : List (QueueCall ℤ)
worker = append speak ∷ dispatch ∷ in_flight act ∷ dispatch ∷ in_flight "" ∷ refused ∷ dispatch ∷ []

abbrev working : AgentState ℤ
working = record agent { flight = busy }
