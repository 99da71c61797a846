-- ===== src/AgentState/Flight/Completion.antt =====
-- `RecordActionCompletion` of agent_state.go, against the stop points.
use smart_npc.Prelude.{ℕ, String, ◌≡◌, ◌≢◌, true, false, none, ◌⊎◌, str_eq, eq_iff, arith, ◌||◌, []}
use smart_npc.Prelude.Tests.{if◌then◌else◌}
use smart_npc.Protocol.{Params}
use smart_npc.AgentState.Flight.{
  ActionSource, no_source, Flight, current_info, record_action_started, record_action_interrupted,
  record_action_ended_by_schedule, stash_matches, record_action_completion,
  clear_in_flight_keep_queue, clear_flight,
}

module _ {F : Type 0} (f : Flight F) (action_id : String) where
  -- An interrupted action is handed over: when a stop point records the reason and empties the
  -- in-flight fields, the late `interrupted` completion still reports the whole action, is known
  -- as our own stop, keeps the recorded reason and task, uses the stash up, and leaves the queue.
  pub interrupted_handover :
      (task reason why : String)
      → action_id ≢ ""
      → f.current_action_id ≡ action_id
      → let g = (clear_in_flight_keep_queue (record_action_interrupted task reason f)).0 in
        let (h, r) = record_action_completion action_id "interrupted" why g in
        (g.current_action_id ≡ "")
        × (r.was_in_flight ≡ true)
        × (r.was_expected_interrupt ≡ true)
        × (r.info ≡ current_info f)
        × (h.last_end_result ≡ "interrupted")
        × (h.last_end_why ≡ reason)
        × (h.last_end_interrupted ≡ false)
        × (h.unfinished_task ≡ task)
        × (h.cleared_action ≡ none)
        × (h.action_queue ≡ f.action_queue)
  unfolding clear_in_flight_keep_queue record_action_interrupted record_action_completion
  interrupted_handover task reason why named flying = ground (
    arith,
    eq_iff f.current_action_id action_id,
    eq_iff f.current_action_id "",
    eq_iff "" action_id,
  )

  -- The slot boundary: the late completion of an action that ended by schedule, once the queue was
  -- cleared too, still reports the whole action and is known as planned; the end stays
  -- "scheduled", and the task stays recorded.
  pub scheduled_handover :
      (task why : String)
      → action_id ≢ ""
      → f.current_action_id ≡ action_id
      → let g = (clear_flight (record_action_ended_by_schedule task f)).0 in
        let (h, r) = record_action_completion action_id "interrupted" why g in
        (g.action_queue ≡ [])
        × (r.was_in_flight ≡ true)
        × (r.was_expected_interrupt ≡ true)
        × (r.info ≡ current_info f)
        × (h.last_end_result ≡ "scheduled")
        × (h.last_end_why ≡ "")
        × (h.unfinished_task ≡ task)
        × (h.cleared_action ≡ none)
  unfolding clear_flight record_action_ended_by_schedule record_action_completion
  scheduled_handover task why named flying = ground (
    arith,
    eq_iff f.current_action_id action_id,
    eq_iff f.current_action_id "",
    eq_iff "" action_id,
  )

  -- A completion is reported as in flight exactly for the current action and for a stashed one.
  -- Any other leaves the in-flight fields, the stash and the queue as they were.
  pub completion_cases :
      (result why : String)
      → let (h, r) = record_action_completion action_id result why f in
        (r.was_in_flight
          ≡ (str_eq f.current_action_id action_id || stash_matches action_id f.cleared_action))
        × (h.action_queue ≡ f.action_queue)
        × ((r.was_in_flight ≡ true)
            ⊎ ((current_info h ≡ current_info f) × (h.cleared_action ≡ f.cleared_action)))
  unfolding record_action_completion
  completion_cases result why = ground arith

  -- A completion reports each of the two stop markers exactly when it names the completed action,
  -- and only then takes the mark away.
  pub completion_markers :
      (result why : String)
      → let (h, r) = record_action_completion action_id result why f in
        (r.was_pending_stop ≡ str_eq f.pending_stop_action_id action_id)
        × (r.was_self_stop ≡ str_eq f.self_stop_in_progress action_id)
        × (h.pending_stop_action_id
            ≡ (if str_eq f.pending_stop_action_id action_id then "" else f.pending_stop_action_id))
        × (h.self_stop_in_progress
            ≡ (if str_eq f.self_stop_in_progress action_id then "" else f.self_stop_in_progress))
  unfolding record_action_completion
  completion_markers result why = ground arith

  -- A stopped action's late completion empties the source of the action that was started
  -- meanwhile: its other fields stay.
  pub late_completion_wipes_source :
      (next cmd tool_call_id result why : String) (params : Params F) (src : ActionSource) (now : ℕ)
      (game : F)
      → action_id ≢ ""
      → f.current_action_id ≡ action_id
      → next ≢ action_id
      → let g = (clear_in_flight_keep_queue f).0 in
        let started = record_action_started next cmd params src tool_call_id now game g in
        let (h, r) = record_action_completion action_id result why started in
        (started.current_action_src ≡ src)
        × (r.info ≡ current_info f)
        × (current_info h ≡ record (current_info started) { src = no_source })
  unfolding clear_in_flight_keep_queue record_action_started record_action_completion
  late_completion_wipes_source next cmd tool_call_id result why params src now game named flying
        ne =
      ground (
        arith,
        eq_iff f.current_action_id action_id,
        eq_iff f.current_action_id "",
        eq_iff next action_id,
      )

  -- A stop point's announcement outlives an action that ends otherwise: when the announced action
  -- completes with another result, the next action's unannounced interruption is taken for our own
  -- stop, and neither its result nor its reason is recorded.
  pub stale_announcement :
      (task reason result why next cmd tool_call_id why' : String) (params : Params F)
      (src : ActionSource) (now : ℕ) (game : F)
      → action_id ≢ ""
      → f.current_action_id ≡ action_id
      → result ≢ "interrupted"
      → result ≢ ""
      → let announced = record_action_interrupted task reason f in
        let ended = (record_action_completion action_id result why announced).0 in
        let started = record_action_started next cmd params src tool_call_id now game ended in
        let (h, r) = record_action_completion next "interrupted" why' started in
        (r.was_in_flight ≡ true)
        × (r.was_expected_interrupt ≡ true)
        × (h.last_end_result ≡ result)
        × (h.last_end_why ≡ why)
  unfolding record_action_interrupted record_action_started record_action_completion
  stale_announcement task reason result why next cmd tool_call_id why' params src now game named
        flying ne some_result =
      ground (
        arith,
        eq_iff f.current_action_id action_id,
        eq_iff f.current_action_id "",
        eq_iff next next,
        eq_iff result "interrupted",
        eq_iff result "",
      )
