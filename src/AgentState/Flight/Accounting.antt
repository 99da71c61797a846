-- ===== src/AgentState/Flight/Accounting.antt =====
-- Starts and completion reports of one action id, over a history of the calls of agent_state.go.
use smart_npc.Prelude.{
  ℕ, ◌+◌, ◌≤◌, String, ◌≡◌, ◌≢◌, refl, false, Option, none, some, List, [], ◌∷◌, str_eq, eq_iff,
  arith, inl, inr,
}
use mathlib.Core.Path.{subst}
use smart_npc.Prelude.Tests.{if◌then◌else◌, Bool-cases}
use smart_npc.Protocol.{ActionQueuedPayload}
use smart_npc.AgentState.Flight.{
  ActionInfo, Flight, stash_matches, record_action_started, record_action_interrupted,
  record_action_ended_by_schedule, record_action_completion, record_queue_status,
  clear_in_flight_action, set_pending_stop_action_id, set_self_stop_in_progress,
  clear_in_flight_keep_queue, clear_flight, finish_task, record_end, take_action,
}

-- The calls that change the in-flight bookkeeping.
pub data FlightCall (F : Type 0) : Type 0 where
  start : ActionInfo F → F → FlightCall F
  interrupted : String → String → FlightCall F
  ended_by_schedule : String → FlightCall F
  complete : String → String → String → FlightCall F
  queue_status : ActionQueuedPayload F → ℕ → FlightCall F
  drop_stale pending_stop self_stop : String → FlightCall F
  keep_queue clear_all : FlightCall F

module _ {F : Type 0} where
  pub flight_step : Flight F → FlightCall F → Flight F
  flight_step f (start i game) =
      record_action_started i.action_id i.cmd i.params i.src i.tool_call_id i.start game f
  flight_step f (interrupted task reason) = record_action_interrupted task reason f
  flight_step f (ended_by_schedule task) = record_action_ended_by_schedule task f
  flight_step f (complete action_id result reason) =
      (record_action_completion action_id result reason f).0
  flight_step f (queue_status payload now) = record_queue_status payload now f
  flight_step f (drop_stale action_id) = clear_in_flight_action action_id f
  flight_step f (pending_stop id) = set_pending_stop_action_id id f
  flight_step f (self_stop id) = set_self_stop_in_progress id f
  flight_step f keep_queue = (clear_in_flight_keep_queue f).0
  flight_step f clear_all = (clear_flight f).0

  -- Does the call report action `k` as in flight?
  abbrev reports : String → Flight F → FlightCall F → ℕ
  reports k f (complete action_id result reason) =
      if str_eq action_id k
      then if (record_action_completion action_id result reason f).1.was_in_flight then 1 else 0
      else 0
  reports k f _ = 0

  abbrev starts : String → FlightCall F → ℕ
  starts k (start i game) = if str_eq i.action_id k then 1 else 0
  starts k _ = 0

  pub count_reports : String → Flight F → List (FlightCall F) → ℕ
  count_reports k f [] = 0
  count_reports k f (c ∷ cs) = reports k f c + count_reports k (flight_step f c) cs

  pub count_starts : String → List (FlightCall F) → ℕ
  count_starts k [] = 0
  count_starts k (c ∷ cs) = starts k c + count_starts k cs

  -- How often the bookkeeping holds the action: as the current one, and as the stash.
  abbrev pub held : String → Flight F → ℕ
  held k f =
      (if str_eq f.current_action_id k then 1 else 0)
      + (if stash_matches k f.cleared_action then 1 else 0)

  held-take_action :
      (k action_id : String) (f : Flight F) (stash : Option (ActionInfo F))
      → k ≢ ""
      → f.cleared_action ≡ stash
      → let r = take_action action_id f in
        held k r.0 + (if str_eq action_id k then if r.1 then 1 else 0 else 0) ≤ held k f
  unfolding take_action
  held-take_action k action_id f none named e =
      ground (arith, eq_iff f.current_action_id action_id, eq_iff action_id k, eq_iff "" k)
  held-take_action k action_id f (some c) named e =
      elim (Bool-cases (str_eq f.current_action_id action_id)) [
        | inl now ↦
            rw (now, take_action)
              (ground
                (arith, eq_iff f.current_action_id action_id, eq_iff action_id k, eq_iff "" k))
        | inr late ↦
            rw (late, take_action)
              (rw (e, take_action)
                (ground
                  (arith, eq_iff c.action_id action_id, eq_iff c.action_id k, eq_iff action_id k)))
      ]

  held-record_end :
      (k result reason : String) (f : Flight F) → held k (record_end result reason f) ≡ held k f
  unfolding record_end
  held-record_end k result reason f = ground arith

  held-record_action_completion :
      (k action_id result reason : String) (f : Flight F)
      → k ≢ ""
      → let (g, r) = record_action_completion action_id result reason f in
        held k g + (if str_eq action_id k then if r.was_in_flight then 1 else 0 else 0) ≤ held k f
  unfolding record_action_completion
  held-record_action_completion k action_id result reason f named =
      let e = record f { current_task = finish_task action_id f.current_task } in
      let ended = record_end result reason e in
      subst
        (λ n.
          held k (take_action action_id ended).0
            + (if str_eq action_id k then if (take_action action_id ended).1 then 1 else 0 else 0)
          ≤ n)
        (held-record_end k result reason e)
        (held-take_action k action_id ended ended.cleared_action named refl)

  held-step :
      (k : String) (f : Flight F) (c : FlightCall F)
      → k ≢ ""
      → held k (flight_step f c) + reports k f c ≤ held k f + starts k c
  unfolding flight_step
  held-step k f (start i game) named = unfold record_action_started in ground arith
  held-step k f (interrupted task reason) named = unfold record_action_interrupted in ground arith
  held-step k f (ended_by_schedule task) named =
      unfold record_action_ended_by_schedule in ground arith
  held-step k f (complete action_id result reason) named =
      omega (arith, held-record_action_completion k action_id result reason f named)
  held-step k f (queue_status payload now) named = unfold record_queue_status in ground arith
  held-step k f (drop_stale action_id) named =
      unfold clear_in_flight_action in ground (arith, eq_iff "" k)
  held-step k f keep_queue named = unfold clear_in_flight_keep_queue in ground (arith, eq_iff "" k)
  held-step k f clear_all named = unfold clear_flight in ground (arith, eq_iff "" k)
  held-step k f (pending_stop id) named = unfold set_pending_stop_action_id in omega arith
  held-step k f (self_stop id) named = unfold set_self_stop_in_progress in omega arith

  reports-le-starts :
      (k : String) (f : Flight F) (cs : List (FlightCall F))
      → k ≢ ""
      → count_reports k f cs ≤ held k f + count_starts k cs
  unfolding count_reports count_starts
  reports-le-starts k f [] named = omega arith
  reports-le-starts k f (c ∷ cs) named =
      omega (arith, held-step k f c named, reports-le-starts k (flight_step f c) cs named)

  -- For a non-empty action id that is neither current nor stashed, every history of calls reports
  -- the action as completed in flight at most as often as it was started.
  pub reported_at_most_once_per_start :
      (k : String) (f : Flight F) (cs : List (FlightCall F))
      → k ≢ ""
      → f.current_action_id ≢ k
      → stash_matches k f.cleared_action ≡ false
      → count_reports k f cs ≤ count_starts k cs
  reported_at_most_once_per_start k f cs named other no_stash =
      ground (arith, reports-le-starts k f cs named, eq_iff f.current_action_id k)
