-- ===== src/AgentState/WorldEvents/Bounds.antt =====
-- The invariant of the event queue, the set of handled ids and its FIFO.
use smart_npc.Prelude.{
  ◌≢◌, sym, ◌∙◌, inl, inr, suc, ◌≤◌, String, ◌≡◌, refl, false, Option, some, List, [], ◌∷◌, ◌++◌,
  eq_iff, arith,
}
use smart_npc.Prelude.Tests.{Bool-cases, Option-cases, ltb}
use smart_npc.Prelude.Lists.{length, length-append}
use smart_npc.Prelude.StringSet.{
  contains, insert, delete, contains-append, contains-insert, contains-delete,
}
use smart_npc.Protocol.{WorldEventPayload}
use smart_npc.AgentState.WorldEvents.{
  WorldEvents, Call, mark_seen, echo, enqueue, drain, clear, stop, remove, made, tail, no_events,
  evict_seen, remember, mark_world_event_seen, echo_world_event, enqueue_world_event,
  drain_world_events, clear_world_events, remove_first, remove_queued_world_event,
  forget_world_events, step, run, mark_cases,
}

-- No id stands twice in the window.
abbrev pub IsDistinct : List String → Type 0
IsDistinct [] = Unit {0}
IsDistinct (x ∷ xs) = (contains x xs ≡ false) × IsDistinct xs

pub IsDistinct-append :
    (k : String) (xs : List String)
    → IsDistinct xs
    → contains k xs ≡ false
    → IsDistinct (xs ++ k ∷ [])
IsDistinct-append k [] d h = (refl, tt)
IsDistinct-append k (x ∷ xs) d h =
    ground
      (arith, IsDistinct-append k xs d.1, contains-append x xs (k ∷ []), eq_iff x k, eq_iff k x)

-- The window `worldEventSeenFIFO` lists the ids of the map `worldEventSeen`.
pub record IsWindow (seen : Option (List String)) (fifo : List String) : Type 0 where
  pub short : length fifo ≤ 256
  pub distinct : IsDistinct fifo
  pub named : contains "" fifo ≡ false
  pub agree : (k : String) → contains k (made seen) ≡ contains k fifo

pub record IsConsistent {F : Type 0} (w : WorldEvents F) : Type 0 where
  pub queue_short : length w.world_event_queue ≤ 64
  pub window : IsWindow w.world_event_seen w.world_event_seen_fifo

-- Dropping the oldest id from the set and from the window keeps them in step.
agree-delete :
    (x : String) (xs seen : List String) (k : String)
    → contains x xs ≡ false
    → contains k seen ≡ contains k (x ∷ xs)
    → contains k (delete x seen) ≡ contains k xs
agree-delete x xs seen k d a = ground (arith, contains-delete k x seen, eq_iff x k)

agree-insert :
    (x : String) (xs seen : List String) (k : String)
    → contains k seen ≡ contains k xs
    → contains k (insert x seen) ≡ contains k (xs ++ x ∷ [])
agree-insert x xs seen k a = ground (arith, contains-insert k x seen, contains-append k xs (x ∷ []))

module _ {F : Type 0} where
  evict_seen-IsWindow :
      (fifo : List String) (w : WorldEvents F)
      → w.world_event_seen_fifo ≡ fifo
      → length fifo ≤ 257
      → IsDistinct fifo
      → contains "" fifo ≡ false
      → ((k : String) → contains k (made w.world_event_seen) ≡ contains k fifo)
      → let w' = evict_seen fifo w in IsWindow w'.world_event_seen w'.world_event_seen_fifo
  unfolding evict_seen
  evict_seen-IsWindow [] w e l d n a =
      rw e (record { short = omega arith; distinct = d; named = n; agree = a })
  evict_seen-IsWindow (x ∷ xs) w e l d n a = elim (Bool-cases (ltb 256 (length (x ∷ xs)))) [
    | inl full ↦ rw full (record {
      short = omega arith;
      distinct = d.1;
      named = ground arith;
      agree = λ k. agree-delete x xs (made w.world_event_seen) k d.0 (a k);
    })
    | inr room ↦ rw (room, e) (record { short = ground arith; distinct = d; named = n; agree = a })
  ]

  remember-IsWindow :
      (event_id : String) (w : WorldEvents F)
      → event_id ≢ ""
      → contains event_id (made w.world_event_seen) ≡ false
      → IsWindow w.world_event_seen w.world_event_seen_fifo
      → let w' = remember event_id w in IsWindow w'.world_event_seen w'.world_event_seen_fifo
  unfolding remember
  remember-IsWindow event_id w named fresh v =
      let fifo = w.world_event_seen_fifo in
      evict_seen-IsWindow (fifo ++ event_id ∷ []) _ refl
        (omega (arith, length-append fifo (event_id ∷ []), v.short))
        (IsDistinct-append event_id fifo v.distinct (sym (v.agree event_id) ∙ fresh))
        (ground (arith, contains-append "" fifo (event_id ∷ []), v.named, eq_iff event_id ""))
        (λ k. agree-insert event_id fifo (made w.world_event_seen) k (v.agree k))

  mark_world_event_seen-IsWindow :
      (event_id : String) (w : WorldEvents F)
      → IsWindow w.world_event_seen w.world_event_seen_fifo
      → let w' = (mark_world_event_seen event_id w).0 in
        IsWindow w'.world_event_seen w'.world_event_seen_fifo
  mark_world_event_seen-IsWindow event_id w v =
      mark_cases (λ r. IsWindow r.0.world_event_seen r.0.world_event_seen_fifo) event_id w (λ _. v)
        (λ _ _. record { short = v.short; distinct = v.distinct; named = v.named; agree = v.agree })
        (λ named fresh. remember-IsWindow event_id w named fresh v)

  queue-evict_seen :
      (fifo : List String) (w : WorldEvents F)
      → (evict_seen fifo w).world_event_queue ≡ w.world_event_queue
  unfolding evict_seen
  queue-evict_seen [] w = refl
  queue-evict_seen (x ∷ xs) w = ground arith

  pub queue-remember :
      (event_id : String) (w : WorldEvents F)
      → (remember event_id w).world_event_queue ≡ w.world_event_queue
  unfolding remember
  queue-remember event_id w = queue-evict_seen (w.world_event_seen_fifo ++ event_id ∷ []) _

  queue-mark_world_event_seen :
      (event_id : String) (w : WorldEvents F)
      → (mark_world_event_seen event_id w).0.world_event_queue ≡ w.world_event_queue
  queue-mark_world_event_seen event_id w =
      mark_cases (λ r. r.0.world_event_queue ≡ w.world_event_queue) event_id w (λ _. refl)
        (λ _ _. refl) (λ _ _. queue-remember event_id w)

  length-tail-append :
      (q : List (WorldEventPayload F)) (ev : WorldEventPayload F)
      → length q ≤ 64
      → length (tail q ++ ev ∷ []) ≤ 64
  length-tail-append [] ev h = omega arith
  length-tail-append (x ∷ q) ev h = omega (arith, length-append q (ev ∷ []))

  echo_world_event-IsConsistent :
      (ev : WorldEventPayload F) (w : WorldEvents F)
      → IsConsistent w
      → IsConsistent (echo_world_event ev w)
  unfolding echo_world_event
  echo_world_event-IsConsistent ev w v = record {
    queue_short =
        let q = w.world_event_queue in
        ground (arith, length-tail-append q ev, length-append q (ev ∷ []), v.queue_short);
    window = v.window;
  }

  pub mark_world_event_seen-IsConsistent :
      (event_id : String) (w : WorldEvents F)
      → IsConsistent w
      → IsConsistent (mark_world_event_seen event_id w).0
  mark_world_event_seen-IsConsistent event_id w v = record {
    queue_short = rw (queue-mark_world_event_seen event_id w) v.queue_short;
    window = mark_world_event_seen-IsWindow event_id w v.window;
  }

  length-remove_first :
      (event_id : String) (q r : List (WorldEventPayload F))
      → remove_first event_id q ≡ some r
      → length q ≡ suc (length r)
  unfolding remove_first
  length-remove_first event_id [] r h = cc
  length-remove_first event_id (ev ∷ q) r h = elim (Option-cases (remove_first event_id q)) [
    | inl e ↦ ground (arith, e)
    | inr (s, e) ↦ ground (arith, length-remove_first event_id q s e)
  ]

  remove_queued_world_event-IsConsistent :
      (event_id : String) (w : WorldEvents F)
      → IsConsistent w
      → IsConsistent (remove_queued_world_event event_id w).0
  unfolding remove_queued_world_event
  remove_queued_world_event-IsConsistent event_id w v =
      elim (Option-cases (remove_first event_id w.world_event_queue)) [
        | inl e ↦ ground (arith, e)
        | inr (r, e) ↦ ground (arith, e, length-remove_first event_id w.world_event_queue r e)
      ]

  enqueue_world_event-IsConsistent :
      (ev : WorldEventPayload F) (w : WorldEvents F)
      → IsConsistent w
      → IsConsistent (enqueue_world_event ev w).0
  unfolding enqueue_world_event
  enqueue_world_event-IsConsistent ev w v =
      let w' = (mark_world_event_seen ev.event_id w).0 in
      let v' = mark_world_event_seen-IsConsistent ev.event_id w v in
      elim (Bool-cases (mark_world_event_seen ev.event_id w).1) [
        | inl e ↦ rw e (echo_world_event-IsConsistent ev w' v')
        | inr e ↦ rw e v'
      ]

  pub step-IsConsistent :
      (w : WorldEvents F) (c : Call F) → IsConsistent w → IsConsistent (step w c)
  unfolding step drain_world_events clear_world_events forget_world_events
  step-IsConsistent w (mark_seen event_id) v = mark_world_event_seen-IsConsistent event_id w v
  step-IsConsistent w (echo ev) v = echo_world_event-IsConsistent ev w v
  step-IsConsistent w (enqueue ev) v = enqueue_world_event-IsConsistent ev w v
  step-IsConsistent w drain v = record { queue_short = omega arith; window = v.window }
  step-IsConsistent w clear v = record { queue_short = omega arith; window = v.window }
  step-IsConsistent w stop v = record {
    queue_short = omega arith;
    window = record { short = omega arith; distinct = tt; named = refl; agree = λ k. refl };
  }
  step-IsConsistent w (remove event_id) v = remove_queued_world_event-IsConsistent event_id w v

  run-IsConsistent :
      (w : WorldEvents F) (cs : List (Call F)) → IsConsistent w → IsConsistent (run w cs)
  unfolding run
  run-IsConsistent w [] v = v
  run-IsConsistent w (c ∷ cs) v = run-IsConsistent (step w c) cs (step-IsConsistent w c v)

  pub no_events-IsConsistent : IsConsistent (no_events {F = F})
  unfolding no_events
  no_events-IsConsistent = record {
    queue_short = omega arith;
    window = record { short = omega arith; distinct = tt; named = refl; agree = λ k. refl };
  }

  -- After every history of calls from a new agent the queue holds at most 64 events, and the window
  -- holds at most 256 distinct, non-empty ids, exactly those of the set of handled ids.
  pub run-no_events-IsConsistent : (cs : List (Call F)) → IsConsistent (run (no_events {F = F}) cs)
  run-no_events-IsConsistent cs = run-IsConsistent no_events cs no_events-IsConsistent
