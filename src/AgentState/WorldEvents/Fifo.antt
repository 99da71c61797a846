-- ===== src/AgentState/WorldEvents/Fifo.antt =====
-- The event queue against a bounded FIFO.
use smart_npc.Prelude.{
  suc, ◌-◌, ◌≤◌, String, ◌≡◌, ◌≢◌, refl, sym, ap, ◌∙◌, inl, inr, true, false, List, [], ◌∷◌, ◌++◌,
  map, eq_iff, arith,
}
use smart_npc.Prelude.Tests.{Bool-cases, leb, if◌then◌else◌}
use smart_npc.Prelude.Lists.{length, length-append, drop_at, All}
use smart_npc.Prelude.StringSet.{contains, contains-insert, contains-delete}
use smart_npc.Protocol.{WorldEventPayload}
use smart_npc.AgentState.WorldEvents.{
  WorldEvents, Call, enqueue, made, tail, evict_seen, remember, mark_world_event_seen,
  echo_world_event, enqueue_world_event, drain_world_events, step, run,
}
use smart_npc.AgentState.WorldEvents.Bounds.{
  IsConsistent, IsDistinct, step-IsConsistent, queue-remember,
}
use smart_npc.Prelude.KeepLast.{keep_last, keep_last-append, keep_last-short}
use mathlib.Core.List.{append_assoc, append-nil}

module _ {F : Type 0} where
  room-eq-keep_last :
      (q : List (WorldEventPayload F)) (ev : WorldEventPayload F)
      → length q ≤ 64
      → (if leb 64 (length q) then tail q else q) ++ ev ∷ [] ≡ keep_last 64 (q ++ ev ∷ [])
  room-eq-keep_last [] ev h = refl
  room-eq-keep_last (x ∷ q) ev h = elim (Bool-cases (leb 64 (suc (length q)))) [
    | inl full ↦ rw full (
        drop_at 1 (length (x ∷ q ++ ev ∷ []) - 64) (x ∷ q ++ ev ∷ [])
          (ground (arith, length-append q (ev ∷ []))))
    | inr room ↦ rw room (
        drop_at 0 (length (x ∷ q ++ ev ∷ []) - 64) (x ∷ q ++ ev ∷ [])
          (ground (arith, length-append q (ev ∷ []))))
  ]

  abbrev pub arrivals : List (WorldEventPayload F) → List (Call F)
  arrivals = map enqueue

  -- No id is empty, stands twice, or was seen before.
  abbrev pub IsNews : List (WorldEventPayload F) → WorldEvents F → Type 0
  IsNews evs w =
      All (λ ev. (ev.event_id ≢ "") × (contains ev.event_id (made w.world_event_seen) ≡ false)) evs
      × IsDistinct (map (λ ev. ev.event_id) evs)

  echo-queue :
      (ev : WorldEventPayload F) (w : WorldEvents F)
      → length w.world_event_queue ≤ 64
      → (echo_world_event ev w).world_event_queue ≡ keep_last 64 (w.world_event_queue ++ ev ∷ [])
  unfolding echo_world_event
  echo-queue ev w h = room-eq-keep_last w.world_event_queue ev h

  evict_seen_other :
      (k : String) (fifo : List String) (w : WorldEvents F)
      → contains k (made w.world_event_seen) ≡ false
      → contains k (made (evict_seen fifo w).world_event_seen) ≡ false
  unfolding evict_seen
  evict_seen_other k [] w h = h
  evict_seen_other k (x ∷ xs) w h = ground (arith, contains-delete k x (made w.world_event_seen), h)

  remember_other :
      (k event_id : String) (w : WorldEvents F)
      → k ≢ event_id
      → contains k (made w.world_event_seen) ≡ false
      → contains k (made (remember event_id w).world_event_seen) ≡ false
  unfolding remember
  remember_other k event_id w ne h =
      evict_seen_other k (w.world_event_seen_fifo ++ event_id ∷ []) _
        (ground (arith, contains-insert k event_id (made w.world_event_seen), eq_iff event_id k, h))

  mark_of_news :
      (k : String) (w : WorldEvents F)
      → k ≢ ""
      → contains k (made w.world_event_seen) ≡ false
      → mark_world_event_seen k w ≡ (remember k w, true)
  unfolding mark_world_event_seen
  mark_of_news k w named new = ground (arith, eq_iff k "")

  enqueue_of_news :
      (ev : WorldEventPayload F) (w : WorldEvents F)
      → ev.event_id ≢ ""
      → contains ev.event_id (made w.world_event_seen) ≡ false
      → (enqueue_world_event ev w).0 ≡ echo_world_event ev (remember ev.event_id w)
  unfolding enqueue_world_event
  enqueue_of_news ev w named new = rw (mark_of_news ev.event_id w named new)

  still_news :
      (k : String) (evs : List (WorldEventPayload F)) (w w' : WorldEvents F)
      → w'.world_event_seen ≡ (remember k w).world_event_seen
      → contains k (map (λ ev. ev.event_id) evs) ≡ false
      → All
          (λ ev. (ev.event_id ≢ "") × (contains ev.event_id (made w.world_event_seen) ≡ false))
          evs
      → All
          (λ ev. (ev.event_id ≢ "") × (contains ev.event_id (made w'.world_event_seen) ≡ false))
          evs
  still_news k [] w w' e d h = tt
  still_news k (ev ∷ evs) w w' e d h = (
    (
      h.0.0,
      rw e (remember_other ev.event_id k w (λ e. ground (arith, d, eq_iff ev.event_id k)) h.0.1),
    ),
    still_news k evs w w' e (ground arith) h.1,
  )

  seen-enqueue_of_news :
      (ev : WorldEventPayload F) (w : WorldEvents F)
      → ev.event_id ≢ ""
      → contains ev.event_id (made w.world_event_seen) ≡ false
      → (enqueue_world_event ev w).0.world_event_seen ≡ (remember ev.event_id w).world_event_seen
  unfolding echo_world_event
  seen-enqueue_of_news ev w named new = rw (enqueue_of_news ev w named new)

  queue-enqueue_of_news :
      (ev : WorldEventPayload F) (w : WorldEvents F)
      → IsConsistent w
      → ev.event_id ≢ ""
      → contains ev.event_id (made w.world_event_seen) ≡ false
      → (enqueue_world_event ev w).0.world_event_queue
        ≡ keep_last 64 (w.world_event_queue ++ ev ∷ [])
  queue-enqueue_of_news ev w v named new =
      let e = queue-remember ev.event_id w in
      rw (enqueue_of_news ev w named new) (
        echo-queue ev (remember ev.event_id w) (rw e v.queue_short)
        ∙ ap (λ p. keep_last 64 (p ++ ev ∷ [])) e)

  queue-run-arrivals :
      (evs : List (WorldEventPayload F)) (w : WorldEvents F)
      → IsConsistent w
      → IsNews evs w
      → (run w (arrivals evs)).world_event_queue ≡ keep_last 64 (w.world_event_queue ++ evs)
  unfolding run step
  queue-run-arrivals [] w v h =
      rw append-nil (sym (keep_last-short 64 w.world_event_queue v.queue_short))
  queue-run-arrivals (ev ∷ evs) w v h =
      let (named, new) = h.0.0 in
      let q = w.world_event_queue in
      let w₁ = (enqueue_world_event ev w).0 in
      let rest =
        still_news ev.event_id evs w w₁ (seen-enqueue_of_news ev w named new) h.1.0 h.0.1 in
      queue-run-arrivals evs w₁ (step-IsConsistent w (enqueue ev) v) (rest, h.1.1)
      ∙ ap (λ p. keep_last 64 (p ++ evs)) (queue-enqueue_of_news ev w v named new)
      ∙ keep_last-append 64 (q ++ ev ∷ []) evs
      ∙ ap (keep_last 64) (append_assoc q (ev ∷ []) evs)

  -- In a consistent state, after any number of arrivals with non-empty, pairwise different ids that
  -- the set does not hold, a drain returns the last 64 of what waited and arrived, in arrival
  -- order; it leaves the queue empty and the set of handled ids as it was.
  pub drain_arrivals :
      (evs : List (WorldEventPayload F)) (w : WorldEvents F)
      → IsConsistent w
      → IsNews evs w
      → let w' = run w (arrivals evs) in
        ((drain_world_events w').1 ≡ keep_last 64 (w.world_event_queue ++ evs))
        × ((drain_world_events w').0.world_event_queue ≡ [])
        × ((drain_world_events w').0.world_event_seen ≡ w'.world_event_seen)
  unfolding drain_world_events
  drain_arrivals evs w v h = (queue-run-arrivals evs w v h, refl, refl)
