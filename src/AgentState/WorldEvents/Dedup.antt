-- ===== src/AgentState/WorldEvents/Dedup.antt =====
-- Redelivered world events against the window of handled ids.
use smart_npc.Prelude.{
  ℕ, suc, ◌+◌, ◌≤◌, ◌<◌, String, ◌≡◌, ◌≢◌, refl, ◌∙◌, inl, inr, Bool, true, false, some, List, [],
  ◌∷◌, ◌++◌, eq_iff, arith,
}
use smart_npc.Prelude.Tests.{Bool-cases, ltb}
use smart_npc.Prelude.Lists.{length, length-append, All}
use smart_npc.Prelude.StringSet.{contains, contains-append}
use smart_npc.Protocol.{WorldEventPayload}
use smart_npc.AgentState.WorldEvents.{
  WorldEvents, Call, mark_seen, enqueue, stop, remove, made, enqueue_duplicate, evict_seen,
  remember, mark_world_event_seen, echo_world_event, enqueue_world_event, drain_world_events,
  clear_world_events, remove_queued_world_event, step, run, mark_cases,
}
use smart_npc.AgentState.WorldEvents.Bounds.{
  IsConsistent, step-IsConsistent, mark_world_event_seen-IsConsistent,
}
use mathlib.Core.List.{append_assoc}

-- `k` is in the window, with at most `n` younger ids.
pub record IsRecent (n : ℕ) (k : String) (fifo : List String) : Type 0 where
  pub older : List String
  pub younger : List String
  pub split : fifo ≡ older ++ k ∷ younger
  pub young : length younger ≤ n

-- The calls of a live session: all but `Stop`.
abbrev pub is_live : {F : Type 0} → Call F → Bool
is_live stop = false
is_live _ = true

-- The oldest id can go unless it is `k`, which has too few younger ones.
tail-IsRecent :
    (older younger : List String) (x : String) (xs : List String) (n : ℕ) (k : String)
    → x ∷ xs ≡ older ++ k ∷ younger
    → length younger ≤ n
    → n < length xs
    → IsRecent n k xs
tail-IsRecent [] younger x xs n k e y l = absurd (ground arith)
tail-IsRecent (o ∷ older) younger x xs n k e y l = record {
  older = older;
  younger = younger;
  split = cc;
  young = y;
}

snoc-IsRecent :
    (n : ℕ) (k event_id : String) (fifo : List String)
    → IsRecent n k fifo
    → IsRecent (suc n) k (fifo ++ event_id ∷ [])
snoc-IsRecent n k event_id fifo r = record {
  older = r.older;
  younger = r.younger ++ event_id ∷ [];
  split = rw (r.split, append_assoc);
  young = omega (arith, length-append r.younger (event_id ∷ []), r.young);
}

contains_of_IsRecent :
    {n : ℕ} (k : String) (fifo : List String) → IsRecent n k fifo → contains k fifo ≡ true
contains_of_IsRecent k fifo r =
    rw r.split (ground (arith, contains-append k r.older (k ∷ r.younger), eq_iff k k))

IsRecent-mono :
    (n : ℕ) (k : String) (fifo : List String) → IsRecent n k fifo → IsRecent (suc n) k fifo
IsRecent-mono n k fifo r = record {
  older = r.older;
  younger = r.younger;
  split = r.split;
  young = omega (arith, r.young);
}

module _ {F : Type 0} where
  evict_seen-IsRecent :
      (fifo : List String) (w : WorldEvents F) (n : ℕ) (k : String)
      → w.world_event_seen_fifo ≡ fifo
      → n ≤ 255
      → IsRecent n k fifo
      → IsRecent n k (evict_seen fifo w).world_event_seen_fifo
  unfolding evict_seen
  evict_seen-IsRecent [] w n k e small r = rw e r
  evict_seen-IsRecent (x ∷ xs) w n k e small r = elim (Bool-cases (ltb 256 (length (x ∷ xs)))) [
    | inl full ↦ rw full (tail-IsRecent r.older r.younger x xs n k r.split r.young (ground arith))
    | inr room ↦ rw (room, e) r
  ]

  -- One more id ages the others by one, and evicts only what has 255 younger ids.
  remember-IsRecent :
      (n : ℕ) (k event_id : String) (w : WorldEvents F)
      → n < 255
      → IsRecent n k w.world_event_seen_fifo
      → IsRecent (suc n) k (remember event_id w).world_event_seen_fifo
  unfolding remember
  remember-IsRecent n k event_id w small r =
      let fifo = w.world_event_seen_fifo in
      evict_seen-IsRecent (fifo ++ event_id ∷ []) _ (suc n) k refl (omega arith)
        (snoc-IsRecent n k event_id fifo r)

  mark-IsRecent :
      (n : ℕ) (k event_id : String) (w : WorldEvents F)
      → n < 255
      → IsRecent n k w.world_event_seen_fifo
      → IsRecent (suc n) k (mark_world_event_seen event_id w).0.world_event_seen_fifo
  mark-IsRecent n k event_id w small r =
      let old = IsRecent-mono n k w.world_event_seen_fifo r in
      mark_cases (λ m. IsRecent (suc n) k m.0.world_event_seen_fifo) event_id w (λ _. old)
        (λ _ _. old) (λ _ _. remember-IsRecent n k event_id w small r)

  seen-remove_queued_world_event :
      (event_id : String) (w : WorldEvents F)
      → (remove_queued_world_event event_id w).0.world_event_seen_fifo ≡ w.world_event_seen_fifo
  unfolding remove_queued_world_event
  seen-remove_queued_world_event event_id w = ground arith

  seen-enqueue_world_event :
      (ev : WorldEventPayload F) (w : WorldEvents F)
      → (enqueue_world_event ev w).0.world_event_seen_fifo
        ≡ (mark_world_event_seen ev.event_id w).0.world_event_seen_fifo
  unfolding enqueue_world_event echo_world_event
  seen-enqueue_world_event ev w = ground arith

  step-IsRecent :
      (n : ℕ) (k : String) (w : WorldEvents F) (c : Call F)
      → n < 255
      → is_live c ≡ true
      → IsRecent n k w.world_event_seen_fifo
      → IsRecent (suc n) k (step w c).world_event_seen_fifo
  unfolding step echo_world_event drain_world_events clear_world_events
  step-IsRecent n k w (mark_seen event_id) small l r = mark-IsRecent n k event_id w small r
  step-IsRecent n k w (enqueue ev) small l r =
      rw (seen-enqueue_world_event ev w) (mark-IsRecent n k ev.event_id w small r)
  step-IsRecent n k w (remove event_id) small l r =
      rw (seen-remove_queued_world_event event_id w) (IsRecent-mono n k w.world_event_seen_fifo r)
  step-IsRecent n k w stop small l r = cc
  step-IsRecent n k w _ small l r = IsRecent-mono n k w.world_event_seen_fifo r

  run-IsRecent :
      (n : ℕ) (k : String) (w : WorldEvents F) (cs : List (Call F))
      → n + length cs ≤ 255
      → All (λ c. is_live c ≡ true) cs
      → IsConsistent w
      → IsRecent n k w.world_event_seen_fifo
      → contains k (made (run w cs).world_event_seen) ≡ true
  unfolding run
  run-IsRecent n k w [] small l v r =
      v.window.agree k ∙ contains_of_IsRecent k w.world_event_seen_fifo r
  run-IsRecent n k w (c ∷ cs) small l v r =
      run-IsRecent (suc n) k (step w c) cs (omega arith) l.1 (step-IsConsistent w c v)
        (step-IsRecent n k w c (omega arith) l.0 r)

  marked-IsRecent :
      (k : String) (w : WorldEvents F)
      → k ≢ ""
      → (mark_world_event_seen k w).1 ≡ true
      → IsRecent 0 k (mark_world_event_seen k w).0.world_event_seen_fifo
  marked-IsRecent k w named fresh =
      mark_cases (λ m. m.1 ≡ true → IsRecent 0 k m.0.world_event_seen_fifo) k w
        (λ e _. absurd (named e)) (λ _ _ e. cc) (λ _ _ _. marked) fresh
    where
      marked : IsRecent 0 k (remember k w).world_event_seen_fifo
      marked =
          unfold remember in
          evict_seen-IsRecent (w.world_event_seen_fifo ++ k ∷ []) _ 0 k refl (omega arith) (record {
            older = w.world_event_seen_fifo;
            younger = [];
            split = refl;
            young = omega arith;
          })

  mark_of_contains :
      (k : String) (w : WorldEvents F)
      → k ≢ ""
      → contains k (made w.world_event_seen) ≡ true
      → mark_world_event_seen k w
        ≡ (record w { world_event_seen = some (made w.world_event_seen) }, false)
  unfolding mark_world_event_seen
  mark_of_contains k w named seen = ground (arith, eq_iff k "")

  -- An event whose non-empty id was marked as fresh in a consistent state, by the queue or by the
  -- force path, is a duplicate for the next 255 calls that are not `Stop`: delivered once more, it
  -- is refused by either path and the queue stays as it is.
  pub replay_is_dropped :
      (w : WorldEvents F) (ev : WorldEventPayload F) (cs : List (Call F))
      → IsConsistent w
      → ev.event_id ≢ ""
      → (mark_world_event_seen ev.event_id w).1 ≡ true
      → length cs ≤ 255
      → All (λ c. is_live c ≡ true) cs
      → let w' = run (mark_world_event_seen ev.event_id w).0 cs in
        ((enqueue_world_event ev w').1 ≡ enqueue_duplicate)
        × ((enqueue_world_event ev w').0.world_event_queue ≡ w'.world_event_queue)
        × ((mark_world_event_seen ev.event_id w').1 ≡ false)
  unfolding enqueue_world_event
  replay_is_dropped w ev cs v named fresh few live =
      let w₁ = (mark_world_event_seen ev.event_id w).0 in
      let seen =
        run-IsRecent 0 ev.event_id w₁ cs (omega arith) live
          (mark_world_event_seen-IsConsistent ev.event_id w v)
          (marked-IsRecent ev.event_id w named fresh) in
      let again = mark_of_contains ev.event_id (run w₁ cs) named seen in
      (rw again, rw again, rw again)
