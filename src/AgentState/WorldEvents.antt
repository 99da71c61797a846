-- ===== src/AgentState/WorldEvents.antt =====
-- agenttown-mcp/pkg/agentstate/world_event_queue.go, and `EchoWorldEvent` of active_situations.go:
-- the bounded queue of world events and the set of event ids that were handled.
-- The methods hold the mutex for their whole body, so each is one function on the three fields.
pub mod Bounds
pub mod Dedup
pub mod Fifo
pub mod Removal
use smart_npc.Prelude.{
  ℕ, String, Bool, true, false, Option, none, some, List, [], ◌∷◌, ◌++◌, str_eq, eq_iff, ◌≡◌, ◌≢◌,
  inl, inr,
}
use smart_npc.Prelude.Tests.{ltb, leb, Bool-cases, if◌then◌else◌}
use smart_npc.Prelude.Lists.{length}
use smart_npc.Prelude.StringSet.{contains, insert, delete}
use smart_npc.Protocol.{WorldEventPayload}

abbrev pub world_event_queue_cap : ℕ
world_event_queue_cap = 64

abbrev pub world_event_seen_cap : ℕ
world_event_seen_cap = 256

pub data EnqueueWorldEventResult : Type 0 where
  enqueue_ok enqueue_duplicate enqueue_evicted_oldest : EnqueueWorldEventResult

-- The fields of `AgentState` that belong to the queue. `none` is the nil map.
pub record WorldEvents (F : Type 0) : Type 0 where
  pub world_event_queue : List (WorldEventPayload F)
  pub world_event_seen : Option (List String)
  pub world_event_seen_fifo : List String

-- `if a.worldEventSeen == nil { … make … }`
abbrev pub made : Option (List String) → List String
made none = []
made (some s) = s

-- The oldest entry is dropped: `q = q[1:]`, on a slice that the caller knows is not empty.
abbrev pub tail {ℓ} : {A : Type ℓ} → List A → List A
tail [] = []
tail (x ∷ xs) = xs

-- The calls that change the fields.
pub data Call (F : Type 0) : Type 0 where
  mark_seen : String → Call F
  echo : WorldEventPayload F → Call F
  enqueue : WorldEventPayload F → Call F
  drain clear stop : Call F
  remove : String → Call F

module _ {F : Type 0} where
  -- `New`: an empty queue and an empty, made map.
  unfoldable pub no_events : WorldEvents F
  no_events = record {
    world_event_queue = [];
    world_event_seen = some [];
    world_event_seen_fifo = [];
  }

  -- The eviction when the window is full.
  evict_seen : List String → WorldEvents F → WorldEvents F
  evict_seen [] w = w
  evict_seen (evict ∷ rest) w =
      if ltb world_event_seen_cap (length (evict ∷ rest))
      then record w {
        world_event_seen_fifo = rest;
        world_event_seen = some (delete evict (made w.world_event_seen));
      }
      else w

  pub remember : String → WorldEvents F → WorldEvents F
  unfolding evict_seen
  remember event_id w =
      let fifo = w.world_event_seen_fifo ++ event_id ∷ [] in
      evict_seen fifo (record w {
        world_event_seen = some (insert event_id (made w.world_event_seen));
        world_event_seen_fifo = fifo;
      })

  -- `MarkWorldEventSeen`, and `markWorldEventSeenLocked` under it: is the id fresh?
  unfoldable pub mark_world_event_seen : String → WorldEvents F → WorldEvents F × Bool
  unfolding remember
  mark_world_event_seen event_id w =
      if str_eq event_id ""
      then (w, true)
      else let seen = made w.world_event_seen in
        if contains event_id seen
        then (record w { world_event_seen = some seen }, false)
        else (remember event_id w, true)

  -- Appends, dropping the oldest pending event when the queue is at capacity.
  unfoldable pub echo_world_event : WorldEventPayload F → WorldEvents F → WorldEvents F
  echo_world_event ev w =
      let room =
        if leb world_event_queue_cap (length w.world_event_queue)
        then tail w.world_event_queue
        else w.world_event_queue in
      record w { world_event_queue = room ++ ev ∷ [] }

  pub enqueue_world_event :
      WorldEventPayload F → WorldEvents F → WorldEvents F × EnqueueWorldEventResult
  enqueue_world_event ev w =
      let (w', fresh) = mark_world_event_seen ev.event_id w in
      if fresh
      then (
        echo_world_event ev w',
        if leb world_event_queue_cap (length w'.world_event_queue)
            then enqueue_evicted_oldest
            else enqueue_ok,
      )
      else (w', enqueue_duplicate)

  pub drain_world_events : WorldEvents F → WorldEvents F × List (WorldEventPayload F)
  drain_world_events w = (record w { world_event_queue = [] }, w.world_event_queue)

  pub world_event_queue_len : WorldEvents F → ℕ
  world_event_queue_len w = length w.world_event_queue

  pub clear_world_events : WorldEvents F → WorldEvents F
  clear_world_events w = record w { world_event_queue = [] }

  -- The loop of `RemoveQueuedWorldEvent`: the first event with the id.
  pub remove_first : String → List (WorldEventPayload F) → Option (List (WorldEventPayload F))
  remove_first event_id [] = none
  remove_first event_id (ev ∷ evs) =
      let rest = remove_first event_id evs in
      if str_eq ev.event_id event_id
      then some evs
      else elim rest [ none ↦ none | some r ↦ some (ev ∷ r) ]

  pub remove_queued_world_event : String → WorldEvents F → WorldEvents F × Bool
  remove_queued_world_event event_id w =
      if str_eq event_id "" then (w, false) else elim (remove_first event_id w.world_event_queue) [
        | none ↦ (w, false)
        | some rest ↦ (record w { world_event_queue = rest }, true)
      ]

  -- What `Stop` does to these fields.
  pub forget_world_events : WorldEvents F → WorldEvents F
  forget_world_events w = record w {
    world_event_queue = [];
    world_event_seen = none;
    world_event_seen_fifo = [];
  }

  unfoldable pub step : WorldEvents F → Call F → WorldEvents F
  step w (mark_seen event_id) = (mark_world_event_seen event_id w).0
  step w (echo ev) = echo_world_event ev w
  step w (enqueue ev) = (enqueue_world_event ev w).0
  step w drain = (drain_world_events w).0
  step w clear = clear_world_events w
  step w stop = forget_world_events w
  step w (remove event_id) = (remove_queued_world_event event_id w).0

  unfoldable pub run : WorldEvents F → List (Call F) → WorldEvents F
  run w [] = w
  run w (c ∷ cs) = run (step w c) cs

  -- The three ways through `mark_world_event_seen`.
  mark_cases {ℓ} :
      (P : WorldEvents F × Bool → Type ℓ) (event_id : String) (w : WorldEvents F)
      → (event_id ≡ "" → P (w, true))
      → (event_id ≢ ""
          → contains event_id (made w.world_event_seen) ≡ true
          → P (record w { world_event_seen = some (made w.world_event_seen) }, false))
      → (event_id ≢ ""
          → contains event_id (made w.world_event_seen) ≡ false
          → P (remember event_id w, true))
      → P (mark_world_event_seen event_id w)
  unfolding mark_world_event_seen
  mark_cases P event_id w unnamed old new = elim (Bool-cases (str_eq event_id "")) [
    | inl e ↦ rw e (unnamed ((eq_iff event_id "").0 e))
    | inr e ↦ rw e (elim (Bool-cases (contains event_id (made w.world_event_seen))) [
      | inl seen ↦ rw seen (old (ne e) seen)
      | inr fresh ↦ rw fresh (new (ne e) fresh)
    ])
  ]
    where
      ne : str_eq event_id "" ≡ false → event_id ≢ ""
      ne e p = cc ((eq_iff event_id "").1 p)
