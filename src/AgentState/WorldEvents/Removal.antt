-- ===== src/AgentState/WorldEvents/Removal.antt =====
-- `RemoveQueuedWorldEvent`.
use smart_npc.Prelude.{
  String, ◌≡◌, refl, true, false, none, some, List, [], ◌∷◌, ◌++◌, ◌⊎◌, inl, inr, str_eq, eq_iff,
  arith, ap, ◌≢◌,
}
use smart_npc.Prelude.Tests.{Bool-cases, Option-cases}
use smart_npc.Prelude.Lists.{All}
use smart_npc.Protocol.{WorldEventPayload}
use smart_npc.AgentState.WorldEvents.{WorldEvents, remove_first, remove_queued_world_event}

-- `r` is `q` without its first event that has the id.
pub record IsTaken {F : Type 0} (event_id : String) (q r : List (WorldEventPayload F))
    : Type 0 where
  pub before : List (WorldEventPayload F)
  pub ev : WorldEventPayload F
  pub after : List (WorldEventPayload F)
  pub whole : q ≡ before ++ ev ∷ after
  pub rest : r ≡ before ++ after
  pub same_id : ev.event_id ≡ event_id
  pub first : All (λ e. e.event_id ≢ event_id) before

module _ {F : Type 0} (event_id : String) where
  none_of_remove_first :
      (q : List (WorldEventPayload F))
      → remove_first event_id q ≡ none
      → All (λ e. e.event_id ≢ event_id) q
  unfolding remove_first
  none_of_remove_first [] h = tt
  none_of_remove_first (e ∷ q) h =
      ((λ same. ground (arith, eq_iff e.event_id event_id)), none_of_remove_first q (ground arith))

  IsTaken-remove_first :
      (q r : List (WorldEventPayload F)) → remove_first event_id q ≡ some r → IsTaken event_id q r
  unfolding remove_first
  IsTaken-remove_first [] r h = absurd (cc h)
  IsTaken-remove_first (e ∷ q) r h = elim (Bool-cases (str_eq e.event_id event_id)) [
    | inl hit ↦ record {
      before = [];
      ev = e;
      after = q;
      whole = refl;
      rest = ground arith;
      same_id = (eq_iff e.event_id event_id).0 hit;
      first = tt;
    }
    | inr miss ↦ elim (Option-cases (remove_first event_id q)) [
      | inl gone ↦ absurd (ground (arith, gone))
      | inr (r', e') ↦
          let t = IsTaken-remove_first q r' e' in
          record {
            before = e ∷ t.before;
            ev = t.ev;
            after = t.after;
            whole = ap (◌∷◌ e) t.whole;
            rest = ground (arith, t.rest, e');
            same_id = t.same_id;
            first = ((λ same. ground (arith, eq_iff e.event_id event_id)), t.first);
          }
    ]
  ]

  -- For a non-empty id, `RemoveQueuedWorldEvent` reports true exactly when some pending event has
  -- the id; then it takes out the first such event and leaves the others in order, and else it
  -- changes nothing. For the empty id it reports false and changes nothing.
  pub remove_queued_world_event_lem :
      (w : WorldEvents F)
      → let (w', found) = remove_queued_world_event event_id w in
        ((found ≡ true)
          × (event_id ≢ "")
          × IsTaken event_id w.world_event_queue w'.world_event_queue
          × (w'.world_event_seen ≡ w.world_event_seen))
        ⊎ ((found ≡ false)
            × (w' ≡ w)
            × ((event_id ≡ "") ⊎ All (λ e. e.event_id ≢ event_id) w.world_event_queue))
  unfolding remove_queued_world_event
  remove_queued_world_event_lem w = elim (Bool-cases (str_eq event_id "")) [
    | inl unnamed ↦ rw unnamed (inr (refl, refl, inl ((eq_iff event_id "").0 unnamed)))
    | inr named ↦ rw named (elim (Option-cases (remove_first event_id w.world_event_queue)) [
      | inl none_has ↦
          rw none_has (inr (refl, refl, inr (none_of_remove_first w.world_event_queue none_has)))
      | inr (r, e) ↦ rw e (
          inl (
            refl,
            (λ p. cc ((eq_iff event_id "").1 p)),
            IsTaken-remove_first w.world_event_queue r e,
            refl,
          ))
    ])
  ]
