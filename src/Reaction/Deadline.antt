-- ===== src/Reaction/Deadline.antt =====
-- `checkReactionDeadline`.
use smart_npc.Prelude.{
  String, ◌≡◌, refl, Bool, true, false, Option, none, some, [], ◌⊎◌, inl, inr, ap, ◌∙◌, sym, ◌||◌,
  arith,
}
use smart_npc.Prelude.Tests.{Bool-cases}
use smart_npc.Float64.{Float64}
use smart_npc.AgentState.{AgentState}
use smart_npc.AgentState.Perception.{latest_game_time_sec}
use smart_npc.AgentState.Flight.{current_info, record_action_interrupted}
use smart_npc.AgentState.Schedule.{ScheduleState}
use smart_npc.AgentState.Lifecycle.{clear_for_replan}
use smart_npc.AgentState.Lifecycle.Cleared.{clear_for_slot_switch_lem}
use mathlib.Core.Path.{subst}
use smart_npc.Reaction.{
  Coordination, deadline_hint, deadline_reason, record_interrupted, clear_reaction,
  check_reaction_deadline,
}

module _ {F : Type 0} ⦃fl : Float64 F⦄ (c : Coordination F) (a : AgentState F) where
  open fl use {zero_f, lt_f, le_f}

  -- The test that lets a reaction go on: the game time or the deadline is not known, or it is
  -- before the deadline.
  abbrev pub is_in_time : Bool
  is_in_time =
      let now = latest_game_time_sec a.perception.latest_perception in
      le_f now zero_f
      || le_f c.reaction_deadline_game_sec zero_f
      || lt_f now c.reaction_deadline_game_sec

module _ {F : Type 0} ⦃fl : Float64 F⦄ (task_desc : String) (c : Coordination F)
    (a : AgentState F) where
  -- The agent when the interruption is recorded, before it is cleared.
  abbrev told : AgentState F
  told = record a { flight = record_interrupted task_desc deadline_reason a.flight }

  record_interrupted_keeps :
      (told.flight.current_action_id ≡ a.flight.current_action_id)
      × (current_info told.flight ≡ current_info a.flight)
  unfolding record_interrupted record_action_interrupted
  record_interrupted_keeps = ground arith

  cut_facts :
      let (b, info) = clear_for_replan told in
      (b.flight.current_action_id ≡ "")
      × (b.flight.action_queue ≡ [])
      × (b.persistent.schedule.current_slot ≡ "")
      × (info.action_id ≡ a.flight.current_action_id)
      × ((a.flight.current_action_id ≡ "")
          ⊎ (b.flight.cleared_action ≡ some (current_info a.flight)))
  cut_facts =
      let k = clear_for_slot_switch_lem told in
      let same = k.8 in
      let (id, info) = record_interrupted_keeps in
      (
        ap (λ r. r.0.flight.current_action_id) same ∙ k.0,
        ap (λ r. r.0.flight.action_queue) same ∙ k.1,
        ap (λ r. r.0.persistent.schedule.current_slot) same
            ∙ ap (λ (s : ScheduleState). s.current_slot) k.2,
        ap (λ r. r.1.action_id) same ∙ k.5 ∙ id,
        elim k.7 [
          | inl (_, stash) ↦ inr (ap (λ r. r.0.flight.cleared_action) same ∙ stash ∙ ap some info)
          | inr (none_flying, _) ↦ inl (sym id ∙ none_flying)
        ],
      )

  cut_eq :
      c.reaction_active ≡ true
      → is_in_time c a ≡ false
      → check_reaction_deadline task_desc c a ≡ (
        clear_reaction c,
        record ((clear_for_replan told).0) { replan_hint = deadline_hint },
        some (clear_for_replan told).1.action_id,
      )
  unfolding check_reaction_deadline
  cut_eq active over =
      rw (active, check_reaction_deadline) (rw (over, check_reaction_deadline) refl)

  no_cut_eq :
      (c.reaction_active ≡ false) ⊎ (is_in_time c a ≡ true)
      → check_reaction_deadline task_desc c a ≡ (c, a, none)
  unfolding check_reaction_deadline
  no_cut_eq (inl idle) = rw (idle, check_reaction_deadline) refl
  no_cut_eq (inr early) = elim (Bool-cases c.reaction_active) [
    | inl e ↦ rw (e, check_reaction_deadline) (rw (early, check_reaction_deadline) refl)
    | inr e ↦ rw (e, check_reaction_deadline) refl
  ]

-- What a check `r` of `c` and `a` did where it cut the reaction.
pub record IsCut {F : Type 0} ⦃fl : Float64 F⦄ (task_desc : String) (c : Coordination F)
    (a : AgentState F) (r : Coordination F × AgentState F × Option String) : Type 0 where
  pub active : c.reaction_active ≡ true
  pub over : is_in_time c a ≡ false
  pub to_stop : r.2 ≡ some a.flight.current_action_id
  pub lifted : r.0.reaction_active ≡ false
  pub once : check_reaction_deadline task_desc r.0 r.1 ≡ (r.0, r.1, none)
  pub no_action : r.1.flight.current_action_id ≡ ""
  pub no_queue : r.1.flight.action_queue ≡ []
  pub no_slot : r.1.persistent.schedule.current_slot ≡ ""
  pub hint : r.1.replan_hint ≡ deadline_hint
  pub stashed :
      (a.flight.current_action_id ≡ "") ⊎ (r.1.flight.cleared_action ≡ some (current_info a.flight))

module _ {F : Type 0} ⦃fl : Float64 F⦄ (task_desc : String) (c : Coordination F)
    (a : AgentState F) where
  check_reaction_deadline-IsCut :
      c.reaction_active ≡ true
      → is_in_time c a ≡ false
      → IsCut task_desc c a (check_reaction_deadline task_desc c a)
  unfolding clear_reaction
  check_reaction_deadline-IsCut active over =
      let (id, queue, slot, info, stash) = cut_facts task_desc c a in
      let cut = cut_eq task_desc c a active over in
      subst (IsCut task_desc c a) (sym cut) (record {
        active = active;
        over = over;
        to_stop = ap some info;
        lifted = refl;
        once = no_cut_eq task_desc _ _ (inl refl);
        no_action = id;
        no_queue = queue;
        no_slot = slot;
        hint = refl;
        stashed = stash;
      })

  -- A check cuts the reaction exactly when one is active and the perceived game time has reached
  -- its deadline, both being known. Then the guard is lifted, so that a second check cuts nothing;
  -- the action in flight is to be stopped, and it is stashed if there was one; the queue and the
  -- slot are emptied, and the hint is set. Else nothing changes.
  pub check_reaction_deadline_lem :
      IsCut task_desc c a (check_reaction_deadline task_desc c a)
      ⊎ (((c.reaction_active ≡ false) ⊎ (is_in_time c a ≡ true))
          × (check_reaction_deadline task_desc c a ≡ (c, a, none)))
  check_reaction_deadline_lem = elim (Bool-cases c.reaction_active) [
    | inr idle ↦ inr (inl idle, no_cut_eq task_desc c a (inl idle))
    | inl active ↦ elim (Bool-cases (is_in_time c a)) [
      | inl early ↦ inr (inr early, no_cut_eq task_desc c a (inr early))
      | inr over ↦ inl (check_reaction_deadline-IsCut active over)
    ]
  ]
