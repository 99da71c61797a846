-- ===== src/WsServer/Acks/Matching.antt =====
-- One waiting call of server.go among acknowledgements and other calls.
use smart_npc.Prelude.{
  String, ◌≡◌, refl, sym, ap, ◌∙◌, Bool, true, false, Option, none, some, List, [], ◌∷◌, str_eq,
  eq_iff, ◌&&◌, arith, inl, inr,
}
use smart_npc.Prelude.Tests.{if◌then◌else◌, Bool-cases}
use smart_npc.WsServer.Acks.{
  ActionStartedPayload, PendingResult, PendingCall, Pending, CallOutcome, acked, rejected, received,
  AckStep, open_step, ack_step, close_step, find_pending, open_call, close_call, result_of, offer,
  receive, deliver_ack, await, ack_run,
}

same_key :
    (k id action_id : String)
    → str_eq k id ≡ true
    → str_eq id action_id ≡ false
    → str_eq k action_id ≡ false
same_key k id action_id e h = ap (λ x. str_eq x action_id) ((eq_iff k id).0 e) ∙ h

swapped : (k action_id : String) → str_eq k action_id ≡ false → str_eq action_id k ≡ false
swapped k action_id h = elim (Bool-cases (str_eq action_id k)) [
  | inl e ↦ cc ((eq_iff k action_id).1 (sym ((eq_iff action_id k).0 e)))
  | inr e ↦ e
]

map_option : {A B : Type 0} → (A → B) → Option A → Option B
map_option f none = none
map_option f (some a) = some (f a)

module _ {F : Type 0} where
  abbrev is_own : String → String → String → ActionStartedPayload F → Bool
  is_own action_id agent_id from ack = str_eq action_id ack.action_id && str_eq agent_id from

  -- The first acknowledgement of the action from its own agent.
  abbrev pub first_own : String → String → List (AckStep F) → Option (ActionStartedPayload F)
  first_own action_id agent_id [] = none
  first_own action_id agent_id (ack_step from ack ∷ steps) =
      if is_own action_id agent_id from ack then some ack else first_own action_id agent_id steps
  first_own action_id agent_id (open_step _ _ ∷ steps) = first_own action_id agent_id steps
  first_own action_id agent_id (close_step _ ∷ steps) = first_own action_id agent_id steps

  -- No other call opens or closes under the id.
  abbrev pub IsOthers : String → List (AckStep F) → Type 0
  IsOthers action_id [] = Unit
  IsOthers action_id (open_step id _ ∷ steps) =
      (str_eq id action_id ≡ false) × IsOthers action_id steps
  IsOthers action_id (close_step id ∷ steps) =
      (str_eq id action_id ≡ false) × IsOthers action_id steps
  IsOthers action_id (ack_step _ _ ∷ steps) = IsOthers action_id steps

  -- What a call that is answered by the acknowledgement returns.
  abbrev pub answer : Option (ActionStartedPayload F) → Option (CallOutcome F)
  answer none = none
  answer (some ack) =
      some (if ack.accepted then acked ack else rejected ack (result_of ack).err_msg)

  find-open_call :
      (action_id id agent_id : String) (ps : Pending F)
      → str_eq id action_id ≡ false
      → find_pending action_id (open_call id agent_id ps) ≡ find_pending action_id ps
  unfolding find_pending open_call
  find-open_call action_id id agent_id [] h = ground arith
  find-open_call action_id id agent_id ((k, p) ∷ ps) h = elim (Bool-cases (str_eq k id)) [
    | inl e ↦ rw (e, same_key k id action_id e h) refl
    | inr e ↦ rw (e, find-open_call action_id id agent_id ps h) refl
  ]

  find-close_call :
      (action_id id : String) (ps : Pending F)
      → str_eq id action_id ≡ false
      → find_pending action_id (close_call id ps) ≡ find_pending action_id ps
  unfolding find_pending close_call
  find-close_call action_id id [] h = refl
  find-close_call action_id id ((k, p) ∷ ps) h = elim (Bool-cases (str_eq k id)) [
    | inl e ↦ rw (e, same_key k id action_id e h, find-close_call action_id id ps h) refl
    | inr e ↦ rw (e, find-close_call action_id id ps h) refl
  ]

  find-opened :
      (action_id agent_id : String) (ps : Pending F)
      → find_pending action_id (open_call action_id agent_id ps)
        ≡ some (record { agent_id = agent_id; ch = none })
  unfolding find_pending open_call
  find-opened action_id agent_id [] = rw ((eq_iff action_id action_id).1 refl) refl
  find-opened action_id agent_id ((k, p) ∷ ps) = elim (Bool-cases (str_eq k action_id)) [
    | inl e ↦ rw (e, e) refl
    | inr e ↦ rw (e, e) (find-opened action_id agent_id ps)
  ]

  -- What the acknowledgement leaves in the waiting call `p` of the action.
  abbrev after : String → String → ActionStartedPayload F → PendingCall F → PendingCall F
  after action_id from ack p = if str_eq action_id ack.action_id then receive from ack p else p

  find-deliver_ack :
      (action_id from : String) (ack : ActionStartedPayload F) (ps : Pending F) (p : PendingCall F)
      → find_pending action_id ps ≡ some p
      → find_pending action_id (deliver_ack from ack ps) ≡ some (after action_id from ack p)
  unfolding find_pending deliver_ack map_option
  find-deliver_ack action_id from ack [] p h = ground (arith, h)
  find-deliver_ack action_id from ack ((k, q) ∷ ps) p h = elim (Bool-cases (str_eq k action_id)) [
    | inl e ↦
        let found : find_pending action_id ((k, q) ∷ ps) ≡ some q = rw e refl in
        let same : str_eq k ack.action_id ≡ str_eq action_id ack.action_id =
          ap (λ x. str_eq x ack.action_id) ((eq_iff k action_id).0 e) in
        elim (Bool-cases (str_eq action_id ack.action_id)) [
          | inl t ↦ rw (same, t, e) (ap (map_option (receive from ack)) (sym found ∙ h))
          | inr t ↦ rw (same, t, e) (sym found ∙ h)
        ]
    | inr e ↦
        let later : find_pending action_id ((k, q) ∷ ps) ≡ find_pending action_id ps = rw e refl in
        elim (Bool-cases (str_eq k ack.action_id)) [
          | inl t ↦
              let other : str_eq action_id ack.action_id ≡ false =
                ap (str_eq action_id) (sym ((eq_iff k ack.action_id).0 t))
                ∙ swapped k action_id e in
              rw (t, e, other) (sym later ∙ h)
          | inr t ↦ rw (t, e) (find-deliver_ack action_id from ack ps p (sym later ∙ h))
        ]
  ]

  -- What the first own acknowledgement puts into the channel that holds `ch`.
  abbrev filled :
      Option (PendingResult F) → Option (ActionStartedPayload F) → Option (PendingResult F)
  filled ch none = ch
  filled ch (some ack) = offer (result_of ack) ch

  offered_first :
      (r : PendingResult F) (ch : Option (PendingResult F))
      (later : Option (ActionStartedPayload F))
      → filled (offer r ch) later ≡ offer r ch
  offered_first r none none = refl
  offered_first r none (some ack) = refl
  offered_first r (some first) none = refl
  offered_first r (some first) (some ack) = refl

  after_lem :
      (action_id from agent_id : String) (ack : ActionStartedPayload F)
      (ch : Option (PendingResult F))
      → after action_id from ack (record { agent_id = agent_id; ch = ch }) ≡ record {
        agent_id = agent_id;
        ch = if is_own action_id agent_id from ack then offer (result_of ack) ch else ch;
      }
  unfolding receive
  after_lem action_id from agent_id ack ch = ground arith

  matching :
      (action_id agent_id : String) (ch : Option (PendingResult F)) (ps : Pending F)
      (steps : List (AckStep F))
      → find_pending action_id ps ≡ some (record { agent_id = agent_id; ch = ch })
      → IsOthers action_id steps
      → find_pending action_id (ack_run ps steps)
        ≡ some (record { agent_id = agent_id; ch = filled ch (first_own action_id agent_id steps) })
  unfolding ack_run
  matching action_id agent_id ch ps [] h o = h
  matching action_id agent_id ch ps (open_step id other ∷ steps) h o =
      matching action_id agent_id ch (open_call id other ps) steps
        (find-open_call action_id id other ps o.0 ∙ h) o.1
  matching action_id agent_id ch ps (close_step id ∷ steps) h o =
      matching action_id agent_id ch (close_call id ps) steps
        (find-close_call action_id id ps o.0 ∙ h) o.1
  matching action_id agent_id ch ps (ack_step from ack ∷ steps) h o =
      let ps' = deliver_ack from ack ps in
      let got : find_pending action_id ps'
          ≡ some (record {
            agent_id = agent_id;
            ch = if is_own action_id agent_id from ack then offer (result_of ack) ch else ch;
          }) =
        find-deliver_ack action_id from ack ps (record { agent_id = agent_id; ch = ch }) h
        ∙ ap some (after_lem action_id from agent_id ack ch) in
      elim (Bool-cases (is_own action_id agent_id from ack)) [
        | inl t ↦
            let got' : find_pending action_id ps'
                ≡ some (record { agent_id = agent_id; ch = offer (result_of ack) ch }) =
              got ∙ (rw t refl) in
            rw t (
              matching action_id agent_id (offer (result_of ack) ch) ps' steps got' o
              ∙ ap (λ c. some (record { agent_id = agent_id; ch = c }))
                  (offered_first (result_of ack) ch (first_own action_id agent_id steps)))
        | inr t ↦ rw t (matching action_id agent_id ch ps' steps (got ∙ (rw t refl)) o)
      ]

  await-answer :
      (agent_id : String) (first : Option (ActionStartedPayload F))
      → await received (record { agent_id = agent_id; ch = filled none first }) ≡ answer first
  unfolding await result_of
  await-answer agent_id none = refl
  await-answer agent_id (some ack) = elim (Bool-cases ack.accepted) [
    | inl a ↦ rw a refl
    | inr r ↦ rw r (elim (Bool-cases (str_eq ack.reject_reason "")) [
      | inl e ↦ rw e refl
      | inr e ↦ rw (e, e) refl
    ])
  ]

  -- After a call opens under its action id, whatever acknowledgements arrive and whatever other
  -- calls open and close, as long as none of them uses the id: the call is still pending, and what
  -- it returns on receipt is the answer to the first acknowledgement that names its action and
  -- comes from its agent - the acknowledgement itself where it accepts, else a rejection with a
  -- reason - and it waits on while there is none.
  pub call_gets_first_own_ack :
      (action_id agent_id : String) (ps : Pending F) (steps : List (AckStep F))
      → IsOthers action_id steps
      → (p : PendingCall F) × (find_pending action_id
            (ack_run (open_call action_id agent_id ps) steps)
          ≡ some p)
        × (await received p ≡ answer (first_own action_id agent_id steps))
  call_gets_first_own_ack action_id agent_id ps steps o =
      let first = first_own action_id agent_id steps in
      (
        record { agent_id = agent_id; ch = filled none first },
        matching action_id agent_id none (open_call action_id agent_id ps) steps
            (find-opened action_id agent_id ps) o,
        await-answer agent_id first,
      )
