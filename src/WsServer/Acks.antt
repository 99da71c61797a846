-- ===== src/WsServer/Acks.antt =====
-- agenttown-mcp/wsserver/server.go: `Call` and `deliverACK`, which correlate an `action_started` with
-- the goroutine that waits for it. The channel of a call holds one result.
pub mod Matching
use smart_npc.Prelude.{
  String, Bool, true, false, Option, none, some, List, [], ◌∷◌, ◌++◌, str_eq, not,
}
use smart_npc.Prelude.Tests.{if◌then◌else◌}

pub record ActionStartedPayload (F : Type 0) : Type 0 where
  pub action_id : String
  pub accepted : Bool
  pub estimated_duration_sec : F
  pub reject_reason : String

pub record PendingResult (F : Type 0) : Type 0 where
  pub started : ActionStartedPayload F
  pub err_msg : String

-- `pendingCall`, with what its channel holds.
pub record PendingCall (F : Type 0) : Type 0 where
  pub agent_id : String
  pub ch : Option (PendingResult F)

-- `map[string]*pendingCall`, by the action id.
abbrev pub Pending : Type 0 → Type 0
Pending F = List (String × PendingCall F)

-- What `Call` returns once it waits.
pub data CallOutcome (F : Type 0) : Type 0 where
  acked : ActionStartedPayload F → CallOutcome F
  rejected : ActionStartedPayload F → String → CallOutcome F
  timed_out cancelled : CallOutcome F

-- What ends the wait.
pub data Wakeup : Type 0 where
  received expired context_done : Wakeup

-- The steps on the pending calls.
pub data AckStep (F : Type 0) : Type 0 where
  open_step : String → String → AckStep F
  ack_step : String → ActionStartedPayload F → AckStep F
  close_step : String → AckStep F

module _ {F : Type 0} where
  pub find_pending : String → Pending F → Option (PendingCall F)
  find_pending action_id [] = none
  find_pending action_id ((k, p) ∷ ps) =
      if str_eq k action_id then some p else find_pending action_id ps

  -- `s.pending[actionID] = &pendingCall{…}`
  pub open_call : String → String → Pending F → Pending F
  open_call action_id agent_id [] = (action_id, record { agent_id = agent_id; ch = none }) ∷ []
  open_call action_id agent_id ((k, p) ∷ ps) =
      if str_eq k action_id
      then (k, record { agent_id = agent_id; ch = none }) ∷ ps
      else (k, p) ∷ open_call action_id agent_id ps

  -- `delete(s.pending, actionID)`
  pub close_call : String → Pending F → Pending F
  close_call action_id [] = []
  close_call action_id ((k, p) ∷ ps) =
      let rest = close_call action_id ps in if str_eq k action_id then rest else (k, p) ∷ rest

  pub result_of : ActionStartedPayload F → PendingResult F
  result_of ack = record {
    started = ack;
    err_msg =
        if ack.accepted
        then ""
        else if str_eq ack.reject_reason ""
        then "action rejected"
        else ack.reject_reason;
  }

  -- The send that does not block: a full channel drops the result.
  abbrev pub offer : PendingResult F → Option (PendingResult F) → Option (PendingResult F)
  offer r none = some r
  offer r (some first) = some first

  pub receive : String → ActionStartedPayload F → PendingCall F → PendingCall F
  receive agent_id ack p =
      if not (str_eq p.agent_id agent_id) then p else record p { ch = offer (result_of ack) p.ch }

  pub deliver_ack : String → ActionStartedPayload F → Pending F → Pending F
  deliver_ack agent_id ack [] = []
  deliver_ack agent_id ack ((k, p) ∷ ps) =
      if str_eq k ack.action_id
      then (k, receive agent_id ack p) ∷ ps
      else (k, p) ∷ deliver_ack agent_id ack ps

  abbrev answered : Option (PendingResult F) → Option (CallOutcome F)
  answered none = none
  answered (some r) =
      some (if not (str_eq r.err_msg "") then rejected r.started r.err_msg else acked r.started)

  -- The `select` of `Call`; `none` where it cannot go on yet. A rejection carries its reason, which
  -- `Call` prefixes with "action rejected: ".
  pub await : Wakeup → PendingCall F → Option (CallOutcome F)
  await received p = answered p.ch
  await expired p = some timed_out
  await context_done p = some cancelled

  pub ack_run : Pending F → List (AckStep F) → Pending F
  ack_run ps [] = ps
  ack_run ps (open_step action_id agent_id ∷ steps) =
      ack_run (open_call action_id agent_id ps) steps
  ack_run ps (ack_step agent_id ack ∷ steps) = ack_run (deliver_ack agent_id ack ps) steps
  ack_run ps (close_step action_id ∷ steps) = ack_run (close_call action_id ps) steps
