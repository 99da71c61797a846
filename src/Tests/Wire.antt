-- ===== src/Tests/Wire.antt =====
-- The connection: the buffer, the replay and the acknowledgements.
use smart_npc.Prelude.{
  ◌*◌, ◌^◌, String, ◌≡◌, refl, Bool, true, false, some, List, [], ◌∷◌, ◌++◌, arith,
}
use smart_npc.Prelude.Int.{ℤ, pos}
use smart_npc.WsServer.{
  action_command, heartbeat, Call, send, peer_resync, connected, broken, Server, open_conn,
  caller_payload, heartbeat_payload, envelope, oldest_seq, replay_from, run, new_server,
}
use smart_npc.WsServer.Buffer.{IsBuffer, run-new_server-IsBuffer}
use smart_npc.WsServer.Sent.{Outbound, send_all, numbered}
use smart_npc.WsServer.Replay.{warning, frames_above, replay_loses_none}
use smart_npc.WsServer.Lost.{silent_loss}
use smart_npc.WsServer.Acks.{
  ActionStartedPayload, PendingCall, AckStep, open_step, ack_step, close_step, find_pending,
  open_call, ack_run, await, received,
}
use smart_npc.WsServer.Acks.Matching.{first_own, answer, call_gets_first_own_ack}

abbrev traffic : List (Call String)
traffic =
    connected 1
    ∷ send "H-01" action_command (caller_payload "wait") 2
    ∷ broken
    ∷ connected 3
    ∷ peer_resync 0 4
    ∷ []

run-new_server-IsBuffer_example : IsBuffer (run (new_server {P = String}) traffic)
run-new_server-IsBuffer_example = run-new_server-IsBuffer traffic

abbrev open_server : Server String
open_server = record new_server { conn = open_conn }

abbrev command : Outbound String
command = record {
  agent_id = "H-01";
  msg_type = action_command;
  payload = caller_payload "wait";
  at = 7;
}

abbrev beat : Outbound String
beat = record { agent_id = "system"; msg_type = heartbeat; payload = heartbeat_payload 5; at = 6 }

abbrev sent : List (Outbound String)
sent = command ∷ beat ∷ command ∷ []

replay_loses_none_example :
    let s' = send_all open_server sent in
    (replay_from 1 9 s').wire
    ≡ s'.wire ++ warning 1 (oldest_seq (numbered 0 sent)) s'.seq ++ frames_above 1 (numbered 0 sent)
replay_loses_none_example =
    replay_loses_none 1 9 sent open_server refl refl
      ((omega arith, omega arith), ((omega arith, omega arith), ((omega arith, omega arith), tt)))
      (omega arith)

-- One message is retained, and the counter is at 3.
abbrev stale_server : Server String
stale_server = record open_server {
  seq = 3;
  send_buf =
      record { seq = 3; frame = envelope 3 "H-01" action_command (caller_payload "wait"); at = 7 }
      ∷ [];
}

silent_loss_example :
    ((replay_from 1 (61 * 10 ^ 9) stale_server).wire ≡ [])
    × ((replay_from 1 (61 * 10 ^ 9) stale_server).send_buf ≡ [])
silent_loss_example = silent_loss 1 (61 * 10 ^ 9) stale_server refl (omega arith, tt)

abbrev ack_of : String → Bool → ActionStartedPayload ℤ
ack_of action_id accepted = record {
  action_id = action_id;
  accepted = accepted;
  estimated_duration_sec = pos 5;
  reject_reason = "";
}

abbrev steps : List (AckStep ℤ)
steps =
    open_step "act_2" "H-02"
    ∷ ack_step "H-02" (ack_of "act_1" true)
    ∷ close_step "act_2"
    ∷ ack_step "H-01" (ack_of "act_1" false)
    ∷ ack_step "H-01" (ack_of "act_1" true)
    ∷ []

call_gets_first_own_ack_example :
    (p : PendingCall ℤ) × (find_pending "act_1" (ack_run (open_call "act_1" "H-01" []) steps)
      ≡ some p)
    × (await received p ≡ answer (first_own "act_1" "H-01" steps))
call_gets_first_own_ack_example = call_gets_first_own_ack "act_1" "H-01" [] steps (refl, (refl, tt))
