-- ===== src/WsServer.antt =====
-- agenttown-mcp/wsserver/server.go: the outbound half of the UE connection, with its replay buffer;
-- Acks has the correlation of acknowledgements. A frame is kept as the envelope that it encodes; times
-- are nanoseconds, and the sequence counters are numbers that do not reach 2 ^ 63.
pub mod Buffer
pub mod Sent
pub mod Replay
pub mod Lost
pub mod Acks
use smart_npc.Prelude.{
  ℕ, suc, ◌+◌, ◌-◌, ◌*◌, ◌^◌, String, Bool, true, false, Option, none, some, List, [], ◌∷◌, ◌++◌,
  str_eq, not, ◌&&◌,
}
use smart_npc.Prelude.Tests.{ltb, leb, if◌then◌else◌}
use smart_npc.Prelude.Lists.{length, drop}

pub data MsgType : Type 0 where
  action_command stop_action event_notification error : MsgType
  heartbeat resync event_lost scan_area : MsgType
  other_type : String → MsgType

-- `discreteReplayTypes`
abbrev pub is_discrete : MsgType → Bool
is_discrete action_command = true
is_discrete stop_action = true
is_discrete event_notification = true
is_discrete error = true
is_discrete _ = false

-- The payloads that the server itself builds, and those that its callers hand over.
pub data Payload (P : Type 0) : Type 0 where
  resync_payload : ℕ → Payload P
  event_lost_payload : (from_seq to_seq count : ℕ) → Payload P
  heartbeat_payload : ℕ → Payload P
  caller_payload : P → Payload P

pub record Envelope (P : Type 0) : Type 0 where
  pub seq : ℕ
  pub msg_type : MsgType
  pub agent_id : String
  pub payload : Payload P

pub record BufferedMsg (P : Type 0) : Type 0 where
  pub seq : ℕ
  pub frame : Envelope P
  pub at : ℕ

abbrev pub send_buffer_max_len : ℕ
send_buffer_max_len = 200

abbrev pub send_buffer_max_age : ℕ
send_buffer_max_age = 60 * 10 ^ 9

-- `conn`: none, or one whose writes succeed or fail.
pub data Conn : Type 0 where
  no_conn open_conn broken_conn : Conn

abbrev pub system_agent_id : String
system_agent_id = "system"

-- `wire` is what was written to the connection, oldest first.
pub record Server (P : Type 0) : Type 0 where
  pub seq : ℕ
  pub last_received_seq : ℕ
  pub conn : Conn
  pub send_buf : List (BufferedMsg P)
  pub wire : List (Envelope P)

module _ {P : Type 0} where
  -- The first loop of `evictLocked`: `at` is before the cutoff `now - sendBufferMaxAge`.
  pub drop_old : ℕ → List (BufferedMsg P) → List (BufferedMsg P)
  drop_old now [] = []
  drop_old now (m ∷ ms) =
      let rest = drop_old now ms in if ltb (m.at + send_buffer_max_age) now then rest else m ∷ ms

  pub evict : ℕ → List (BufferedMsg P) → List (BufferedMsg P)
  evict now buf = let kept = drop_old now buf in drop (length kept - send_buffer_max_len) kept

  -- `bufferOutbound`
  pub buffer_outbound : ℕ → Envelope P → ℕ → List (BufferedMsg P) → List (BufferedMsg P)
  buffer_outbound seq frame now buf =
      evict now (buf ++ record { seq = seq; frame = frame; at = now } ∷ [])

  -- `writeFrame`, with whether it returned no error.
  pub write_frame : Envelope P → Server P → Server P × Bool
  write_frame frame s = elim s.conn [
    | no_conn ↦ (s, false)
    | broken_conn ↦ (s, false)
    | open_conn ↦ (record s { wire = s.wire ++ frame ∷ [] }, true)
  ]

  abbrev pub envelope : ℕ → String → MsgType → Payload P → Envelope P
  envelope seq agent_id msg_type payload = record {
    seq = seq;
    msg_type = msg_type;
    agent_id = agent_id;
    payload = payload;
  }

  -- The part of `SendEnvelope` before the write: the number is taken, and a discrete message is
  -- retained even if its write will fail.
  pub retain : String → MsgType → Payload P → ℕ → Server P → Server P
  retain agent_id msg_type payload now s =
      let seq' = s.seq + 1 in
      record s {
        seq = seq';
        send_buf =
            if is_discrete msg_type
            then buffer_outbound seq' (envelope seq' agent_id msg_type payload) now s.send_buf
            else s.send_buf;
      }

  pub send_envelope : String → MsgType → Payload P → ℕ → Server P → Server P × Bool
  send_envelope agent_id msg_type payload now s =
      write_frame (envelope (s.seq + 1) agent_id msg_type payload)
        (retain agent_id msg_type payload now s)

  -- `toReplay`
  pub newer_than : ℕ → List (BufferedMsg P) → List (BufferedMsg P)
  newer_than peer_last_seq [] = []
  newer_than peer_last_seq (m ∷ ms) =
      let rest = newer_than peer_last_seq ms in if ltb peer_last_seq m.seq then m ∷ rest else rest

  -- The last loop of `replayFrom`: it stops at the first write that fails.
  pub write_all : List (BufferedMsg P) → Server P → Server P
  write_all [] s = s
  write_all (m ∷ ms) s =
      let (s', written) = write_frame m.frame s in
      let rest = write_all ms s' in if written then rest else s'

  -- `oldestSeq`; an empty buffer has -1, which fails the test `oldestSeq > 0`.
  abbrev pub oldest_seq : List (BufferedMsg P) → Option ℕ
  oldest_seq [] = none
  oldest_seq (m ∷ ms) = some m.seq

  pub warn_lost : ℕ → Option ℕ → ℕ → Server P → Server P
  warn_lost peer_last_seq none now s = s
  warn_lost peer_last_seq (some oldest) now s =
      if ltb 0 oldest && ltb (peer_last_seq + 1) oldest
      then (send_envelope system_agent_id event_lost
          (event_lost_payload (peer_last_seq + 1) oldest (oldest - (peer_last_seq + 1))) now s).0
      else s

  pub replay_from : ℕ → ℕ → Server P → Server P
  replay_from peer_last_seq now s =
      let buf = evict now s.send_buf in
      write_all (newer_than peer_last_seq buf)
        (warn_lost peer_last_seq (oldest_seq buf) now (record s { send_buf = buf }))

  -- `observeInboundSeq`
  pub observe_inbound_seq : ℕ → Server P → Server P
  observe_inbound_seq seq s =
      if leb seq s.last_received_seq then s else record s { last_received_seq = seq }

  -- The head of `handleWS`: the new connection replaces the old one, and is told the last inbound
  -- number.
  pub connect : ℕ → Server P → Server P
  connect now s =
      (send_envelope system_agent_id resync (resync_payload s.last_received_seq) now
        (record s { conn = open_conn })).0

  -- The deferred part of `handleWS`, where the connection that ends is the current one.
  pub disconnect : Server P → Server P
  disconnect s = record s { conn = no_conn }

  -- The network drops the connection: later writes fail.
  pub break_conn : Server P → Server P
  break_conn s = record s { conn = broken_conn }

-- What happens to the server, one call after another.
pub data Call (P : Type 0) : Type 0 where
  send : String → MsgType → Payload P → ℕ → Call P
  peer_resync : ℕ → ℕ → Call P
  inbound : ℕ → Call P
  connected : ℕ → Call P
  disconnected broken : Call P

module _ {P : Type 0} where
  unfoldable pub step : Server P → Call P → Server P
  step s (send agent_id msg_type payload now) = (send_envelope agent_id msg_type payload now s).0
  step s (peer_resync peer_last_seq now) = replay_from peer_last_seq now s
  step s (inbound seq) = observe_inbound_seq seq s
  step s (connected now) = connect now s
  step s disconnected = disconnect s
  step s broken = break_conn s

  unfoldable pub run : Server P → List (Call P) → Server P
  run s [] = s
  run s (c ∷ cs) = run (step s c) cs

  abbrev pub new_server : Server P
  new_server = record { seq = 0; last_received_seq = 0; conn = no_conn; send_buf = []; wire = [] }
