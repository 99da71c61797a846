-- ===== src/WsServer/Buffer.antt =====
-- The invariant of the send buffer of server.go.
use smart_npc.Prelude.{
  Option, none, some, ℕ, zero, suc, ◌+◌, ◌-◌, ◌≤◌, ◌<◌, String, ◌≡◌, refl, true, List, [], ◌∷◌,
  ◌++◌, inl, inr, arith,
}
use smart_npc.Prelude.Tests.{Bool-cases}
use smart_npc.Prelude.Lists.{length, drop, length-drop, All, All-append, All-drop}
use smart_npc.WsServer.{
  MsgType, is_discrete, Payload, Envelope, BufferedMsg, Server, drop_old, evict, buffer_outbound,
  write_frame, envelope, retain, send_envelope, resync, event_lost, resync_payload,
  event_lost_payload, system_agent_id, open_conn, newer_than, write_all, oldest_seq, warn_lost,
  replay_from, observe_inbound_seq, connect, disconnect, break_conn, Call, send, peer_resync,
  inbound, connected, disconnected, broken, step, run, new_server,
}

module _ {P : Type 0} where
  -- The numbers rise from above `lo` to at most `hi`.
  abbrev pub Rises : ℕ → List (BufferedMsg P) → ℕ → Type 0
  Rises lo [] hi = lo ≤ hi
  Rises lo (m ∷ ms) hi = (lo < m.seq) × Rises m.seq ms hi

  -- A retained message is discrete, and its frame has its number.
  abbrev pub IsRetained : BufferedMsg P → Type 0
  IsRetained m = (m.frame.seq ≡ m.seq) × (is_discrete m.frame.msg_type ≡ true)

  pub record IsBuffer (s : Server P) : Type 0 where
    pub short : length s.send_buf ≤ 200
    pub rises : Rises 0 s.send_buf s.seq
    pub retained : All IsRetained s.send_buf

  Rises-above :
      (lo lo' : ℕ) (ms : List (BufferedMsg P)) (hi : ℕ)
      → lo' ≤ lo
      → Rises lo ms hi
      → Rises lo' ms hi
  Rises-above lo lo' [] hi h r = omega arith
  Rises-above lo lo' (m ∷ ms) hi h r = (omega arith, r.1)

  Rises-below :
      (lo : ℕ) (ms : List (BufferedMsg P)) (hi hi' : ℕ)
      → hi ≤ hi'
      → Rises lo ms hi
      → Rises lo ms hi'
  Rises-below lo [] hi hi' h r = omega arith
  Rises-below lo (m ∷ ms) hi hi' h r = (r.0, Rises-below m.seq ms hi hi' h r.1)

  Rises-snoc :
      (lo : ℕ) (ms : List (BufferedMsg P)) (hi : ℕ) (m : BufferedMsg P)
      → m.seq ≡ hi + 1
      → Rises lo ms hi
      → Rises lo (ms ++ m ∷ []) (hi + 1)
  Rises-snoc lo [] hi m e r = (omega arith, omega arith)
  Rises-snoc lo (n ∷ ms) hi m e r = (r.0, Rises-snoc n.seq ms hi m e r.1)

  Rises-drop :
      (n lo : ℕ) (ms : List (BufferedMsg P)) (hi : ℕ) → Rises lo ms hi → Rises lo (drop n ms) hi
  Rises-drop zero lo ms hi r = r
  Rises-drop (suc n) lo [] hi r = r
  Rises-drop (suc n) lo (m ∷ ms) hi r =
      Rises-drop n lo ms hi (Rises-above m.seq lo ms hi (omega (arith, r.0)) r.1)

  Rises-drop_old :
      (now lo : ℕ) (ms : List (BufferedMsg P)) (hi : ℕ)
      → Rises lo ms hi
      → Rises lo (drop_old now ms) hi
  unfolding drop_old
  Rises-drop_old now lo [] hi r = r
  Rises-drop_old now lo (m ∷ ms) hi r =
      ground
        (arith, Rises-drop_old now lo ms hi (Rises-above m.seq lo ms hi (omega (arith, r.0)) r.1))

  IsRetained-drop_old :
      (now : ℕ) (ms : List (BufferedMsg P)) → All IsRetained ms → All IsRetained (drop_old now ms)
  unfolding drop_old
  IsRetained-drop_old now [] h = tt
  IsRetained-drop_old now (m ∷ ms) h = ground (arith, IsRetained-drop_old now ms h.1)

  pub evict-Rises :
      (now lo : ℕ) (ms : List (BufferedMsg P)) (hi : ℕ)
      → Rises lo ms hi
      → Rises lo (evict now ms) hi
  unfolding evict
  evict-Rises now lo ms hi r = Rises-drop _ lo (drop_old now ms) hi (Rises-drop_old now lo ms hi r)

  pub length-evict-le : (now : ℕ) (ms : List (BufferedMsg P)) → length (evict now ms) ≤ 200
  unfolding evict
  length-evict-le now ms =
      let kept = drop_old now ms in omega (arith, length-drop (length kept - 200) kept)

  evict-IsRetained :
      (now : ℕ) (ms : List (BufferedMsg P)) → All IsRetained ms → All IsRetained (evict now ms)
  unfolding evict
  evict-IsRetained now ms h = All-drop IsRetained _ (drop_old now ms) (IsRetained-drop_old now ms h)

  retain-IsBuffer :
      (agent_id : String) (msg_type : MsgType) (payload : Payload P) (now : ℕ) (s : Server P)
      → IsBuffer s
      → IsBuffer (retain agent_id msg_type payload now s)
  unfolding retain buffer_outbound
  retain-IsBuffer agent_id msg_type payload now s v = elim (Bool-cases (is_discrete msg_type)) [
    | inl d ↦
        let m : BufferedMsg P = record {
          seq = s.seq + 1;
          frame = envelope (s.seq + 1) agent_id msg_type payload;
          at = now;
        } in
        let all = s.send_buf ++ m ∷ [] in
        rw d (record {
          short = length-evict-le now all;
          rises = evict-Rises now 0 all (s.seq + 1) (Rises-snoc 0 s.send_buf s.seq m refl v.rises);
          retained =
              evict-IsRetained now all
                (All-append IsRetained s.send_buf (m ∷ []) v.retained ((refl, d), tt));
        })
    | inr c ↦ rw c (record {
      short = v.short;
      rises = Rises-below 0 s.send_buf s.seq (s.seq + 1) (omega arith) v.rises;
      retained = v.retained;
    })
  ]

  -- Writing changes the wire only.
  pub write_frame_keeps :
      (frame : Envelope P) (s : Server P)
      → let s' = (write_frame frame s).0 in
        (s'.send_buf ≡ s.send_buf) × (s'.seq ≡ s.seq) × (s'.conn ≡ s.conn)
  unfolding write_frame
  write_frame_keeps frame s = ground arith

  pub write_all_keeps :
      (ms : List (BufferedMsg P)) (s : Server P)
      → let s' = write_all ms s in (s'.send_buf ≡ s.send_buf) × (s'.seq ≡ s.seq)
  unfolding write_all
  write_all_keeps [] s = (refl, refl)
  write_all_keeps (m ∷ ms) s =
      ground (arith, write_frame_keeps m.frame s, write_all_keeps ms (write_frame m.frame s).0)

  IsBuffer-same :
      (s t : Server P) → t.send_buf ≡ s.send_buf → t.seq ≡ s.seq → IsBuffer s → IsBuffer t
  IsBuffer-same s t e n v = record {
    short = rw e v.short;
    rises = rw (e, n) v.rises;
    retained = rw e v.retained;
  }

  send_envelope-IsBuffer :
      (agent_id : String) (msg_type : MsgType) (payload : Payload P) (now : ℕ) (s : Server P)
      → IsBuffer s
      → IsBuffer (send_envelope agent_id msg_type payload now s).0
  unfolding send_envelope
  send_envelope-IsBuffer agent_id msg_type payload now s v =
      let s' = retain agent_id msg_type payload now s in
      let (b, n, _) = write_frame_keeps (envelope (s.seq + 1) agent_id msg_type payload) s' in
      IsBuffer-same s' _ b n (retain-IsBuffer agent_id msg_type payload now s v)

  warn_lost-IsBuffer :
      (peer : ℕ) (oldest : Option ℕ) (now : ℕ) (s : Server P)
      → IsBuffer s
      → IsBuffer (warn_lost peer oldest now s)
  unfolding warn_lost
  warn_lost-IsBuffer peer none now s v = v
  warn_lost-IsBuffer peer (some oldest) now s v = ground (
    arith,
    send_envelope-IsBuffer system_agent_id event_lost
        (event_lost_payload (peer + 1) oldest (oldest - (peer + 1))) now s v,
  )

  replay_from-IsBuffer :
      (peer now : ℕ) (s : Server P) → IsBuffer s → IsBuffer (replay_from peer now s)
  unfolding replay_from
  replay_from-IsBuffer peer now s v =
      let buf = evict now s.send_buf in
      let warned = warn_lost peer (oldest_seq buf) now (record s { send_buf = buf }) in
      let (b, n) = write_all_keeps (newer_than peer buf) warned in
      IsBuffer-same warned _ b n (
        warn_lost-IsBuffer peer (oldest_seq buf) now (record s { send_buf = buf })
          (record {
            short = length-evict-le now s.send_buf;
            rises = evict-Rises now 0 s.send_buf s.seq v.rises;
            retained = evict-IsRetained now s.send_buf v.retained;
          }))

  pub step-IsBuffer : (s : Server P) (c : Call P) → IsBuffer s → IsBuffer (step s c)
  unfolding step connect disconnect break_conn observe_inbound_seq
  step-IsBuffer s (send agent_id msg_type payload now) v =
      send_envelope-IsBuffer agent_id msg_type payload now s v
  step-IsBuffer s (peer_resync peer now) v = replay_from-IsBuffer peer now s v
  step-IsBuffer s (inbound seq) v = IsBuffer-same s _ (ground arith) (ground arith) v
  step-IsBuffer s (connected now) v =
      send_envelope-IsBuffer system_agent_id resync (resync_payload s.last_received_seq) now _
        (IsBuffer-same s (record s { conn = open_conn }) refl refl v)
  step-IsBuffer s disconnected v = IsBuffer-same s _ refl refl v
  step-IsBuffer s broken v = IsBuffer-same s _ refl refl v

  run-IsBuffer : (s : Server P) (cs : List (Call P)) → IsBuffer s → IsBuffer (run s cs)
  unfolding run
  run-IsBuffer s [] v = v
  run-IsBuffer s (c ∷ cs) v = run-IsBuffer (step s c) cs (step-IsBuffer s c v)

  -- Whatever is sent, replayed, received, connected and lost, from a new server on: the buffer
  -- holds at most 200 messages, their numbers rise and do not pass the counter, each is of a
  -- discrete type, and each frame carries the number that it is retained under.
  pub run-new_server-IsBuffer : (cs : List (Call P)) → IsBuffer (run (new_server {P = P}) cs)
  run-new_server-IsBuffer cs =
      run-IsBuffer new_server cs
        (record { short = omega arith; rises = omega arith; retained = tt })
