-- ===== src/WsServer/Replay.antt =====
-- What a reconnect replays.
use smart_npc.Prelude.{
  ℕ, ◌+◌, ◌-◌, ◌≤◌, ◌≡◌, refl, sym, ap, ◌∙◌, Option, none, some, List, [], ◌∷◌, ◌++◌, map, arith,
  ◌&&◌,
}
use smart_npc.Prelude.Tests.{ltb, if◌then◌else◌}
use smart_npc.Prelude.Lists.{length}
use mathlib.Core.List.{append_assoc, append-nil}
use smart_npc.WsServer.{
  Envelope, BufferedMsg, Server, evict, write_frame, envelope, retain, send_envelope, newer_than,
  write_all, oldest_seq, warn_lost, replay_from, open_conn, event_lost, event_lost_payload,
  system_agent_id,
}
use smart_npc.WsServer.Buffer.{write_all_keeps}
use smart_npc.WsServer.Sent.{Outbound, send_all, numbered, AreRecent, evict_of_recent, buf-send_all}

module _ {P : Type 0} where
  abbrev pub frames : List (BufferedMsg P) → List (Envelope P)
  frames = map λ m. m.frame

  -- The frames of the messages with a number above `peer`, in order.
  abbrev pub frames_above : ℕ → List (BufferedMsg P) → List (Envelope P)
  frames_above peer [] = []
  frames_above peer (m ∷ ms) =
      if ltb peer m.seq then m.frame ∷ frames_above peer ms else frames_above peer ms

  -- The warning that goes first where the oldest retained number leaves a gap.
  abbrev pub warning : ℕ → Option ℕ → ℕ → List (Envelope P)
  warning peer none seq = []
  warning peer (some oldest) seq =
      if ltb 0 oldest && ltb (peer + 1) oldest
      then envelope (seq + 1) system_agent_id event_lost
          (event_lost_payload (peer + 1) oldest (oldest - (peer + 1)))
        ∷ []
      else []

  frames-newer_than :
      (peer : ℕ) (ms : List (BufferedMsg P)) → frames (newer_than peer ms) ≡ frames_above peer ms
  unfolding newer_than
  frames-newer_than peer [] = refl
  frames-newer_than peer (m ∷ ms) = ground (arith, frames-newer_than peer ms)

  wire-write_all :
      (ms : List (BufferedMsg P)) (s : Server P)
      → s.conn ≡ open_conn
      → (write_all ms s).wire ≡ s.wire ++ frames ms
  unfolding write_all write_frame
  wire-write_all [] s c = rw append-nil
  wire-write_all (m ∷ ms) s c =
      rw (c, write_all, write_frame)
        (wire-write_all ms (record s { wire = s.wire ++ m.frame ∷ [] }) c
          ∙ append_assoc s.wire (m.frame ∷ []) (frames ms))

  wire-warn_lost :
      (peer : ℕ) (oldest : Option ℕ) (now : ℕ) (s : Server P)
      → s.conn ≡ open_conn
      → ((warn_lost peer oldest now s).wire ≡ s.wire ++ warning peer oldest s.seq)
        × ((warn_lost peer oldest now s).conn ≡ open_conn)
  unfolding warn_lost send_envelope write_frame retain
  wire-warn_lost peer none now s c = (sym (append-nil s.wire), c)
  wire-warn_lost peer (some oldest) now s c = ground (arith, append-nil s.wire)

  buf-warn_lost :
      (peer : ℕ) (oldest : Option ℕ) (now : ℕ) (s : Server P)
      → (warn_lost peer oldest now s).send_buf ≡ s.send_buf
  unfolding warn_lost send_envelope write_frame retain
  buf-warn_lost peer none now s = refl
  buf-warn_lost peer (some oldest) now s = ground arith

  -- On an open connection a replay writes, first, the warning where the oldest retained number
  -- leaves a gap after the peer's, and then exactly the retained frames with a number above the
  -- peer's, in the order of their numbers; of the buffer it drops only what is past retention.
  pub replay_from_lem :
      (peer now : ℕ) (s : Server P)
      → s.conn ≡ open_conn
      → let buf = evict now s.send_buf in
        ((replay_from peer now s).wire
          ≡ s.wire ++ warning peer (oldest_seq buf) s.seq ++ frames_above peer buf)
        × ((replay_from peer now s).send_buf ≡ buf)
  unfolding replay_from
  replay_from_lem peer now s c =
      let buf = evict now s.send_buf in
      let s' = record s { send_buf = buf } in
      let w = wire-warn_lost peer (oldest_seq buf) now s' c in
      let warned = warn_lost peer (oldest_seq buf) now s' in
      (
        wire-write_all (newer_than peer buf) warned w.1
            ∙ ap (λ l. l ++ frames (newer_than peer buf)) w.0
            ∙ ap (λ l. (s.wire ++ warning peer (oldest_seq buf) s.seq) ++ l)
                (frames-newer_than peer buf),
        (write_all_keeps (newer_than peer buf) warned).0
            ∙ buf-warn_lost peer (oldest_seq buf) now s',
      )

  -- On an open connection whose buffer was empty: when at most 200 of the messages sent since are
  -- discrete, and all were sent in the last 60 seconds, a replay writes, after the warning where
  -- there is one, exactly the discrete ones of them with a number above the peer's, in the order
  -- sent. None is lost.
  pub replay_loses_none :
      (peer now : ℕ) (ms : List (Outbound P)) (s : Server P)
      → s.conn ≡ open_conn
      → s.send_buf ≡ []
      → AreRecent now ms
      → length (numbered s.seq ms) ≤ 200
      → let s' = send_all s ms in
        (replay_from peer now s').wire
        ≡ s'.wire
          ++ warning peer (oldest_seq (numbered s.seq ms)) s'.seq
          ++ frames_above peer (numbered s.seq ms)
  replay_loses_none peer now ms s c e h l =
      let s' = send_all s ms in
      let (buf, same, recent) = buf-send_all now ms s h (rw e tt) (rw e l) in
      let whole : s'.send_buf ≡ numbered s.seq ms = buf ∙ ap (λ b. b ++ numbered s.seq ms) e in
      let kept : evict now s'.send_buf ≡ numbered s.seq ms =
        evict_of_recent now s'.send_buf recent (omega (arith, ap length whole)) ∙ whole in
      (replay_from_lem peer now s' (same ∙ c)).0
      ∙ ap (λ b. s'.wire ++ warning peer (oldest_seq b) s'.seq ++ frames_above peer b) kept
