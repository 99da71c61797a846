-- ===== src/WsServer/Lost.antt =====
-- The loss report of `replayFrom`: its gap test compares numbers that all messages take with a
-- buffer that holds the discrete ones only.
use smart_npc.Prelude.{
  ℕ, ◌+◌, ◌-◌, ◌<◌, ◌≡◌, refl, ap, ◌∙◌, true, false, some, List, [], ◌∷◌, ◌++◌, arith,
}
use smart_npc.Prelude.Tests.{ltb}
use smart_npc.Prelude.Lists.{length, drop, All}
use mathlib.Core.List.{append-nil, append_assoc}
use smart_npc.WsServer.{
  is_discrete, Envelope, BufferedMsg, Server, drop_old, evict, envelope, oldest_seq, replay_from,
  open_conn, event_lost, event_lost_payload, system_agent_id, send_buffer_max_age,
}
use smart_npc.WsServer.Sent.{Outbound, send_all, numbered, AreRecent}
use smart_npc.WsServer.Replay.{warning, frames_above, replay_from_lem, replay_loses_none}

module _ {P : Type 0} where
  drop_old-All :
      (now : ℕ) (ms : List (BufferedMsg P))
      → All (λ m. m.at + send_buffer_max_age < now) ms
      → drop_old now ms ≡ []
  unfolding drop_old
  drop_old-All now [] h = refl
  drop_old-All now (m ∷ ms) h = ground (arith, drop_old-All now ms h.1)

  -- On an open connection, when every retained message is older than 60 seconds, a replay writes
  -- nothing at all: messages above the peer's number are gone, and no warning says so.
  pub silent_loss :
      (peer now : ℕ) (s : Server P)
      → s.conn ≡ open_conn
      → All (λ m. m.at + send_buffer_max_age < now) s.send_buf
      → ((replay_from peer now s).wire ≡ s.wire) × ((replay_from peer now s).send_buf ≡ [])
  unfolding evict
  silent_loss peer now s c old =
      let gone = drop_old-All now s.send_buf old in
      let r = replay_from_lem peer now s c in
      (
        r.0
            ∙ ap
                (λ b.
                  s.wire
                  ++ warning peer (oldest_seq (drop (length b - 200) b)) s.seq
                  ++ frames_above peer (drop (length b - 200) b))
                gone
            ∙ append-nil (s.wire ++ [])
            ∙ append-nil s.wire,
        r.1 ∙ ap (λ b. drop (length b - 200) b) gone,
      )

  numbered-other :
      (n : ℕ) (ms : List (Outbound P)) (d : Outbound P)
      → All (λ m. is_discrete m.msg_type ≡ false) ms
      → is_discrete d.msg_type ≡ true
      → numbered n (ms ++ d ∷ [])
        ≡ record {
          seq = n + length ms + 1;
          frame = envelope (n + length ms + 1) d.agent_id d.msg_type d.payload;
          at = d.at;
        }
          ∷ []
  numbered-other n [] d h e = ground arith
  numbered-other n (m ∷ ms) d h e = ground (arith, numbered-other (n + 1) ms d h.1 e)

  gap_report :
      (n k : ℕ) (frame : Envelope P) (at : ℕ) (wire : List (Envelope P)) (seq : ℕ)
      → 0 < k
      → let m : BufferedMsg P = record { seq = n + k + 1; frame = frame; at = at } in
        wire ++ warning n (some m.seq) seq ++ frames_above n (m ∷ [])
        ≡ wire
          ++ envelope
              (seq + 1)
              system_agent_id
              event_lost
              (event_lost_payload (n + 1) (n + k + 1) k)
            ∷ frame
            ∷ []
  gap_report n k frame at wire seq h =
      let a : ltb 0 (n + k + 1) ≡ true = ground arith in
      let b : ltb (n + 1) (n + k + 1) ≡ true = ground arith in
      let c : ltb n (n + k + 1) ≡ true = ground arith in
      let i : (n + k + 1) - (n + 1) ≡ k = omega arith in
      rw (a, b, c, i) (append_assoc wire _ (frame ∷ []))

  -- A peer that has every message up to now misses some heartbeats and the like, none of them
  -- discrete, and then one discrete message. The replay brings that message; before it, it reports
  -- as many lost messages as there were heartbeats, up to the number of the message it brings.
  pub false_alarm :
      (now : ℕ) (ms : List (Outbound P)) (d : Outbound P) (s : Server P)
      → s.conn ≡ open_conn
      → s.send_buf ≡ []
      → AreRecent now (ms ++ d ∷ [])
      → All (λ m. is_discrete m.msg_type ≡ false) ms
      → is_discrete d.msg_type ≡ true
      → 0 < length ms
      → let s' = send_all s (ms ++ d ∷ []) in
        let top = s.seq + length ms + 1 in
        (replay_from s.seq now s').wire
        ≡ s'.wire
          ++ envelope
              (s'.seq + 1)
              system_agent_id
              event_lost
              (event_lost_payload (s.seq + 1) top (length ms))
            ∷ envelope top d.agent_id d.msg_type d.payload
            ∷ []
  false_alarm now ms d s c e h others disc some_lost =
      let s' = send_all s (ms ++ d ∷ []) in
      let top = s.seq + length ms + 1 in
      let one = numbered-other s.seq ms d others disc in
      replay_loses_none s.seq now (ms ++ d ∷ []) s c e h (rw one (omega arith))
      ∙ ap (λ b. s'.wire ++ warning s.seq (oldest_seq b) s'.seq ++ frames_above s.seq b) one
      ∙ gap_report s.seq (length ms) (envelope top d.agent_id d.msg_type d.payload) d.at s'.wire
          s'.seq some_lost
