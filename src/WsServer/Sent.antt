-- ===== src/WsServer/Sent.antt =====
-- The send buffer of server.go after a sequence of messages.
use smart_npc.Prelude.{
  ℕ, ◌+◌, ◌-◌, ◌≤◌, String, ◌≡◌, refl, sym, ap, ◌∙◌, false, List, [], ◌∷◌, ◌++◌, inl, inr, arith,
}
use smart_npc.Prelude.Tests.{ltb, if◌then◌else◌, Bool-cases}
use smart_npc.Prelude.Lists.{length, All, All-append, length-append, drop_at}
use mathlib.Core.Path.{subst}
use mathlib.Core.List.{append_assoc, append-nil}
use smart_npc.WsServer.{
  MsgType, is_discrete, Payload, BufferedMsg, Server, drop_old, evict, buffer_outbound, envelope,
  retain, send_envelope, send_buffer_max_age,
}
use smart_npc.WsServer.Buffer.{write_frame_keeps}

-- A message as a caller hands it over, and when.
pub record Outbound (P : Type 0) : Type 0 where
  pub agent_id : String
  pub msg_type : MsgType
  pub payload : Payload P
  pub at : ℕ

module _ {P : Type 0} where
  pub send_all : Server P → List (Outbound P) → Server P
  send_all s [] = s
  send_all s (m ∷ ms) = send_all (send_envelope m.agent_id m.msg_type m.payload m.at s).0 ms

  -- The discrete ones of the messages, under the numbers that they get after `n`.
  abbrev pub numbered : ℕ → List (Outbound P) → List (BufferedMsg P)
  numbered n [] = []
  numbered n (m ∷ ms) =
      if is_discrete m.msg_type
      then record {
        seq = n + 1;
        frame = envelope (n + 1) m.agent_id m.msg_type m.payload;
        at = m.at;
      }
        ∷ numbered (n + 1) ms
      else numbered (n + 1) ms

  pub evict_of_recent :
      (now : ℕ) (ms : List (BufferedMsg P))
      → All (λ m. now ≤ m.at + send_buffer_max_age) ms
      → length ms ≤ 200
      → evict now ms ≡ ms
  unfolding evict drop_old
  evict_of_recent now [] h l = refl
  evict_of_recent now (m ∷ ms) h l =
      let young : ltb (m.at + send_buffer_max_age) now ≡ false = ground arith in
      rw young (drop_at (length (m ∷ ms) - 200) 0 (m ∷ ms) (omega arith))

  -- The messages were sent by `now`, and are still within the retention then.
  abbrev pub AreRecent : ℕ → List (Outbound P) → Type 0
  AreRecent now = All λ m. (m.at ≤ now) × (now ≤ m.at + send_buffer_max_age)

  numbered-cons :
      (n : ℕ) (m : Outbound P) (ms : List (Outbound P))
      → numbered n (m ∷ ms) ≡ numbered n (m ∷ []) ++ numbered (n + 1) ms
  numbered-cons n m ms = ground arith

  recent_before :
      (t now : ℕ) (bs : List (BufferedMsg P))
      → t ≤ now
      → All (λ b. now ≤ b.at + send_buffer_max_age) bs
      → All (λ b. t ≤ b.at + send_buffer_max_age) bs
  recent_before t now [] h k = tt
  recent_before t now (b ∷ bs) h k = (omega (arith, k.0), recent_before t now bs h k.1)

  buf-retain :
      (now : ℕ) (m : Outbound P) (s : Server P)
      → m.at ≤ now
      → All (λ b. now ≤ b.at + send_buffer_max_age) s.send_buf
      → length (s.send_buf ++ numbered s.seq (m ∷ [])) ≤ 200
      → (retain m.agent_id m.msg_type m.payload m.at s).send_buf
        ≡ s.send_buf ++ numbered s.seq (m ∷ [])
  unfolding retain buffer_outbound
  buf-retain now m s h k l = elim (Bool-cases (is_discrete m.msg_type)) [
    | inl d ↦
        let b : BufferedMsg P = record {
          seq = s.seq + 1;
          frame = envelope (s.seq + 1) m.agent_id m.msg_type m.payload;
          at = m.at;
        } in
        rw d (
          evict_of_recent m.at (s.send_buf ++ b ∷ [])
            (All-append _ s.send_buf (b ∷ []) (recent_before m.at now s.send_buf h k) (omega arith))
            (ground arith))
    | inr c ↦ rw c (sym (append-nil s.send_buf))
  ]

  recent-numbered :
      (now : ℕ) (m : Outbound P) (n : ℕ)
      → now ≤ m.at + send_buffer_max_age
      → All (λ b. now ≤ b.at + send_buffer_max_age) (numbered n (m ∷ []))
  recent-numbered now m n h = ground arith

  pub buf-send_all :
      (now : ℕ) (ms : List (Outbound P)) (s : Server P)
      → AreRecent now ms
      → All (λ b. now ≤ b.at + send_buffer_max_age) s.send_buf
      → length (s.send_buf ++ numbered s.seq ms) ≤ 200
      → let s' = send_all s ms in
        (s'.send_buf ≡ s.send_buf ++ numbered s.seq ms)
        × (s'.conn ≡ s.conn)
        × All (λ b. now ≤ b.at + send_buffer_max_age) s'.send_buf
  unfolding send_all send_envelope
  buf-send_all now [] s h k l = (sym (append-nil s.send_buf), refl, k)
  buf-send_all now (m ∷ ms) s h k l =
      let one = numbered s.seq (m ∷ []) in
      let later = numbered (s.seq + 1) ms in
      let split = ap (λ l. s.send_buf ++ l) (numbered-cons s.seq m ms) in
      let r = retain m.agent_id m.msg_type m.payload m.at s in
      let kept = write_frame_keeps (envelope (s.seq + 1) m.agent_id m.msg_type m.payload) r in
      let assoc = append_assoc s.send_buf one later in
      let l₁ : length (s.send_buf ++ one) ≤ 200 =
        omega (arith, ap length split, ap length assoc, length-append (s.send_buf ++ one) later) in
      let b = kept.0 ∙ buf-retain now m s h.0.0 k l₁ in
      let s' = (send_envelope m.agent_id m.msg_type m.payload m.at s).0 in
      let n : s'.seq ≡ s.seq + 1 = kept.1 ∙ (unfold retain in refl) in
      let whole : s'.send_buf ++ numbered s'.seq ms ≡ s.send_buf ++ numbered s.seq (m ∷ ms) =
        ap (λ l. l ++ numbered s'.seq ms) b
        ∙ ap (λ k. (s.send_buf ++ one) ++ numbered k ms) n
        ∙ assoc
        ∙ sym split in
      let rest =
        buf-send_all now ms s' h.1
          (subst (All (λ (b : BufferedMsg P). now ≤ b.at + send_buffer_max_age)) (sym b)
            (All-append _ s.send_buf one k (recent-numbered now m s.seq h.0.1)))
          (omega (arith, ap length whole)) in
      (rest.0 ∙ whole, rest.1 ∙ kept.2 ∙ (unfold retain in refl), rest.2)
