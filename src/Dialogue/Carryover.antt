-- ===== src/Dialogue/Carryover.antt =====
-- A conversation that is closed and taken up again.
use smart_npc.Prelude.{ℕ, ◌-◌, ◌≤◌, ◌<◌, String, true, ◌≡◌, ◌≢◌, [], ◌∷◌, ◌++◌, eq_iff, arith}
use smart_npc.Float64.{Float64}
use smart_npc.Dialogue.{
  Session, ConversationTurn, has_turns, conversation_carryover_window, record_conversation_turn,
  close_conversation, close_conversation_by_peer,
}

module _ {F : Type 0} ⦃fl : Float64 F⦄ where
  -- A conversation with turns is closed, and then a turn with some peer is recorded. With the same peer
  -- and within the window the turn follows the whole transcript; with the same peer later, or with
  -- another peer, it stands alone. To close by another peer's name changes nothing.
  pub carryover_lem :
      (wall wall' : ℕ) (peer speaker content : String) (now : F) (s : Session F)
      → s.conv_peer_id ≢ ""
      → has_turns s.conv_turns ≡ true
      → let turn : ConversationTurn = record { speaker_id = speaker; content = content } in
        let closed = close_conversation wall s in
        let again = record_conversation_turn wall' speaker peer content now closed in
        (peer ≡ s.conv_peer_id
          → wall' - wall ≤ conversation_carryover_window
          → again.conv_turns ≡ s.conv_turns ++ turn ∷ [])
        × (peer ≡ s.conv_peer_id
            → conversation_carryover_window < wall' - wall
            → again.conv_turns ≡ turn ∷ [])
        × (peer ≢ s.conv_peer_id
            → (again.conv_turns ≡ turn ∷ [])
              × (close_conversation_by_peer wall peer s ≡ (s, "", [])))
  unfolding close_conversation record_conversation_turn close_conversation_by_peer
  carryover_lem wall wall' peer speaker content now s named some_turns = (
    λ e w. ground (
      arith,
      e,
      w,
      named,
      some_turns,
      eq_iff s.conv_peer_id "",
      eq_iff s.conv_peer_id peer,
      eq_iff "" peer,
    ),
    λ e w. ground (
      arith,
      e,
      w,
      named,
      some_turns,
      eq_iff s.conv_peer_id "",
      eq_iff s.conv_peer_id peer,
      eq_iff "" peer,
    ),
    λ n. (
      ground (
        arith,
        n,
        named,
        some_turns,
        eq_iff s.conv_peer_id "",
        eq_iff s.conv_peer_id peer,
        eq_iff "" peer,
      ),
      ground (arith, n, named, eq_iff s.conv_peer_id "", eq_iff s.conv_peer_id peer),
    ),
  )
