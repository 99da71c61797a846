-- ===== src/Dialogue.antt =====
-- agenttown-mcp/cmd/agenttown-mcp/relationship.go: the session of a conversation between two agents, with
-- the snapshot of the one that was closed last. The fields are those of `agentContext` in main.go;
-- `wall` is the wall-clock time in nanoseconds.
pub mod Carryover
use smart_npc.Prelude.{
  ℕ, ◌+◌, ◌-◌, ◌*◌, ◌^◌, String, Bool, true, false, List, [], ◌∷◌, ◌++◌, str_eq, not, ◌&&◌, ◌||◌,
}
use smart_npc.Prelude.Tests.{leb, if◌then◌else◌}
use smart_npc.Float64.{Float64}

pub record ConversationTurn : Type 0 where
  pub speaker_id : String
  pub content : String

pub record Session (F : Type 0) : Type 0 where
  pub conv_peer_id : String
  pub conv_turns : List ConversationTurn
  pub conv_last_game_sec : F
  pub last_closed_peer : String
  pub last_closed_turns : List ConversationTurn
  pub last_closed_at : ℕ

abbrev pub has_turns : List ConversationTurn → Bool
has_turns [] = false
has_turns (t ∷ ts) = true

-- 60 s
abbrev pub conversation_carryover_window : ℕ
conversation_carryover_window = 60 * 10 ^ 9

module _ {F : Type 0} where
  -- The turns that a new one is appended to.
  abbrev pub turns_before : ℕ → String → Session F → List ConversationTurn
  turns_before wall peer_id s =
      let kept = if str_eq s.conv_peer_id peer_id then s.conv_turns else [] in
      if not (has_turns kept)
        && str_eq s.last_closed_peer peer_id
        && has_turns s.last_closed_turns
        && leb (wall - s.last_closed_at) conversation_carryover_window
      then s.last_closed_turns
      else kept

  unfoldable pub record_conversation_turn :
      ℕ → (speaker_id peer_id content : String) → F → Session F → Session F
  record_conversation_turn wall speaker_id peer_id content now_game_sec s = record s {
    conv_peer_id = peer_id;
    conv_turns =
        turns_before wall peer_id s ++ record { speaker_id = speaker_id; content = content } ∷ [];
    conv_last_game_sec = now_game_sec;
  }

module _ {F : Type 0} ⦃fl : Float64 F⦄ where
  open fl use {zero_f, sub_f, lt_f, le_f}

  -- `closeConversationLocked`, and `clearConversation`, which drops what it returns.
  unfoldable pub close_conversation : ℕ → Session F → Session F
  close_conversation wall s =
      let kept = not (str_eq s.conv_peer_id "") && has_turns s.conv_turns in
      record {
        conv_peer_id = "";
        conv_turns = [];
        conv_last_game_sec = zero_f;
        last_closed_peer = if kept then s.conv_peer_id else s.last_closed_peer;
        last_closed_turns = if kept then s.conv_turns else s.last_closed_turns;
        last_closed_at = if kept then wall else s.last_closed_at;
      }

  -- The new session, and the peer and the turns that were closed.
  abbrev closing : ℕ → Session F → Session F × String × List ConversationTurn
  closing wall s = (close_conversation wall s, s.conv_peer_id, s.conv_turns)

  -- `idle` is `conversationIdleTimeoutGameSec`, 1200 s.
  unfoldable pub close_conversation_if_idle :
      F → ℕ → F → Session F → Session F × String × List ConversationTurn
  unfolding close_conversation
  close_conversation_if_idle idle wall now_game_sec s =
      if str_eq s.conv_peer_id "" || le_f s.conv_last_game_sec zero_f
      then (s, "", [])
      else if lt_f (sub_f now_game_sec s.conv_last_game_sec) idle
      then (s, "", [])
      else closing wall s

  unfoldable pub close_conversation_by_peer :
      ℕ → String → Session F → Session F × String × List ConversationTurn
  unfolding close_conversation
  close_conversation_by_peer wall target s =
      if str_eq s.conv_peer_id "" || not (str_eq s.conv_peer_id target)
      then (s, "", [])
      else closing wall s
