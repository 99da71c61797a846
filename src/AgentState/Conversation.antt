-- ===== src/AgentState/Conversation.antt =====
-- agenttown-mcp/pkg/agentstate/agent_state.go: the tactical dialogue history, its digest, and the
-- time_to_stop marker.
use smart_npc.Prelude.{String, Option, none, some, List, [], ◌∷◌, ◌++◌}
use smart_npc.Prelude.Tests.{if◌then◌else◌}
use smart_npc.Float64.{Float64}

pub record ToolCall : Type 0 where
  pub id : String
  pub call_type : String
  pub name : String
  pub arguments : String

pub record Message : Type 0 where
  pub role : String
  pub content : String
  pub tool_calls : List ToolCall
  pub tool_call_id : String

pub record Conversation : Type 0 where
  pub conversation : List Message
  pub conversation_summary : String
  pub tactical_header_plan : String

unfoldable pub append_conversation_message : Message → Conversation → Conversation
append_conversation_message m c = record c { conversation = c.conversation ++ m ∷ [] }

unfoldable pub clear_conversation : Conversation → Conversation
clear_conversation c = record c {
  conversation = [];
  conversation_summary = "";
  tactical_header_plan = "";
}

unfoldable pub set_tactical_header_plan : String → Conversation → Conversation
set_tactical_header_plan plan c = record c { tactical_header_plan = plan }

unfoldable pub compact_conversation : String → List Message → Conversation → Conversation
compact_conversation summary tail c = record c {
  conversation_summary = summary;
  conversation = tail;
  tactical_header_plan = "";
}

pub record TimeStop (F : Type 0) : Type 0 where
  pub time_stop_target_game_sec : F
  pub time_stop_action_id : String
  pub time_stop_duration_sec : F

module _ {F : Type 0} ⦃fl : Float64 F⦄ where
  open fl use {zero_f, minus_one, lt_f}

  unfoldable pub arm_time_stop : String → F → F → TimeStop F
  arm_time_stop action_id target_game_sec duration_sec = record {
    time_stop_target_game_sec = target_game_sec;
    time_stop_action_id = action_id;
    time_stop_duration_sec = duration_sec;
  }

  -- The target, the duration and the action; `none` where nothing is armed.
  unfoldable pub read_time_stop : TimeStop F → Option (F × F × String)
  read_time_stop t =
      if lt_f t.time_stop_target_game_sec zero_f
      then none
      else some (t.time_stop_target_game_sec, t.time_stop_duration_sec, t.time_stop_action_id)

  unfoldable pub clear_time_stop : TimeStop F
  clear_time_stop = record {
    time_stop_target_game_sec = minus_one;
    time_stop_action_id = "";
    time_stop_duration_sec = zero_f;
  }
