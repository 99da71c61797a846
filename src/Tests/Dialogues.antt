-- ===== src/Tests/Dialogues.antt =====
-- The compaction of a dialogue.
use smart_npc.Prelude.{String, false, List, [], ◌∷◌}
use smart_npc.AgentState.Conversation.{Message}
use smart_npc.Compaction.{Dialogue}

abbrev plain : String → Message
plain role = record { role = role; content = "hm"; tool_calls = []; tool_call_id = "" }

abbrev call : String → Message
call id = record (plain "assistant") {
  tool_calls = record { id = id; call_type = "function"; name = "speak"; arguments = "" } ∷ [];
}

abbrev result : String → Message
result id = record (plain "tool") { tool_call_id = id }

abbrev morning_talk : List Message
morning_talk = plain "user" ∷ call "c1" ∷ result "c1" ∷ call "c2" ∷ result "c2" ∷ []

abbrev long_day : Dialogue
long_day = record {
  talk = record {
    conversation = plain "user" ∷ call "c1" ∷ call "c2" ∷ call "c3" ∷ call "c4" ∷ [];
    conversation_summary = "";
    tactical_header_plan = "";
  };
  compacting = false;
}

abbrev kept : List Message × List Message
kept = (plain "user" ∷ [], call "c1" ∷ call "c2" ∷ call "c3" ∷ call "c4" ∷ [])
