-- ===== src/Compaction/Window.antt =====
-- The time between the split and the summary, in which other turns go on with the dialogue.
use smart_npc.Prelude.{List, [], ◌∷◌}
use smart_npc.AgentState.Conversation.{Message, append_conversation_message}
use smart_npc.Compaction.{Dialogue}

-- The messages that other turns append meanwhile.
pub append_all : List Message → Dialogue → Dialogue
append_all [] d = d
append_all (m ∷ ms) d = append_all ms (record d { talk = append_conversation_message m d.talk })
