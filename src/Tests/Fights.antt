-- ===== src/Tests/Fights.antt =====
-- A fight, from the attack to its end, and a conversation that is taken up again.
use smart_npc.Prelude.{
  ◌-◌, ◌≡◌, ◌≢◌, ◌≤◌, ◌<◌, String, true, false, none, List, [], ◌∷◌, ◌++◌, refl,
}
use smart_npc.Prelude.Lists.{All}
use smart_npc.Prelude.Int.{ℤ, pos}
use smart_npc.Protocol.{WorldEventPayload}
use smart_npc.AgentState.{new}
use smart_npc.AgentState.WorldEvents.{mark_world_event_seen}
use smart_npc.Dialogue.{
  Session, ConversationTurn, conversation_carryover_window, record_conversation_turn,
  close_conversation, close_conversation_by_peer,
}
use smart_npc.Dialogue.Carryover.{carryover_lem}
use smart_npc.Dispatch.{note_combat, handle_force_event, dispatch_event}
use smart_npc.Dispatch.Agent.{Texts, Context}
use smart_npc.Dispatch.Events.{is_combat_exit_event, effective_event_type, is_speech_heard}
use smart_npc.Dispatch.Yield.{no_event}
use smart_npc.Dispatch.Silence.{Input, arrives, grace_check, Fights, SilentFrom}
use smart_npc.Dispatch.Fight.{run, run-Silent}
use smart_npc.Dispatch.Entry.{Interrupted, Entered, force_interrupt_lem, detach_entry_lem}
use smart_npc.Dispatch.Replayed.{is_new, replayed_exit_interrupts}
use smart_npc.Tests.Data.{whole_seconds, event, differ}
use smart_npc.Tests.Reactions.{guard, reacting}

abbrev texts : Texts ℤ
texts = record {
  format = λ ev. ev.event_type;
  short = λ s. s;
  task_desc = λ a. "work";
  delta_line = λ before after. "";
  reaction_span = pos 3600;
  yield_ttl = pos 7200;
}

abbrev talk : Session ℤ
talk = record {
  conv_peer_id = "H-02";
  conv_turns = record { speaker_id = "H-02"; content = "shall we run?" } ∷ [];
  conv_last_game_sec = pos 90;
  last_closed_peer = "";
  last_closed_turns = [];
  last_closed_at = 0;
}

-- `act_1` is in flight, and a request is running.
abbrev working : Context ℤ
working = record {
  coord = guard;
  yield = record {
    active = false;
    since_game_sec = pos 0;
    last_event = no_event;
    since_wall = 0;
    prev_action_id = "";
    phys = none;
  };
  state = reacting;
  session = talk;
  request_running = true;
  pending_action_timeouts = "act_1" ∷ [];
}

abbrev yielded : Context ℤ
yielded = record working {
  yield = record (working.yield) { active = true; prev_action_id = "act_1" };
}

abbrev alarm : WorldEventPayload ℤ
alarm = record (event "ev_1") { force = true }

abbrev attack : WorldEventPayload ℤ
attack = record (event "ev_2") {
  category = "";
  event_type = "attacked";
  force = true;
  detach = true;
}

abbrev exit : WorldEventPayload ℤ
exit = record (event "ev_3") { category = ""; event_type = "combat_exit"; force = true }

-- An alarm and a second attack arrive, and the grace window ends.
abbrev fight : List (Input ℤ)
fight = arrives true 10 alarm true ∷ arrives true 11 attack true ∷ grace_check true ∷ []

fight-Fights : All Fights fight
unfolding is_combat_exit_event effective_event_type is_speech_heard
fight-Fights = ((refl, refl), ((refl, refl), (tt, tt)))

exit_is_exit : is_combat_exit_event exit ≡ true
unfolding is_combat_exit_event effective_event_type
exit_is_exit = refl

attack_is_no_exit : is_combat_exit_event attack ≡ false
unfolding is_combat_exit_event effective_event_type
attack_is_no_exit = refl

new_alarm : (mark_world_event_seen "ev_1" reacting.events).1 ≡ true
unfolding mark_world_event_seen new
new_alarm = refl

new_attack : (mark_world_event_seen "ev_2" reacting.events).1 ≡ true
unfolding mark_world_event_seen new
new_attack = refl

run-Silent_example : SilentFrom yielded (run texts fight yielded)
run-Silent_example = run-Silent texts fight yielded refl fight-Fights

force_interrupt_lem_example :
    Interrupted texts alarm true working (handle_force_event texts 10 alarm true working)
force_interrupt_lem_example = force_interrupt_lem texts 10 alarm true working refl new_alarm refl

detach_entry_lem_example :
    Entered texts attack working (handle_force_event texts 10 attack true working)
detach_entry_lem_example =
    detach_entry_lem texts 10 attack true working refl refl new_attack refl attack_is_no_exit

abbrev after_exit : Context ℤ
after_exit = (dispatch_event texts true 12 exit true yielded).0

new_exit : is_new "ev_3" yielded ≡ true
unfolding mark_world_event_seen new
new_exit = refl

replayed_exit_interrupts_example :
    Interrupted texts exit true
      (note_combat texts exit after_exit)
      (dispatch_event texts true 30 exit true after_exit)
replayed_exit_interrupts_example =
    replayed_exit_interrupts texts exit exit_is_exit true true true 12 30 yielded refl new_exit refl
      refl

abbrev peer : String
peer = "H-02"

abbrev answer : ConversationTurn
answer = record { speaker_id = "H-02"; content = "yes" }

abbrev again : Session ℤ
again = record_conversation_turn 25 "H-02" "H-02" "yes" (pos 95) (close_conversation 20 talk)

carryover_lem_example :
    (peer ≡ talk.conv_peer_id
      → 25 - 20 ≤ conversation_carryover_window
      → again.conv_turns ≡ talk.conv_turns ++ answer ∷ [])
    × (peer ≡ talk.conv_peer_id
        → conversation_carryover_window < 25 - 20
        → again.conv_turns ≡ answer ∷ [])
    × (peer ≢ talk.conv_peer_id
        → (again.conv_turns ≡ answer ∷ [])
          × (close_conversation_by_peer 20 "H-02" talk ≡ (talk, "", [])))
carryover_lem_example =
    carryover_lem 20 25 "H-02" "H-02" "yes" (pos 95) talk (differ "H-02" "" refl) refl
