-- ===== src/Dispatch/Events.antt =====
-- agenttown-mcp/pkg/prompt/world_event.go: what kind of event a world event is, under the names that UE
-- gives it.
use smart_npc.Prelude.{String, Bool, str_eq, not, ◌&&◌, ◌||◌}
use smart_npc.Prelude.Tests.{if◌then◌else◌}
use smart_npc.Protocol.{WorldEventPayload}

abbrev pub is_attack : String → Bool
is_attack type = str_eq type "player_attacked" || str_eq type "player_targeted"

module _ {F : Type 0} where
  -- `combatEventTypeAliases`
  unfoldable pub effective_event_type : WorldEventPayload F → String
  effective_event_type ev =
      if str_eq ev.event_type "attacked"
      then "player_attacked"
      else if str_eq ev.event_type "targeted"
      then "player_targeted"
      else ev.event_type

  unfoldable pub effective_category : WorldEventPayload F → String
  unfolding effective_event_type
  effective_category ev =
      let type = effective_event_type ev in
      if not (str_eq ev.category "")
      then ev.category
      else if is_attack type || str_eq type "combat_exit"
      then "player_interaction"
      else ev.category

  abbrev combat_category_ok : WorldEventPayload F → Bool
  combat_category_ok ev = str_eq ev.category "" || str_eq ev.category "player_interaction"

  unfoldable pub is_combat_start_event : WorldEventPayload F → Bool
  unfolding effective_event_type
  is_combat_start_event ev = combat_category_ok ev && is_attack (effective_event_type ev)

  unfoldable pub is_combat_exit_event : WorldEventPayload F → Bool
  unfolding effective_event_type
  is_combat_exit_event ev = combat_category_ok ev && str_eq (effective_event_type ev) "combat_exit"

  -- `isSocialSpeechEvent` of world_event_dispatch.go.
  unfoldable pub is_social_speech_event : WorldEventPayload F → Bool
  unfolding effective_event_type effective_category
  is_social_speech_event ev =
      str_eq (effective_category ev) "social" || str_eq (effective_event_type ev) "speech_heard"

  -- What `handleWorldEvent` takes for speech that was heard, and records in the transcript first.
  unfoldable pub is_speech_heard : WorldEventPayload F → Bool
  is_speech_heard ev = str_eq ev.category "social" && str_eq ev.event_type "speech_heard"
