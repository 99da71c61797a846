-- ===== src/Dispatch/Agent.antt =====
-- agenttown-mcp/cmd/agenttown-mcp/main.go: the part of `agentContext` that the dispatch of world events
-- touches, and what its handlers send and start.
use smart_npc.Prelude.{String, Bool, true, false, Option, List, [], ◌∷◌, str_eq, not, ◌||◌}
use smart_npc.Prelude.Tests.{if◌then◌else◌}
use smart_npc.Prelude.StringSet.{delete}
use smart_npc.Float64.{Float64}
use smart_npc.Protocol.{WorldEventPayload, PhysicalState}
use smart_npc.AgentState.{AgentState}
use smart_npc.AgentState.Perception.{latest_game_time_sec}
use smart_npc.AgentState.WorldEvents.{
  WorldEvents, echo_world_event, EnqueueWorldEventResult, enqueue_ok,
}
use smart_npc.Reaction.{Coordination}
use smart_npc.Dialogue.{Session}
use smart_npc.Dispatch.Yield.{CombatYield}

-- What a handler sends, and what it starts beside itself.
pub data Effect (F : Type 0) : Type 0 where
  cancel_request : Effect F
  stop_action : String → Effect F
  force_replan : WorldEventPayload F → String → Effect F
  combat_action : WorldEventPayload F → Effect F
  combat_episode : WorldEventPayload F → Effect F
  bridge_action : Effect F
  strategic_replan : Effect F
  wake : Effect F
  judge : WorldEventPayload F → Effect F

-- The texts that the handlers render, and their time spans in game seconds.
pub record Texts (F : Type 0) : Type 0 where
  pub format : WorldEventPayload F → String
  pub short : String → String
  pub task_desc : AgentState F → String
  pub delta_line : Option (PhysicalState F) → Option (PhysicalState F) → String
  pub reaction_span : F
  pub yield_ttl : F

pub record Context (F : Type 0) : Type 0 where
  pub coord : Coordination F
  pub yield : CombatYield F
  pub state : AgentState F
  pub session : Session F
  pub request_running : Bool
  pub pending_action_timeouts : List String

-- A handler's new state and its effects.
abbrev pub Handled : Type 0 → Type 0
Handled F = Context F × List (Effect F)

abbrev pub is_ok : EnqueueWorldEventResult → Bool
is_ok enqueue_ok = true
is_ok _ = false

abbrev pub situation_kind_combat : String
situation_kind_combat = "combat"

module _ {F : Type 0} where
  abbrev pub with_events : WorldEvents F → Context F → Context F
  with_events w c = record c { state = record (c.state) { events = w } }

  -- `EchoWorldEvent`, but for an event without an id and a type.
  unfoldable pub echo_named : WorldEventPayload F → Context F → Context F
  echo_named ev c =
      if not (str_eq ev.event_id "") || not (str_eq ev.event_type "")
      then with_events (echo_world_event ev c.state.events) c
      else c

  abbrev pub stop_of : String → List (Effect F)
  stop_of action_id = if str_eq action_id "" then [] else stop_action action_id ∷ []

  abbrev pub cancel_of : Context F → List (Effect F)
  cancel_of c = if c.request_running then cancel_request ∷ [] else []

  -- `delete(a.pendingActionTimeouts, actionID)`
  abbrev pub without_timer : String → Context F → Context F
  without_timer action_id c = record c {
    pending_action_timeouts =
        if str_eq action_id ""
        then c.pending_action_timeouts
        else delete action_id c.pending_action_timeouts;
  }

module _ {F : Type 0} ⦃fl : Float64 F⦄ where
  abbrev pub now_of : Context F → F
  now_of c = latest_game_time_sec c.state.perception.latest_perception
