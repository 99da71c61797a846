-- ===== src/Protocol.antt =====
-- agenttown-mcp/contract/protocol/messages.go: the payloads that the agent state keeps.
use smart_npc.Prelude.{String, Bool, Option, List}
use smart_npc.Prelude.Int.{ℤ}

-- A decoded JSON value, Go's `any`.
mutual
  pub data Json (F : Type 0) : Type 0 where
    null : Json F
    bool : Bool → Json F
    number : F → Json F
    text : String → Json F
    array : Items F → Json F
    object : Fields F → Json F

  pub data Items (F : Type 0) : Type 0 where
    nil : Items F
    cons : Json F → Items F → Items F

  pub data Fields (F : Type 0) : Type 0 where
    end : Fields F
    field : String → Json F → Fields F → Fields F

-- `map[string]any`; `none` is the nil map.
abbrev pub Params : Type 0 → Type 0
Params F = Option (Fields F)

-- A `json.RawMessage`, by what `json.Unmarshal` into a struct `A` makes of it.
pub data RawMessage {ℓ} (A : Type ℓ) : Type ℓ where
  absent : RawMessage A  -- no bytes: the nil or empty slice
  malformed : RawMessage A  -- `Unmarshal` returns an error
  decoded : A → RawMessage A

pub record PhysicalState (F : Type 0) : Type 0 where
  pub energy : F
  pub fatigue : F
  pub joint_wear : F
  pub money : F

pub record CurrentTaskProgress (F : Type 0) : Type 0 where
  pub action_id : String
  pub progress : F

pub record VisibleAgent (F : Type 0) : Type 0 where
  pub id : String
  pub name : String
  pub distance : F
  pub angle : F
  pub current_action : String

pub record NearbyObject (F : Type 0) : Type 0 where
  pub id : String
  pub name : String
  pub category : String
  pub distance : F
  pub state : String
  pub available_interactions : List String

pub record Environment (F : Type 0) : Type 0 where
  pub game_time_sec : F
  pub time_of_day_sec : F
  pub day_count : ℤ
  pub time_scale : F
  pub weather : String

-- The fields of a perception that the agent state reads; `current_zone` is the one of `Location`.
pub record PerceptionPayload (F : Type 0) : Type 0 where
  pub current_zone : Option String
  pub physical_state_delta : List (String × F)
  pub visible_agents : List (VisibleAgent F)
  pub nearby_objects : List (NearbyObject F)
  pub environment : Environment F

pub data QueueStatus : Type 0 where
  queued advanced timeout : QueueStatus
  other_status : String → QueueStatus

pub record ActionQueuedPayload (F : Type 0) : Type 0 where
  pub action_id : String
  pub status : QueueStatus
  pub group : String
  pub position : Option ℤ
  pub estimated_wait_sec : Option F

pub record WorldEventPayload (F : Type 0) : Type 0 where
  pub event_id : String
  pub category : String
  pub event_type : String
  pub force : Bool
  pub detach : Bool
  pub severity : ℤ
  pub subject : String
  pub game_time : String
  pub location : String
  pub occurred_at : ℤ
  pub payload : RawMessage (Json F)
