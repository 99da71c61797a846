-- ===== src/AgentState/Perception.antt =====
-- agenttown-mcp/pkg/agentstate/agent_state.go: what the agent last heard from UE, and the readers of
-- it.
pub mod Deltas
use smart_npc.Prelude.{
  ℕ, ◌+◌, String, Bool, true, false, Option, none, some, List, [], ◌∷◌, str_eq, not,
}
use smart_npc.Prelude.Tests.{if◌then◌else◌}
use smart_npc.Prelude.Int.{ℤ, negsuc}
use smart_npc.Float64.{Float64}
use smart_npc.Protocol.{
  RawMessage, absent, malformed, decoded, PhysicalState, PerceptionPayload, VisibleAgent,
  NearbyObject,
}

pub record Perception (F : Type 0) : Type 0 where
  pub online : Bool
  pub latest_physical : Option (PhysicalState F)
  pub latest_perception : RawMessage (PerceptionPayload F)
  pub latest_visible_agents : List (VisibleAgent F)
  pub prev_zone : String
  pub prev_object_ids : List String
  pub perception_count : ℕ

pub record PerceptionUpdate (F : Type 0) : Type 0 where
  pub cur_zone : String
  pub cur_object_ids : List String
  pub prev_zone : String
  pub prev_object_ids : List String
  pub prev_physical : Option (PhysicalState F)
  pub cur_physical : Option (PhysicalState F)
  pub perception_count : ℕ

abbrev pub zone_of : Option String → String
zone_of none = ""
zone_of (some z) = z

module _ {F : Type 0} where
  -- `extractObjectIDs`
  unfoldable pub extract_object_ids : List (NearbyObject F) → List String
  extract_object_ids [] = []
  extract_object_ids (obj ∷ objs) =
      let ids = extract_object_ids objs in if not (str_eq obj.id "") then obj.id ∷ ids else ids

  -- `latestZoneLocked`
  pub latest_zone : RawMessage (PerceptionPayload F) → String
  latest_zone (decoded p) = zone_of p.current_zone
  latest_zone _ = ""

  -- `latestDayCountLocked`
  unfoldable pub latest_day_count : RawMessage (PerceptionPayload F) → ℤ
  latest_day_count (decoded p) = p.environment.day_count
  latest_day_count _ = negsuc 0

  abbrev pub latest_nearby_objects : RawMessage (PerceptionPayload F) → List (NearbyObject F)
  latest_nearby_objects (decoded p) = p.nearby_objects
  latest_nearby_objects _ = []

  -- `p.PhysicalStateDelta["energy"]`: a missing key reads 0.
  reading : F → String → List (String × F) → F
  reading zero key [] = zero
  reading zero key ((k, v) ∷ m) = if str_eq k key then v else reading zero key m

module _ {F : Type 0} ⦃fl : Float64 F⦄ where
  open fl use {zero_f}

  -- `latestGameTimeSecLocked`, `LatestGameTimeSec`
  unfoldable pub latest_game_time_sec : RawMessage (PerceptionPayload F) → F
  latest_game_time_sec (decoded p) = p.environment.game_time_sec
  latest_game_time_sec _ = zero_f

  -- An empty map brings no state.
  unfoldable pub physical_of : List (String × F) → Option (PhysicalState F)
  unfolding reading
  physical_of [] = none
  physical_of (e ∷ m) = some (record {
    energy = reading zero_f "energy" (e ∷ m);
    fatigue = reading zero_f "fatigue" (e ∷ m);
    joint_wear = reading zero_f "joint_wear" (e ∷ m);
    money = reading zero_f "money" (e ∷ m);
  })

  abbrev pub or_else :
      Option (PhysicalState F) → Option (PhysicalState F) → Option (PhysicalState F)
  or_else none old = old
  or_else (some p) old = some p

  -- `SetPerception` on a payload that decodes; `none` is the parse error, which changes nothing.
  unfoldable pub set_perception :
      RawMessage (PerceptionPayload F) → Perception F → Perception F × Option (PerceptionUpdate F)
  set_perception (decoded p) a =
      let cur_physical = or_else (physical_of p.physical_state_delta) a.latest_physical in
      let cur_object_ids = extract_object_ids p.nearby_objects in
      (
        record a {
          latest_physical = cur_physical;
          latest_perception = decoded p;
          latest_visible_agents = p.visible_agents;
          prev_zone = zone_of p.current_zone;
          prev_object_ids = cur_object_ids;
          perception_count = a.perception_count + 1;
        },
        some (record {
          cur_zone = zone_of p.current_zone;
          cur_object_ids = cur_object_ids;
          prev_zone = a.prev_zone;
          prev_object_ids = a.prev_object_ids;
          prev_physical = a.latest_physical;
          cur_physical = cur_physical;
          perception_count = a.perception_count + 1;
        }),
      )
  set_perception _ a = (a, none)
