-- ===== src/Dispatch/Yield.antt =====
-- agenttown-mcp/cmd/agenttown-mcp/world_event_dispatch.go: the flags of a yield to UE's combat AI.
use smart_npc.Prelude.{ℕ, String, Bool, true, false, Option, none, some, str_eq}
use smart_npc.Prelude.Tests.{if◌then◌else◌}
use smart_npc.Prelude.Int.{pos}
use smart_npc.Float64.{Float64}
use smart_npc.Protocol.{WorldEventPayload, PhysicalState, absent}

pub record CombatYield (F : Type 0) : Type 0 where
  pub active : Bool
  pub since_game_sec : F
  pub last_event : WorldEventPayload F
  pub since_wall : ℕ
  pub prev_action_id : String
  pub phys : Option (PhysicalState F)

module _ {F : Type 0} where
  -- The baseline is latched once.
  abbrev latched : Option (PhysicalState F) → Option (PhysicalState F) → Option (PhysicalState F)
  latched phys (some p) = some p
  latched phys none = phys

module _ {F : Type 0} ⦃fl : Float64 F⦄ where
  open fl use {zero_f, lt_f}

  abbrev pub no_event : WorldEventPayload F
  no_event = record {
    event_id = "";
    category = "";
    event_type = "";
    force = false;
    detach = false;
    severity = pos 0;
    subject = "";
    game_time = "";
    location = "";
    occurred_at = pos 0;
    payload = absent;
  }

  unfoldable pub begin_combat_yield :
      ℕ
      → WorldEventPayload F
      → F
      → String
      → Option (PhysicalState F)
      → CombatYield F
      → CombatYield F
  begin_combat_yield wall ev now_game_sec prev_action_id phys y = record {
    active = true;
    since_game_sec = if lt_f zero_f now_game_sec then now_game_sec else zero_f;
    last_event = ev;
    since_wall = wall;
    prev_action_id = if str_eq prev_action_id "" then y.prev_action_id else prev_action_id;
    phys = latched phys y.phys;
  }

  unfoldable pub end_combat_yield : CombatYield F → CombatYield F
  end_combat_yield y = record {
    active = false;
    since_game_sec = zero_f;
    last_event = no_event;
    since_wall = 0;
    prev_action_id = "";
    phys = none;
  }
