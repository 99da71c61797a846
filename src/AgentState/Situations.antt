-- ===== src/AgentState/Situations.antt =====
-- agenttown-mcp/pkg/agentstate/active_situations.go: ongoing situations, one to a kind.
pub mod Kinds
pub mod Expiry
use smart_npc.Prelude.{
  String, Bool, true, false, Option, none, some, List, [], ◌∷◌, ◌++◌, str_eq, ◌&&◌,
}
use smart_npc.Prelude.Tests.{if◌then◌else◌}
use smart_npc.Float64.{Float64}

pub record ActiveSituation (F : Type 0) : Type 0 where
  pub kind : String
  pub desc : String
  pub start_game_sec : F

module _ {F : Type 0} where
  -- The search that `BeginSituation` and `EndSituation` make.
  abbrev pub has_kind : String → List (ActiveSituation F) → Bool
  has_kind kind [] = false
  has_kind kind (s ∷ ss) = if str_eq s.kind kind then true else has_kind kind ss

  pub begin_situation : String → String → F → List (ActiveSituation F) → List (ActiveSituation F)
  begin_situation kind desc start_game_sec ss =
      if has_kind kind ss
      then ss
      else ss ++ record { kind = kind; desc = desc; start_game_sec = start_game_sec } ∷ []

  -- The list without its first situation of the kind.
  pub remove_kind : String → List (ActiveSituation F) → List (ActiveSituation F)
  remove_kind kind [] = []
  remove_kind kind (s ∷ ss) = if str_eq s.kind kind then ss else s ∷ remove_kind kind ss

  pub end_situation : String → List (ActiveSituation F) → List (ActiveSituation F) × Bool
  end_situation kind ss = if has_kind kind ss then (remove_kind kind ss, true) else (ss, false)

module _ {F : Type 0} ⦃fl : Float64 F⦄ where
  open fl use {zero_f, sub_f, lt_f}

  -- `ttlGameSec > 0 && nowGameSec > 0 && s.StartGameSec > 0 && nowGameSec-s.StartGameSec > ttlGameSec`
  unfoldable pub is_expired : F → F → ActiveSituation F → Bool
  is_expired now_game_sec ttl_game_sec s =
      lt_f zero_f ttl_game_sec
      && lt_f zero_f now_game_sec
      && lt_f zero_f s.start_game_sec
      && lt_f ttl_game_sec (sub_f now_game_sec s.start_game_sec)

  pub filter_situations : List (ActiveSituation F) → F → F → List (ActiveSituation F)
  filter_situations [] now_game_sec ttl_game_sec = []
  filter_situations (s ∷ ss) now_game_sec ttl_game_sec =
      let live = filter_situations ss now_game_sec ttl_game_sec in
      if is_expired now_game_sec ttl_game_sec s then live else s ∷ live

  -- `ActiveSituations`: what is stored, and what is returned.
  pub active_situations :
      F → F → List (ActiveSituation F) → List (ActiveSituation F) × List (ActiveSituation F)
  active_situations now_game_sec ttl_game_sec ss =
      let live = filter_situations ss now_game_sec ttl_game_sec in (live, live)
