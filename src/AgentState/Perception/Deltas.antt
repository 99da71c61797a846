-- ===== src/AgentState/Perception/Deltas.antt =====
-- The deltas that `SetPerception` reports, of two perceptions in a row.
use smart_npc.Prelude.{◌+◌, ◌≡◌, some, arith}
use smart_npc.Float64.{Float64}
use smart_npc.Protocol.{decoded, PerceptionPayload}
use smart_npc.AgentState.Perception.{
  or_else, Perception, PerceptionUpdate, latest_zone, physical_of, set_perception,
}

module _ {F : Type 0} ⦃fl : Float64 F⦄ where
  -- Of two perceptions in a row that decode, the second reports as its previous zone, objects and
  -- physical state what the first reported as current, the counter goes up by one, and its current
  -- physical state is the one it brings, or the one before where it brings no readings.
  pub deltas_chain :
      (a : Perception F) (p q : PerceptionPayload F) (u v : PerceptionUpdate F)
      → (set_perception (decoded p) a).1 ≡ some u
      → (set_perception (decoded q) (set_perception (decoded p) a).0).1 ≡ some v
      → (v.prev_zone ≡ u.cur_zone)
        × (v.prev_object_ids ≡ u.cur_object_ids)
        × (v.prev_physical ≡ u.cur_physical)
        × (v.perception_count ≡ u.perception_count + 1)
        × (v.cur_zone ≡ latest_zone (decoded q))
        × (v.cur_physical ≡ or_else (physical_of q.physical_state_delta) u.cur_physical)
  unfolding set_perception latest_zone physical_of
  deltas_chain a p q u v h k = ground arith
