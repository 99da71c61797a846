-- ===== src/WorldKb/Query/Merged.antt =====
-- After a merge the queries find every entity.
use mathlib.Core.Path.{subst}
use smart_npc.Prelude.{String, ◌≡◌, sym, some, List}
use smart_npc.Prelude.Lists.{All}
use smart_npc.Prelude.Int.{ℤ}
use smart_npc.Float64.{Float64}
use smart_npc.WorldKb.Json.{Fields, get}
use smart_npc.WorldKb.Entities.{Zone, Object, Agent}
use smart_npc.WorldKb.Relations.{fields_of}
use smart_npc.WorldKb.Gather.{MergeWarning, done}
use smart_npc.WorldKb.Gather.Turn.{KeepsIds}
use smart_npc.WorldKb.Gather.Ids.{NoRepeat}
use smart_npc.WorldKb.Merger.Sorting.{NoRepeat-sort_by_id}
use smart_npc.WorldKb.Merger.{Kb, zone_kind, object_kind, agent_kind, merge_documents}
use smart_npc.WorldKb.Merger.Documents.{entities_are_generated}
use smart_npc.WorldKb.Query.{get_zone, get_object, get_agent}
use smart_npc.WorldKb.Query.Index.{index-finds}

module _ {F : Type 0} ⦃fl : Float64 F⦄ (trunc : F → ℤ) (default_radius : F)
    (order : List String → List String) (gen auth : Fields F) where
  -- After a merge that succeeds every zone, object and agent of the knowledge base is what its id
  -- looks up, where no overlay, once converted, has an `id` of its own, and no key twice.
  pub merged_entities_are_found :
      (kb : Kb F) (w : List MergeWarning)
      → KeepsIds (zone_kind (fields_of (get "zones" auth)))
      → KeepsIds (object_kind default_radius (fields_of (get "objects" auth)))
      → KeepsIds (agent_kind (fields_of (get "agents" auth)))
      → merge_documents trunc default_radius order gen auth ≡ done (kb, w)
      → All (λ (z : Zone F). get_zone (some kb) z.id ≡ some z) kb.zone_list
        × All (λ (o : Object F). get_object (some kb) o.id ≡ some o) kb.object_list
        × All (λ (a : Agent F). get_agent (some kb) a.id ≡ some a) kb.agent_list
  unfolding get_zone get_object get_agent
  merged_entities_are_found kb w kz ko ka h =
      let (z, o, a, nz, no_, na) =
        entities_are_generated trunc default_radius order gen auth kb w kz ko ka h in
      (
        index-finds (λ (z : Zone F). z.id) kb.zone_list
            (subst NoRepeat (sym z) (NoRepeat-sort_by_id _ nz)),
        index-finds (λ (o : Object F). o.id) kb.object_list
            (subst NoRepeat (sym o) (NoRepeat-sort_by_id _ no_)),
        index-finds (λ (a : Agent F). a.id) kb.agent_list
            (subst NoRepeat (sym a) (NoRepeat-sort_by_id _ na)),
      )
