-- ===== src/WorldKb/Relations.antt =====
-- agenttown-mcp/pkg/worldkb/merger.go: `flattenRelationships`.
use Prim.Native.String.{◌++◌ as str_append}
use smart_npc.Prelude.{String, Bool, ◌||◌, List, [], ◌∷◌, ◌++◌, str_eq}
use smart_npc.Prelude.Tests.{if◌then◌else◌}
use smart_npc.Prelude.StringSet.{contains}
use smart_npc.Prelude.Int.{ℤ, pos}
use smart_npc.WorldKb.Json.{Value, arr, obj, num, Items, nil, cons, Fields, end, get}
use smart_npc.WorldKb.Entities.{text_of}
use smart_npc.WorldKb.Gather.{missing_ends, Outcome, done, refused, ◌>>=◌}

pub record Relationship : Type 0 where
  pub from : String
  pub to : String
  pub familiarity : ℤ
  pub affection : ℤ
  pub type : String

module _ {F : Type 0} where
  abbrev pub items_of : Value F → Items F
  items_of (arr xs) = xs
  items_of _ = nil

  abbrev pub fields_of : Value F → Fields F
  fields_of (obj m) = m
  fields_of _ = end

-- The relations so far, and the keys `from->to` that were seen.
abbrev pub Relations : Type 0
Relations = List String × List Relationship

unfoldable pub add_relationship : Relationship → Relations → Relations
add_relationship rel (seen, rels) =
    let key = str_append rel.from (str_append "->" rel.to) in
    if contains key seen then (seen, rels) else (key ∷ seen, rels ++ rel ∷ [])

-- `trunc` is the conversion `int(v)`.
module _ {F : Type 0} (trunc : F → ℤ) where
  abbrev int_of : Value F → ℤ
  int_of (num v) = trunc v
  int_of _ = pos 0

  relationship_from_map : Fields F → Relationship
  relationship_from_map m = record {
    from = text_of (get "from" m);
    to = text_of (get "to" m);
    familiarity = int_of (get "familiarity" m);
    affection = int_of (get "affection" m);
    type = text_of (get "type" m);
  }

  abbrev misses_end : Relationship → Bool
  misses_end rel = str_eq rel.from "" || str_eq rel.to ""

  -- The relations of one agent, where one without both ends is an error.
  unfoldable pub agent_relationships : String → Items F → Relations → Outcome Relations
  unfolding relationship_from_map
  agent_relationships id nil acc = done acc
  agent_relationships id (cons (obj rm) rs) acc =
      let rel = relationship_from_map rm in
      let rest = agent_relationships id rs (add_relationship rel acc) in
      if misses_end rel then refused (missing_ends id) else rest
  agent_relationships id (cons _ rs) acc = agent_relationships id rs acc

  -- The relations at the top, where one without both ends is left out.
  unfoldable pub top_relationships : Items F → Relations → Relations
  unfolding relationship_from_map
  top_relationships nil acc = acc
  top_relationships (cons (obj rm) rs) acc =
      let rel = relationship_from_map rm in
      top_relationships rs (if misses_end rel then acc else add_relationship rel acc)
  top_relationships (cons _ rs) acc = top_relationships rs acc

  unfoldable all_relationships : List String → Fields F → Relations → Outcome Relations
  all_relationships [] auth_agents acc = done acc
  all_relationships (id ∷ ids) auth_agents acc = do
    acc' ←
        agent_relationships id (items_of (get "relationships" (fields_of (get id auth_agents)))) acc
    all_relationships ids auth_agents acc'

  -- `ids` are the ids of the generated agents, in the order in which Go iterates them.
  unfoldable pub flatten_relationships : List String → Fields F → Outcome (List Relationship)
  unfolding all_relationships
  flatten_relationships ids auth = do
    (seen, rels) ← all_relationships ids (fields_of (get "agents" auth)) ([], [])
    done (top_relationships (items_of (get "relationships" auth)) (seen, rels)).1
