-- ===== src/WorldKb/Validator/Consistency.antt =====
-- `Validate` finds no error exactly when the ids are well formed and every reference has its target.
use smart_npc.Prelude.{
  String, Bool, true, false, ◌||◌, ◌≡◌, refl, ◌↔◌, some, List, [], ◌∷◌, ◌++◌, map, str_eq,
}
use smart_npc.Prelude.Lists.{All}
use smart_npc.Prelude.StringSet.{contains}
use smart_npc.WorldKb.Entities.{Connection, Zone, Object, Agent}
use smart_npc.WorldKb.Relations.{Relationship}
use smart_npc.WorldKb.Merger.{Kb}
use smart_npc.WorldKb.Validator.{
  Issue, is_valid_id, is_valid_agent_id, unless, each, zone_issues, object_issues, agent_issues,
  connection_issues, relationship_issues, validate,
}

-- A reference that may be left out.
abbrev pub Refers : List String → String → Type 0
Refers ids id = (str_eq id "" || contains id ids) ≡ true

module _ {F : Type 0} (kb : Kb F) where
  abbrev pub zone_names : List String
  zone_names = map (λ (z : Zone F). z.id) kb.zone_list

  abbrev pub agent_names : List String
  agent_names = map (λ (a : Agent F). a.id) kb.agent_list

  -- What a consistent knowledge base is.
  pub record IsConsistent : Type 0 where
    pub zones : All (λ (z : Zone F). is_valid_id z.id ≡ true) kb.zone_list
    pub objects :
        All
          (λ (o : Object F). (is_valid_id o.id ≡ true) × Refers zone_names o.zone_id)
          kb.object_list
    pub agents :
        All
          (λ (a : Agent F). (is_valid_agent_id a.id ≡ true) × Refers zone_names a.initial_zone)
          kb.agent_list
    pub connections :
        All
          (λ (z : Zone F). All (λ (c : Connection). contains c.to zone_names ≡ true) z.connections)
          kb.zone_list
    pub relations :
        All
          (λ (r : Relationship).
            (contains r.from agent_names ≡ true) × (contains r.to agent_names ≡ true))
          kb.relationships

abbrev Clear : List Issue → Type 0
Clear is = is ≡ []

unless-Clear : (b : Bool) (i : Issue) → Clear (unless b i) ↔ (b ≡ true)
unless-Clear true i = (λ h. refl, λ h. refl)
unless-Clear false i = (λ h. cc, λ h. cc)

append-Clear : (is js : List Issue) → Clear (is ++ js) ↔ (Clear is × Clear js)
append-Clear [] js = (λ h. (refl, h), λ h. h.1)
append-Clear (i ∷ is) js = (λ h. cc, λ h. cc (h.0))

each-Clear :
    {A : Type 0} (f : A → List Issue) (P : A → Type 0)
    → ((x : A) → Clear (f x) ↔ P x)
    → (xs : List A) → Clear (each f xs) ↔ All P xs
unfolding each
each-Clear f P e [] = (λ h. tt, λ h. refl)
each-Clear f P e (x ∷ xs) =
    let both = append-Clear (f x) (each f xs) in
    let rest = each-Clear f P e xs in
    (λ h. ((e x).0 (both.0 h).0, rest.0 (both.0 h).1), λ h. both.1 ((e x).1 h.0, rest.1 h.1))

two-Clear :
    (b c : Bool) (i j : Issue) → Clear (unless b i ++ unless c j) ↔ ((b ≡ true) × (c ≡ true))
two-Clear true true i j = (λ h. (refl, refl), λ h. refl)
two-Clear true false i j = (λ h. cc, λ h. cc (h.1))
two-Clear false c i j = (λ h. cc, λ h. cc (h.0))

five-Clear :
    (a b c d e : List Issue)
    → Clear (a ++ b ++ c ++ d ++ e) ↔ (Clear a × Clear b × Clear c × Clear d × Clear e)
five-Clear a b c d e =
    let v = append-Clear (a ++ b ++ c ++ d) e in
    let w = append-Clear (a ++ b ++ c) d in
    let x = append-Clear (a ++ b) c in
    let y = append-Clear a b in
    (
      λ h.
          let h1 = v.0 h in
          let h2 = w.0 h1.0 in
          let h3 = x.0 h2.0 in let h4 = y.0 h3.0 in (h4.0, h4.1, h3.1, h2.1, h1.1),
      λ h. v.1 (w.1 (x.1 (y.1 (h.0, h.1), h.2), h.3), h.4),
    )

module _ {F : Type 0} (kb : Kb F) where
  zones-Clear :
      Clear (each zone_issues kb.zone_list)
      ↔ All (λ (z : Zone F). is_valid_id z.id ≡ true) kb.zone_list
  unfolding zone_issues
  zones-Clear = each-Clear zone_issues _ (λ z. unless-Clear (is_valid_id z.id) _) kb.zone_list

  objects-Clear :
      Clear (each (object_issues (zone_names kb)) kb.object_list)
      ↔ All
          (λ (o : Object F). (is_valid_id o.id ≡ true) × Refers (zone_names kb) o.zone_id)
          kb.object_list
  unfolding object_issues
  objects-Clear =
      each-Clear (object_issues (zone_names kb)) _ (λ o. two-Clear (is_valid_id o.id) _ _ _)
        kb.object_list

  agents-Clear :
      Clear (each (agent_issues (zone_names kb)) kb.agent_list)
      ↔ All
          (λ (a : Agent F). (is_valid_agent_id a.id ≡ true) × Refers (zone_names kb) a.initial_zone)
          kb.agent_list
  unfolding agent_issues
  agents-Clear =
      each-Clear (agent_issues (zone_names kb)) _ (λ a. two-Clear (is_valid_agent_id a.id) _ _ _)
        kb.agent_list

  connections-Clear :
      Clear (each (connection_issues (zone_names kb)) kb.zone_list)
      ↔ All
          (λ (z : Zone F).
            All (λ (c : Connection). contains c.to (zone_names kb) ≡ true) z.connections)
          kb.zone_list
  unfolding connection_issues
  connections-Clear =
      each-Clear (connection_issues (zone_names kb)) _
        (λ z. each-Clear _ _ (λ c. unless-Clear (contains c.to (zone_names kb)) _) z.connections)
        kb.zone_list

  relations-Clear :
      Clear (each (relationship_issues (agent_names kb)) kb.relationships)
      ↔ All
          (λ (r : Relationship).
            (contains r.from (agent_names kb) ≡ true) × (contains r.to (agent_names kb) ≡ true))
          kb.relationships
  unfolding relationship_issues
  relations-Clear =
      each-Clear (relationship_issues (agent_names kb)) _
        (λ r. two-Clear (contains r.from (agent_names kb)) _ _ _) kb.relationships

  -- A knowledge base has no validation error exactly when it is consistent: all ids are well formed,
  -- the zones that objects, agents and connections name exist, and so do the agents of each
  -- relation. A zone left out by an object or an agent is no error.
  pub validate-IsConsistent : ((validate (some kb)).errors ≡ []) ↔ IsConsistent kb
  unfolding validate
  validate-IsConsistent =
      let five =
        five-Clear (each zone_issues kb.zone_list)
          (each (object_issues (zone_names kb)) kb.object_list)
          (each (agent_issues (zone_names kb)) kb.agent_list)
          (each (connection_issues (zone_names kb)) kb.zone_list)
          (each (relationship_issues (agent_names kb)) kb.relationships) in
      (
        λ h.
            let p = five.0 h in
            record {
              zones = zones-Clear.0 (p.0);
              objects = objects-Clear.0 (p.1);
              agents = agents-Clear.0 (p.2);
              connections = connections-Clear.0 (p.3);
              relations = relations-Clear.0 (p.4);
            },
        λ c. five.1 (
          zones-Clear.1 c.zones,
          objects-Clear.1 c.objects,
          agents-Clear.1 c.agents,
          connections-Clear.1 c.connections,
          relations-Clear.1 c.relations,
        ),
      )
