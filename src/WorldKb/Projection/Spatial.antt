-- ===== src/WorldKb/Projection/Spatial.antt =====
-- What an entity takes from its document: its id, and the spatial facts from the generated half alone.
use smart_npc.Prelude.{String, true, ◌≡◌, refl, ap, ◌∙◌, Option, none, some, List, arith}
use smart_npc.Prelude.StringSet.{contains}
use smart_npc.Float64.{Float64}
use smart_npc.WorldKb.Json.{Fields, lookup, or_nil, get, deep_merge_maps}
use smart_npc.WorldKb.Json.Overlay.{Distinct, lookup-deep_merge_maps}
use smart_npc.WorldKb.Entities.{Zone, Object, Agent, ◌>>=◌, text_of, vec_of}
use smart_npc.WorldKb.Projection.{project_bounds, project_zone, project_object, project_agent}

>>=-eq-some :
    {A B : Type 0} (m : Option A) (f : A → Option B) {b : B}
    → (m >>= f) ≡ some b
    → (a : A) × (m ≡ some a) × (f a ≡ some b)
>>=-eq-some none f h = cc
>>=-eq-some (some a) f h = (a, refl, h)

module _ {F : Type 0} ⦃fl : Float64 F⦄ where
  -- What a projected zone has of its document.
  pub record ReadsZone (m : Fields F) (z : Zone F) : Type 0 where
    pub id : z.id ≡ text_of (get "id" m)
    pub bounds : project_bounds (get "bounds" m) ≡ some z.bounds
    pub entry : vec_of (get "entry_point" m) ≡ some z.entry_point
    pub facing : vec_of (get "entry_facing" m) ≡ some z.entry_facing

  pub project_zone-ReadsZone : (m : Fields F) (z : Zone F) → project_zone m ≡ some z → ReadsZone m z
  unfolding project_zone
  project_zone-ReadsZone m z h =
      let (b, eb, h1) = >>=-eq-some (project_bounds (get "bounds" m)) _ h in
      let (p, ep, h2) = >>=-eq-some (vec_of (get "entry_point" m)) _ h1 in
      let (f, ef, h3) = >>=-eq-some (vec_of (get "entry_facing" m)) _ h2 in
      record {
        id = ground (arith, h3);
        bounds = eb ∙ ground (arith, h3);
        entry = ep ∙ ground (arith, h3);
        facing = ef ∙ ground (arith, h3);
      }

  pub record ReadsObject (m : Fields F) (o : Object F) : Type 0 where
    pub id : o.id ≡ text_of (get "id" m)
    pub position : vec_of (get "actor_position" m) ≡ some o.actor_position
    pub point : vec_of (get "interaction_point" m) ≡ some o.interaction_point
    pub facing : vec_of (get "interaction_facing" m) ≡ some o.interaction_facing
    pub class : o.actor_class ≡ text_of (get "actor_class" m)
    pub default_state : o.default_state ≡ text_of (get "default_state" m)

  pub project_object-ReadsObject :
      (default_radius : F) (m : Fields F) (o : Object F)
      → project_object default_radius m ≡ some o
      → ReadsObject m o
  unfolding project_object
  project_object-ReadsObject default_radius m o h =
      let (p, ep, h1) = >>=-eq-some (vec_of (get "actor_position" m)) _ h in
      let (q, eq, h2) = >>=-eq-some (vec_of (get "interaction_point" m)) _ h1 in
      let (f, ef, h3) = >>=-eq-some (vec_of (get "interaction_facing" m)) _ h2 in
      record {
        id = ground (arith, h3);
        position = ep ∙ ground (arith, h3);
        point = eq ∙ ground (arith, h3);
        facing = ef ∙ ground (arith, h3);
        class = ground (arith, h3);
        default_state = ground (arith, h3);
      }

  pub record ReadsAgent (m : Fields F) (a : Agent F) : Type 0 where
    pub id : a.id ≡ text_of (get "id" m)
    pub position : vec_of (get "initial_position" m) ≡ some a.initial_position
    pub class : a.actor_class ≡ text_of (get "actor_class" m)
    pub action_table : a.action_table ≡ text_of (get "action_table" m)
    pub behavior_tree : a.main_behavior_tree ≡ text_of (get "main_behavior_tree" m)

  pub project_agent-ReadsAgent :
      (m : Fields F) (a : Agent F) → project_agent m ≡ some a → ReadsAgent m a
  unfolding project_agent
  project_agent-ReadsAgent m a h =
      let (p, ep, h1) = >>=-eq-some (vec_of (get "initial_position" m)) _ h in
      record {
        id = ground (arith, h1);
        position = ep ∙ ground (arith, h1);
        class = ground (arith, h1);
        action_table = ground (arith, h1);
        behavior_tree = ground (arith, h1);
      }

module _ {F : Type 0} where
  -- A protected key reads as in the document below.
  pub get-protected :
      (m a : Fields F) (protected : List String) (k : String)
      → Distinct a
      → contains k protected ≡ true
      → get k (deep_merge_maps m a protected) ≡ get k m
  unfolding get
  get-protected m a protected k d h =
      ap or_nil {y = lookup k m} (lookup-deep_merge_maps m a protected k d ∙ rw h refl)
