-- ===== src/AgentState/Reactive/Window.antt =====
-- `DedupeReactive` over a sequence of triggers.
use smart_npc.Prelude.{
  ℕ, ◌+◌, ◌≤◌, String, ◌≡◌, ◌≢◌, refl, ◌∙◌, Bool, true, false, some, List, [], ◌∷◌, ◌⊎◌, str_eq,
  eq_iff, arith,
}
use smart_npc.Prelude.Tests.{if◌then◌else◌}
use smart_npc.AgentState.{AgentState}
use smart_npc.AgentState.Reactive.{lookup_at, store_at, dedupe_reactive}

lookup_at-store_at :
    (key other : String) (t : ℕ) (m : List (String × ℕ))
    → lookup_at other (store_at key t m) ≡ (if str_eq key other then some t else lookup_at other m)
unfolding lookup_at store_at
lookup_at-store_at key other t [] = refl
lookup_at-store_at key other t ((k, u) ∷ m) =
    ground (arith, eq_iff k key, eq_iff k other, eq_iff key other, lookup_at-store_at key other t m)

pub record Trigger : Type 0 where
  pub key : String
  pub now : ℕ
  pub window : ℕ

module _ {F : Type 0} where
  abbrev pub fire : Trigger → AgentState F → AgentState F × Bool
  fire t a = dedupe_reactive t.key t.now t.window a

  unfoldable pub fire_all : List Trigger → AgentState F → AgentState F
  fire_all [] a = a
  fire_all (t ∷ ts) a = fire_all ts (fire t a).0

  -- None of the triggers passes for the key.
  abbrev pub IsQuiet : String → List Trigger → AgentState F → Type 0
  IsQuiet key [] a = Unit {0}
  IsQuiet key (t ∷ ts) a = ((t.key ≢ key) ⊎ ((fire t a).1 ≡ false)) × IsQuiet key ts (fire t a).0

  lookup-fire :
      (key : String) (t : Trigger) (a : AgentState F)
      → (t.key ≢ key) ⊎ ((fire t a).1 ≡ false)
      → lookup_at key (fire t a).0.last_reactive_at ≡ lookup_at key a.last_reactive_at
  unfolding dedupe_reactive
  lookup-fire key t a q =
      ground (arith, lookup_at-store_at t.key key t.now a.last_reactive_at, eq_iff t.key key)

  lookup-fire_all :
      (key : String) (ts : List Trigger) (a : AgentState F)
      → IsQuiet key ts a
      → lookup_at key (fire_all ts a).last_reactive_at ≡ lookup_at key a.last_reactive_at
  unfolding fire_all
  lookup-fire_all key [] a q = refl
  lookup-fire_all key (t ∷ ts) a q =
      lookup-fire_all key ts (fire t a).0 q.1 ∙ lookup-fire key t a q.0

  lookup-fire_self :
      (t : Trigger) (a : AgentState F)
      → (fire t a).1 ≡ true
      → lookup_at t.key (fire t a).0.last_reactive_at ≡ some t.now
  unfolding dedupe_reactive
  lookup-fire_self t a h =
      ground (arith, lookup_at-store_at t.key t.key t.now a.last_reactive_at, eq_iff t.key t.key)

  passes_late :
      (t : Trigger) (a : AgentState F) (last : ℕ)
      → lookup_at t.key a.last_reactive_at ≡ some last
      → (fire t a).1 ≡ true
      → last + t.window ≤ t.now
  unfolding dedupe_reactive
  passes_late t a last e h = ground arith

  -- Of two triggers with one key that both pass, with none of that key passing in between, the
  -- second comes no earlier than its window after the first, whatever other keys do.
  pub triggers_are_apart :
      (first second : Trigger) (between : List Trigger) (a : AgentState F)
      → second.key ≡ first.key
      → (fire first a).1 ≡ true
      → IsQuiet first.key between (fire first a).0
      → (fire second (fire_all between (fire first a).0)).1 ≡ true
      → first.now + second.window ≤ second.now
  triggers_are_apart first second between a same p q p' =
      let b = (fire first a).0 in
      passes_late second (fire_all between b) first.now
        (rw same (lookup-fire_all first.key between b q ∙ lookup-fire_self first a p)) p'
