-- ===== src/Float64.antt =====
-- Go's `float64` as the program uses it: a type with the constants 0 and -1, an addition, a subtraction
-- and two comparisons. No law is assumed of the operations, so what is proved holds of NaN and of
-- rounding too.
use smart_npc.Prelude.{Bool}

pub record Float64 (F : Type 0) : Type 0 where
  pub zero_f : F
  pub minus_one : F
  pub sub_f : F → F → F
  pub add_f : F → F → F
  pub lt_f : F → F → Bool
  pub le_f : F → F → Bool
