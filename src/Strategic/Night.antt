-- ===== src/Strategic/Night.antt =====
-- What the normalization leaves of the evening: a plan of the day alone ends at 22:00.
use smart_npc.Prelude.{ℕ, ◌≤◌, ◌<◌}

-- A slot that ends before 22:00, and one that ends at 22:00 at the latest.
abbrev pub DaySlot : ℕ → ℕ → Type 0
DaySlot s e = (s < e) × (e < 1320)

abbrev By22 : ℕ → ℕ → Type 0
By22 s e = (s < e) × (e ≤ 1320)
