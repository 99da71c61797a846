-- ===== src/Tests/Times.antt =====
-- The times of day.
use smart_npc.Prelude.{◌≡◌, arith}
use smart_npc.Slots.{fmt_minute, slot_expired}
use smart_npc.Slots.Clock.{slot_text}
use smart_npc.Slots.Expiry.{is_over, slot_expired_lem}

slot_expired_lem_example : slot_expired (slot_text 1320 0) (fmt_minute 30) ≡ is_over 1320 0 30
slot_expired_lem_example = slot_expired_lem 1320 0 30 (omega arith) (omega arith) (omega arith)
