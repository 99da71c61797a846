-- ===== src/AgentState/Schedule/Rows.antt =====
-- One agent's row of the schedule table.
use smart_npc.Prelude.{String, ◌≡◌, ◌≢◌, refl, true, some, [], ◌∷◌, str_eq, eq_iff, arith}
use smart_npc.Prelude.Tests.{if◌then◌else◌}
use smart_npc.AgentState.Schedule.{
  ScheduleState, Table, mysql_store, Persistent, select_row, upsert_row, write_through,
  persist_schedule, save_schedule_state, load_persistent, load_schedule_state, set_identity,
}

pub select_row-upsert_row :
    (id other : String) (st : ScheduleState) (rows : Table)
    → select_row other (upsert_row id st rows)
      ≡ (if str_eq id other then some st else select_row other rows)
unfolding select_row upsert_row
select_row-upsert_row id other st [] = refl
select_row-upsert_row id other st ((k, row) ∷ rows) =
    ground
      (arith, eq_iff k id, eq_iff k other, eq_iff id other, select_row-upsert_row id other st rows)

-- The store answers, the agent's row is its schedule, and the rows of others are those of `before`.
pub record IsDurable (before : Table) (p : Persistent) : Type 0 where
  pub rows : Table
  pub connected : p.store ≡ some (mysql_store rows true)
  pub own_row : select_row p.agent_id rows ≡ some p.schedule
  pub other_rows :
      (other : String) → other ≢ p.agent_id → select_row other rows ≡ select_row other before

pub write_through-IsDurable :
    (st : ScheduleState) (before rows : Table) (p : Persistent)
    → p.store ≡ some (mysql_store rows true)
    → ((other : String) → other ≢ p.agent_id → select_row other rows ≡ select_row other before)
    → IsDurable before (write_through st p)
unfolding write_through persist_schedule save_schedule_state
write_through-IsDurable st before rows p e others = record {
  rows = upsert_row p.agent_id st rows;
  connected = ground (arith, e);
  own_row =
      ground (
        arith,
        e,
        select_row-upsert_row p.agent_id p.agent_id st rows,
        eq_iff p.agent_id p.agent_id,
      );
  other_rows = λ other ne. ground (
    arith,
    e,
    select_row-upsert_row p.agent_id other st rows,
    eq_iff p.agent_id other,
    others other,
  );
}

pub IsDurable-write_through :
    (st : ScheduleState) (before : Table) (p : Persistent)
    → IsDurable before p
    → IsDurable before (write_through st p)
IsDurable-write_through st before p d =
    write_through-IsDurable st before d.rows p d.connected d.other_rows

-- What a restarted process, with the same identity and store, loads.
pub load-IsDurable :
    (before : Table) (p fresh : Persistent)
    → IsDurable before p
    → load_persistent (set_identity p.agent_id p.store fresh)
      ≡ (record fresh { agent_id = p.agent_id; store = p.store; schedule = p.schedule }, true)
unfolding load_persistent set_identity load_schedule_state
load-IsDurable before p fresh d = ground (arith, d.connected, d.own_row)
