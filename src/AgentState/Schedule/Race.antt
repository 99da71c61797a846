-- ===== src/AgentState/Schedule/Race.antt =====
-- The write-through as goroutines run it: the schedule changes under the lock, and its snapshot is
-- written after the lock is released, so that writes can overtake each other.
use smart_npc.Prelude.{◌≡◌, refl, ap, ◌∙◌, true, some, List, [], ◌∷◌, ◌++◌, eq_iff, arith}
use smart_npc.AgentState.Schedule.{
  ScheduleState, Table, mysql_store, Persistent, upsert_row, persist_schedule, save_schedule_state,
  load_persistent, load_schedule_state,
}
use smart_npc.AgentState.Schedule.Rows.{select_row-upsert_row}

-- The agent, and the snapshots whose writes are still to come, oldest first.
pub record Running : Type 0 where
  pub agent : Persistent
  pub pending : List ScheduleState

-- A setter takes its snapshot; any goroutine with a snapshot may write next.
pub data Step : Running → Running → Type 0 where
  snap :
      (r : Running) (st : ScheduleState)
      → Step r
          (record { agent = record (r.agent) { schedule = st }; pending = r.pending ++ st ∷ [] })
  write :
      (p : Persistent) (before after : List ScheduleState) (st : ScheduleState)
      → Step
          (record { agent = p; pending = before ++ st ∷ after })
          (record { agent = persist_schedule st p; pending = before ++ after })

-- Some steps after one another.
pub data Reaches : Running → Running → Type 0 where
  done : (r : Running) → Reaches r r
  next : {r s t : Running} → Step r s → Reaches s t → Reaches r t

-- No write is under way.
abbrev pub settled : Persistent → Running
settled p = record { agent = p; pending = [] }

persist_schedule_lem :
    (st : ScheduleState) (p : Persistent) (rows : Table)
    → p.store ≡ some (mysql_store rows true)
    → persist_schedule st p
      ≡ record p { store = some (mysql_store (upsert_row p.agent_id st rows) true) }
unfolding persist_schedule save_schedule_state
persist_schedule_lem st p rows h = rw h refl

written_twice :
    (old new : ScheduleState) (p : Persistent) (rows : Table)
    → p.store ≡ some (mysql_store rows true)
    → persist_schedule old (persist_schedule new p) ≡ record p {
      store = some (mysql_store (upsert_row p.agent_id old (upsert_row p.agent_id new rows)) true);
    }
written_twice old new p rows h =
    let rows' = upsert_row p.agent_id new rows in
    ap (persist_schedule old) (persist_schedule_lem new p rows h)
    ∙ persist_schedule_lem old (record p { store = some (mysql_store rows' true) }) rows' refl

load_own_row :
    (p : Persistent) (rows : Table) (st : ScheduleState)
    → (load_persistent
        (record p { store = some (mysql_store (upsert_row p.agent_id st rows) true) })).0.schedule
      ≡ st
unfolding load_persistent load_schedule_state
load_own_row p rows st =
    ground
      (arith, select_row-upsert_row p.agent_id p.agent_id st rows, eq_iff p.agent_id p.agent_id)

-- Whatever two schedules an agent with a MySQL store that answers sets in turn, the two writes can
-- arrive in the opposite order: from a settled agent a settled one is reached that has the second
-- schedule in memory, while a restart loads the first.
pub writes_can_overtake :
    (p : Persistent) (rows : Table) (old new : ScheduleState)
    → p.store ≡ some (mysql_store rows true)
    → (q : Persistent) × Reaches (settled p) (settled q)
      × (q.schedule ≡ new)
      × ((load_persistent q).0.schedule ≡ old)
writes_can_overtake p rows old new h =
    let p' = record p { schedule = new } in
    let p'' = persist_schedule new p' in
    let twice = written_twice old new p' rows h in
    (
      persist_schedule old p'',
      next (snap (settled p) old) (
          next (snap (record { agent = record p { schedule = old }; pending = old ∷ [] }) new)
            (next (write p' (old ∷ []) [] new) (next (write p'' [] [] old) (done _)))),
      ap (λ q. q.schedule) twice,
      ap (λ q. (load_persistent q).0.schedule) twice
          ∙ load_own_row p' (upsert_row p.agent_id new rows) old,
    )
