-- ===== src/AgentState/Schedule.antt =====
-- agenttown-mcp/pkg/storage (ScheduleState, Store) and the persistence half of
-- agenttown-mcp/pkg/agentstate/agent_state.go: the four persistent fields and their write-through.
pub mod Rows
pub mod Race
use smart_npc.Prelude.{String, Bool, true, false, Option, none, some, List, [], ◌∷◌, str_eq}
use smart_npc.Prelude.Tests.{if◌then◌else◌}
use smart_npc.Prelude.Int.{ℤ, pos, negsuc}

pub record ScheduleState : Type 0 where
  pub daily_plan : String
  pub current_day : ℤ
  pub current_plan_index : ℤ
  pub current_slot : String

-- The Go zero value, which a failed load returns.
abbrev pub zero_schedule : ScheduleState
zero_schedule = record {
  daily_plan = "";
  current_day = pos 0;
  current_plan_index = pos 0;
  current_slot = "";
}

-- The table `agent_schedule_state`, by its primary key.
abbrev pub Table : Type 0
Table = List (String × ScheduleState)

-- `storage.Store`, as far as the schedule goes. `is_up` says whether a statement that is sent now
-- succeeds.
pub data Store : Type 0 where
  noop_store : Store
  mysql_store : Table → Bool → Store

pub data LoadResult : Type 0 where
  loaded : ScheduleState → LoadResult
  not_found : LoadResult
  load_failed : LoadResult

-- `SELECT … WHERE agent_id = ?`
pub select_row : String → Table → Option ScheduleState
select_row agent_id [] = none
select_row agent_id ((id, row) ∷ rows) =
    if str_eq id agent_id then some row else select_row agent_id rows

-- `INSERT … ON DUPLICATE KEY UPDATE …`
pub upsert_row : String → ScheduleState → Table → Table
upsert_row agent_id st [] = (agent_id, st) ∷ []
upsert_row agent_id st ((id, row) ∷ rows) =
    if str_eq id agent_id then (id, st) ∷ rows else (id, row) ∷ upsert_row agent_id st rows

abbrev pub load_row : Option ScheduleState → LoadResult
load_row none = not_found
load_row (some st) = loaded st

-- `MySQLStore.LoadScheduleState`, `NoopStore.LoadScheduleState`
pub load_schedule_state : String → Store → LoadResult
load_schedule_state agent_id noop_store = not_found
load_schedule_state agent_id (mysql_store rows is_up) =
    if is_up then load_row (select_row agent_id rows) else load_failed

-- `SaveScheduleState`, with whether it returned no error.
pub save_schedule_state : String → ScheduleState → Store → Store × Bool
save_schedule_state agent_id st noop_store = (noop_store, true)
save_schedule_state agent_id st (mysql_store rows is_up) =
    if is_up
    then (mysql_store (upsert_row agent_id st rows) is_up, true)
    else (mysql_store rows is_up, false)

-- The persistence half of `AgentState`.
pub record Persistent : Type 0 where
  pub agent_id : String
  pub store : Option Store
  pub schedule : ScheduleState
  pub open schedule use *

-- `New`: the day is -1, unplanned.
abbrev pub unplanned : ScheduleState
unplanned = record zero_schedule { current_day = negsuc 0 }

pub set_identity : String → Option Store → Persistent → Persistent
set_identity agent_id store p = record p { agent_id = agent_id; store = store }

abbrev pub hydrate : Persistent → LoadResult → Persistent × Bool
hydrate p (loaded snap) = (record p { schedule = snap }, true)
hydrate p not_found = (p, true)
hydrate p load_failed = (p, false)

-- `LoadPersistent`, with whether it returned no error.
pub load_persistent : Persistent → Persistent × Bool
load_persistent p = elim p.store [
  | none ↦ (p, true)
  | some s ↦ hydrate p (load_schedule_state p.agent_id s)
]

-- `persistSchedule`: an error is logged and dropped.
unfoldable pub persist_schedule : ScheduleState → Persistent → Persistent
persist_schedule snap p = elim p.store [
  | none ↦ p
  | some s ↦ record p { store = some (save_schedule_state p.agent_id snap s).0 }
]

-- A setter changes the schedule under the lock and writes the snapshot through.
unfoldable pub write_through : ScheduleState → Persistent → Persistent
write_through st p = persist_schedule st (record p { schedule = st })

unfoldable pub set_daily_plan : String → ℤ → Persistent → Persistent
set_daily_plan plan day p =
    write_through (record (p.schedule) { daily_plan = plan; current_day = day }) p

unfoldable pub set_current_plan_index : ℤ → Persistent → Persistent
set_current_plan_index idx p = write_through (record (p.schedule) { current_plan_index = idx }) p
