-- ===== src/Edge/TaskStore/Ledger.antt =====
-- The task functions of edge_server/src/database/sqlite_db.cpp, quantities and allocations.
use amr_warehouse_collaborat.Prelude.{
  ◌≡◌, ◌≢◌, refl, String, true, not, ◌||◌, none, some, List, [], ◌∷◌, all, All, arith, Option-cases,
  inl, inr,
}
use amr_warehouse_collaborat.Edge.Types.{AmrTaskStatusEvent}
use amr_warehouse_collaborat.Edge.Rows.{change_rows, update_rows, insert_row}
use amr_warehouse_collaborat.Edge.Schema.{Tables, TaskRow, task_check}
use amr_warehouse_collaborat.Edge.Sql.{Connection, done, when_open, query_one}
use amr_warehouse_collaborat.Edge.Sql.Transactions.{
  Atomic, run-Implements, run-Atomic, and_then-Implements, transaction-Atomic, when_open-Atomic,
  IsReady, Atomic-done, SameTables, query-SameTables, query_one-SameTables,
}
use amr_warehouse_collaborat.Edge.TaskCreation.{insert_task_event}
use amr_warehouse_collaborat.Edge.TaskCreation.Balance.{SameLedger, insert_task_event-inv}
use amr_warehouse_collaborat.Edge.TaskStore.{
  is_task, set_state, set_state_statement, set_task_state, set_state_with_event,
  update_task_state_with_event, state_event_tables, insert_amr_event, record_amr_event, get_task,
  task_exists, find_task, goods_of, get_task_goods_status, statuses_of,
}

pub set_task_state-Atomic :
    (task_id state reason now : String)
    → Atomic
        (done (set_state_statement task_id state reason now))
        (set_task_state task_id state reason now)
unfolding set_task_state
set_task_state-Atomic task_id state reason now = when_open-Atomic _ _ (run-Atomic _)

-- UpdateTaskStateWithEvent, under any schedule of failing calls, either sets the state and records
-- the event and reports success, or changes no table and reports failure.
pub set_state_with_event-Atomic :
    (task_id state reason source now : String)
    → Atomic
        (state_event_tables task_id state reason source now)
        (set_state_with_event task_id state reason source now)
unfolding set_state_with_event
set_state_with_event-Atomic task_id state reason source now =
    when_open-Atomic _ _
      (transaction-Atomic _ _ (and_then-Implements _ _ _ _ (run-Implements _) (run-Implements _)))

pub record_amr_event-Atomic :
    (e : AmrTaskStatusEvent) (now : String)
    → Atomic (done (insert_amr_event e now)) (record_amr_event e now)
unfolding record_amr_event
record_amr_event-Atomic e now = when_open-Atomic _ _ (run-Atomic _)

pub set_state-inv :
    (task_id state reason now : String) (t t' : Tables)
    → done (set_state_statement task_id state reason now) t ≡ some t'
    → SameLedger t t'
      × (t'.tasks ≡ change_rows (is_task task_id) (set_state state reason now) t.tasks)
unfolding done set_state_statement update_rows
set_state-inv task_id state reason now t t' h = ground arith

pub state_event-inv :
    (task_id state reason source now : String) (t t' : Tables)
    → state_event_tables task_id state reason source now t ≡ some t'
    → SameLedger t t'
      × (t'.tasks ≡ change_rows (is_task task_id) (set_state state reason now) t.tasks)
state_event-inv task_id state reason source now t t' h =
    elim (Option-cases (done (set_state_statement task_id state reason now) t)) [
      | inl e ↦ absurd (ground arith)
      | inr (u, e) ↦ ground (
        arith,
        set_state-inv task_id state reason now t u e,
        insert_task_event-inv task_id state reason source now u t',
      )
    ]

pub insert_amr_event-inv :
    (e : AmrTaskStatusEvent) (now : String) (t t' : Tables)
    → done (insert_amr_event e now) t ≡ some t'
    → SameLedger t t' × (t'.tasks ≡ t.tasks)
unfolding done insert_amr_event insert_row
insert_amr_event-inv e now t t' h = ground arith

-- The functions that only read.
pub task_exists-SameTables :
    (task_id : String) (c : Connection Tables) → SameTables c (task_exists task_id c).1
unfolding task_exists when_open
task_exists-SameTables task_id c = ground (arith, query_one-SameTables (find_task task_id) c)

pub get_task-SameTables :
    (task_id : String) (c : Connection Tables) → SameTables c (get_task task_id c).1
unfolding get_task
get_task-SameTables task_id c = ground (
  arith,
  query_one-SameTables (find_task task_id) c,
  query-SameTables (goods_of task_id) (query_one (find_task task_id) c).1,
)

pub get_task_goods_status-SameTables :
    (task_id : String) (c : Connection Tables) → SameTables c (get_task_goods_status task_id c).1
unfolding get_task_goods_status
get_task_goods_status-SameTables task_id c =
    ground (arith, query-SameTables (statuses_of task_id) c)

typed_update :
    (task_id state reason now : String) (rows : List TaskRow)
    → All (λ r. task_check r ≡ true) rows
    → all (λ r. not (is_task task_id r) || task_check (set_state state reason now r)) rows ≡ true
unfolding set_state task_check
typed_update task_id state reason now [] h = refl
typed_update task_id state reason now (r ∷ rows) h =
    ground (arith, h.0, typed_update task_id state reason now rows h.1)

-- On a database that works, an UPDATE of a state is done.
pub set_state_possible :
    (task_id state reason now : String) (t : Tables)
    → All (λ r. task_check r ≡ true) t.tasks
    → done (set_state_statement task_id state reason now) t
      ≡ some
          (record t { tasks = change_rows (is_task task_id) (set_state state reason now) t.tasks })
unfolding done set_state_statement update_rows
set_state_possible task_id state reason now t h =
    ground (arith, typed_update task_id state reason now t.tasks h)

event_possible :
    (task_id state reason source now : String) (t : Tables)
    → done (insert_task_event task_id state reason source now) t ≢ none
unfolding done insert_task_event
event_possible task_id state reason source now t h = cc

pub with_event-IsReady :
    (task_id state reason source : String) (c : Connection Tables)
    → IsReady c
    → All (λ r. task_check r ≡ true) c.tables.tasks
    → let d = (update_task_state_with_event task_id state reason source c).1 in
      (SameLedger c.tables d.tables)
      × (d.tables.tasks
          ≡ change_rows (is_task task_id) (set_state state reason c.clock) c.tables.tasks)
      × IsReady d
unfolding update_task_state_with_event
with_event-IsReady task_id state reason source c ready h =
    let p = state_event_tables task_id state reason source c.clock in
    elim (Option-cases (p c.tables)) [
      | inl e ↦ absurd (
          ground (
            arith,
            set_state_possible task_id state reason c.clock c.tables h,
            event_possible task_id state reason source c.clock (record c.tables {
              tasks = change_rows (is_task task_id) (set_state state reason c.clock) c.tables.tasks;
            }),
          ))
      | inr (t, e) ↦
          let m = set_state_with_event task_id state reason source c.clock in
          let fin =
            Atomic-done p m c t (set_state_with_event-Atomic task_id state reason source c.clock)
              ready e in
          ground (arith, fin, state_event-inv task_id state reason source c.clock c.tables t e)
    ]
