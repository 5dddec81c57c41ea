-- ===== src/Edge/History/Stored.antt =====
-- The rows of quantities and the tasks that they are of, over the transactions of task_service.cpp
-- (edge_server/src/database/sqlite_db.cpp).
use amr_warehouse_collaborat.Prelude.{
  ℤ, ◌≡◌, refl, ◌∙◌, String, ◌==◌, eq_refl, Bool, true, List, [], ◌∷◌, ◌++◌, any, any-append, All,
  All-append, arith,
}
use amr_warehouse_collaborat.Edge.Rows.{change_rows}
use amr_warehouse_collaborat.Edge.Rows.Laws.{change_rows-All, any-change_rows}
use amr_warehouse_collaborat.Edge.Schema.{Tables, TaskRow, StatusRow}
use amr_warehouse_collaborat.Edge.Stable.{IsStable}
use amr_warehouse_collaborat.Edge.Allocations.{reserve, give_back}
use amr_warehouse_collaborat.Edge.Allocations.Approval.{approve_tables-Approved}
use amr_warehouse_collaborat.Edge.Allocations.Settled.{settle_tables-Settled}
use amr_warehouse_collaborat.Edge.TaskCreation.{task_row}
use amr_warehouse_collaborat.Edge.TaskCreation.Appends.{create_tables-AddsStatuses}
use amr_warehouse_collaborat.Edge.TaskCreation.Stored.{create_tables-tasks}
use amr_warehouse_collaborat.Edge.TaskStore.{is_task, set_state}
use amr_warehouse_collaborat.Edge.TaskStore.Ledger.{
  set_state-inv, state_event-inv, insert_amr_event-inv,
}

-- A task with this id is stored.
abbrev pub HasTask : List TaskRow → String → Type 0
HasTask tasks task_id = any (λ x. x.task_id == task_id) tasks ≡ true

-- Every row of quantities is of a task that is stored.
abbrev pub IsOfTasks : Tables → Type 0
IsOfTasks t = All (λ r. HasTask t.tasks r.task_id) t.statuses

kept :
    (tasks tasks' : List TaskRow) (rows : List StatusRow)
    → ((task_id : String) → HasTask tasks task_id → HasTask tasks' task_id)
    → All (λ r. HasTask tasks r.task_id) rows
    → All (λ r. HasTask tasks' r.task_id) rows
kept tasks tasks' [] f h = tt
kept tasks tasks' (r ∷ rows) f h = (f r.task_id h.0, kept tasks tasks' rows f h.1)

HasTask-append :
    (tasks more : List TaskRow) (task_id : String)
    → HasTask tasks task_id
    → HasTask (tasks ++ more) task_id
HasTask-append tasks more task_id h =
    ground (arith, any-append (λ x. x.task_id == task_id) tasks more)

HasTask-last : (tasks : List TaskRow) (x : TaskRow) → HasTask (tasks ++ x ∷ []) x.task_id
HasTask-last tasks x =
    ground (arith, any-append (λ y. y.task_id == x.task_id) tasks (x ∷ []), eq_refl x.task_id)

of_task :
    (tasks : List TaskRow) (task_id : String) (rows : List StatusRow)
    → HasTask tasks task_id
    → All (λ r. r.task_id ≡ task_id) rows
    → All (λ r. HasTask tasks r.task_id) rows
of_task tasks task_id [] there h = tt
of_task tasks task_id (r ∷ rows) there h = (rw h.0 there, of_task tasks task_id rows there h.1)

-- An UPDATE that keeps the task ids.
updated :
    (hit : StatusRow → Bool) (change : StatusRow → StatusRow) (t t' : Tables)
    → ((r : StatusRow) → (change r).task_id ≡ r.task_id)
    → t'.statuses ≡ change_rows hit change t.statuses
    → t'.tasks ≡ t.tasks
    → IsOfTasks t
    → IsOfTasks t'
updated hit change t t' keeps rows same h =
    rw (rows, same)
      (change_rows-All (λ r. HasTask t.tasks r.task_id) hit change t.statuses
        (λ r e there. rw (keeps r) there) h)

stated :
    (task_id state reason now : String) (t t' : Tables)
    → t'.statuses ≡ t.statuses
    → t'.tasks ≡ change_rows (is_task task_id) (set_state state reason now) t.tasks
    → IsOfTasks t
    → IsOfTasks t'
unfolding set_state
stated task_id state reason now t t' rows tasks h =
    rw (rows, tasks)
      (kept t.tasks _ t.statuses
        (λ id there.
          any-change_rows (λ x. x.task_id == id) (is_task task_id) (set_state state reason now)
            t.tasks (λ x. refl)
          ∙ there)
        h)

give_back_task :
    (state : String) (quantity : ℤ) (now : String) (r : StatusRow)
    → (give_back state quantity now r).task_id ≡ r.task_id
unfolding give_back
give_back_task state quantity now r = ground arith

reserve_task :
    (quantity : ℤ) (now : String) (r : StatusRow) → (reserve quantity now r).task_id ≡ r.task_id
unfolding reserve
reserve_task quantity now r = refl

pub IsOfTasks-IsStable : IsStable IsOfTasks
unfolding task_row
IsOfTasks-IsStable = record {
  creates = λ task t t' v h.
      let adds = create_tables-AddsStatuses task t t' h in
      let tasks = (create_tables-tasks task t t' h).0 in
      rw (adds.statuses, tasks)
        (All-append _ t.statuses adds.added
          (kept t.tasks _ t.statuses (HasTask-append t.tasks (task_row task ∷ [])) v)
          (of_task _ task.task_id adds.added (HasTask-last t.tasks (task_row task)) adds.of_task));
  approves = λ request task goods robot quantity now t t' v h.
      let done = approve_tables-Approved request task goods robot quantity now t t' h in
      updated _ (reserve quantity now) t t' (reserve_task quantity now) done.statuses done.tasks v;
  settles = λ request robot state now t t' v h.
      let (a, done) = settle_tables-Settled request robot state now t t' h in
      updated _ (give_back state a.quantity now) t t' (give_back_task state a.quantity now)
        done.statuses done.tasks v;
  sets_state = λ task state reason now t t' v h.
      let (ledger, tasks) = set_state-inv task state reason now t t' h in
      stated task state reason now t t' ledger.0 tasks v;
  sets_state_with_event = λ task state reason source now t t' v h.
      let (ledger, tasks) = state_event-inv task state reason source now t t' h in
      stated task state reason now t t' ledger.0 tasks v;
  records_event = λ e now t t' v h.
      let (ledger, tasks) = insert_amr_event-inv e now t t' h in rw (ledger.0, tasks) v;
}
