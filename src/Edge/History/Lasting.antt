-- ===== src/Edge/History/Lasting.antt =====
-- The row of a task and the totals of its goods over histories of calls.
use amr_warehouse_collaborat.Edge.Sql.{quiet}
use amr_warehouse_collaborat.Prelude.{
  ℤ, ◌≡◌, refl, ap, ◌∙◌, String, ◌==◌, Bool, true, false, Bool-cases, inl, inr, some, List, ◌++◌,
  find, if◌then◌else◌,
}
use amr_warehouse_collaborat.Edge.Rows.{change_rows}
use amr_warehouse_collaborat.Edge.Rows.Laws.{find-append_some, find-change_rows_same}
use amr_warehouse_collaborat.Edge.Schema.{Tables, TaskRow, StatusRow}
use amr_warehouse_collaborat.Edge.Stable.{IsStable}
use amr_warehouse_collaborat.Edge.Allocations.{is_status_of, reserve, give_back}
use amr_warehouse_collaborat.Edge.Allocations.Approval.{approve_tables-Approved}
use amr_warehouse_collaborat.Edge.Allocations.Settled.{settle_tables-Settled}
use amr_warehouse_collaborat.Edge.TaskCreation.Appends.{create_tables-AddsStatuses}
use amr_warehouse_collaborat.Edge.TaskCreation.Stored.{create_tables-tasks}
use amr_warehouse_collaborat.Edge.TaskStore.{find_task, is_task, set_state}
use amr_warehouse_collaborat.Edge.TaskStore.Ledger.{
  set_state-inv, state_event-inv, insert_amr_event-inv,
}
use amr_warehouse_collaborat.Edge.TaskService.{Service}
use amr_warehouse_collaborat.Edge.History.{Call, run_history}
use amr_warehouse_collaborat.Edge.History.Safety.{run_history-IsSafe}

-- The columns that no call changes.
pub record SameTask (x y : TaskRow) : Type 0 where
  pub warehouse_id : x.warehouse_id ≡ y.warehouse_id
  pub task_type : x.task_type ≡ y.task_type
  pub robot_ids : x.robot_ids ≡ y.robot_ids
  pub goal : x.goal ≡ y.goal
  pub created_at : x.created_at ≡ y.created_at

module _ (task_id : String) (r : TaskRow) where
  abbrev pub Lasts : Tables → Type 0
  Lasts t = (r' : TaskRow) × (find_task task_id t ≡ some r') × SameTask r' r

  same_tasks : (t t' : Tables) → t'.tasks ≡ t.tasks → Lasts t → Lasts t'
  unfolding find_task
  same_tasks t t' e (r', found, same) = (r', ap (find (is_task task_id)) e ∙ found, same)

  more_tasks :
      (t t' : Tables) (more : List TaskRow) → t'.tasks ≡ t.tasks ++ more → Lasts t → Lasts t'
  unfolding find_task
  more_tasks t t' more e (r', found, same) =
      (r', ap (find (is_task task_id)) e ∙ find-append_some _ t.tasks more r' found, same)

  SameTask-if :
      (b : Bool) (state reason now : String) (r' : TaskRow)
      → SameTask r' r
      → SameTask (if b then set_state state reason now r' else r') r
  unfolding set_state
  SameTask-if true state reason now r' same = record {
    warehouse_id = same.warehouse_id;
    task_type = same.task_type;
    robot_ids = same.robot_ids;
    goal = same.goal;
    created_at = same.created_at;
  }
  SameTask-if false state reason now r' same = same

  changed_tasks :
      (task state reason now : String) (t t' : Tables)
      → t'.tasks ≡ change_rows (is_task task) (set_state state reason now) t.tasks
      → Lasts t
      → Lasts t'
  unfolding find_task set_state
  changed_tasks task state reason now t t' e (r', found, same) = (
    (if is_task task r' then set_state state reason now r' else r'),
    ap (find (is_task task_id)) e
        ∙ find-change_rows_same (is_task task_id) (is_task task) (set_state state reason now)
            t.tasks r' (λ x. refl) found,
    SameTask-if (is_task task r') state reason now r' same,
  )

  Lasts-IsStable : IsStable Lasts
  Lasts-IsStable = record {
    creates = λ task t t' v h. more_tasks t t' _ (create_tables-tasks task t t' h).0 v;
    approves = λ request task goods robot quantity now t t' v h.
        same_tasks t t' (approve_tables-Approved request task goods robot quantity now t t' h).tasks
          v;
    settles = λ request robot state now t t' v h.
        same_tasks t t' (settle_tables-Settled request robot state now t t' h).1.tasks v;
    sets_state = λ task state reason now t t' v h.
        changed_tasks task state reason now t t' (set_state-inv task state reason now t t' h).1 v;
    sets_state_with_event = λ task state reason source now t t' v h.
        changed_tasks task state reason now t t'
          (state_event-inv task state reason source now t t' h).1 v;
    records_event = λ e now t t' v h. same_tasks t t' (insert_amr_event-inv e now t t' h).1 v;
  }

  -- A task that is stored stays stored through every history of calls, whichever calls of prepare
  -- and step fail in it, with its warehouse, type, robots, goal and time of creation, from a quiet
  -- connection: no transaction is open, and no BEGIN, COMMIT or ROLLBACK fails.
  pub task-Lasts :
      (s : Service) (calls : List Call)
      → s.db.saved ≡ quiet
      → find_task task_id s.db.tables ≡ some r
      → Lasts (run_history s calls).db.tables
  task-Lasts s calls closed there =
      (run_history-IsSafe Lasts Lasts-IsStable s calls (record {
        closed = closed;
        holds = (
          r,
          there,
          record {
            warehouse_id = refl;
            task_type = refl;
            robot_ids = refl;
            goal = refl;
            created_at = refl;
          },
        );
      })).holds

module _ (task_id goods_id : String) (total : ℤ) where
  -- The goods have a row of quantities with this total.
  abbrev pub HasTotal : Tables → Type 0
  HasTotal t =
      (r : StatusRow) × (find (is_status_of task_id goods_id) t.statuses ≡ some r)
      × (r.total_quantity ≡ total)

  same_statuses : (t t' : Tables) → t'.statuses ≡ t.statuses → HasTotal t → HasTotal t'
  same_statuses t t' e (r, found, same) =
      (r, ap (find (is_status_of task_id goods_id)) e ∙ found, same)

  changed_statuses :
      (hit : StatusRow → Bool) (change : StatusRow → StatusRow) (t t' : Tables)
      → ((x : StatusRow)
          → (is_status_of task_id goods_id (change x) ≡ is_status_of task_id goods_id x)
            × ((change x).total_quantity ≡ x.total_quantity))
      → t'.statuses ≡ change_rows hit change t.statuses
      → HasTotal t
      → HasTotal t'
  changed_statuses hit change t t' keeps e (r, found, same) = (
    (if hit r then change r else r),
    ap (find (is_status_of task_id goods_id)) e
        ∙ find-change_rows_same (is_status_of task_id goods_id) hit change t.statuses r
            (λ x. (keeps x).0) found,
    kept (hit r),
  )
    where
      kept : (b : Bool) → (if b then change r else r).total_quantity ≡ total
      kept true = (keeps r).1 ∙ same
      kept false = same

  reserve_keeps :
      (quantity : ℤ) (now : String) (x : StatusRow)
      → (is_status_of task_id goods_id (reserve quantity now x) ≡ is_status_of task_id goods_id x)
        × ((reserve quantity now x).total_quantity ≡ x.total_quantity)
  unfolding is_status_of reserve
  reserve_keeps quantity now x = (refl, refl)

  give_back_keeps :
      (state : String) (quantity : ℤ) (now : String) (x : StatusRow)
      → (is_status_of task_id goods_id (give_back state quantity now x)
          ≡ is_status_of task_id goods_id x)
        × ((give_back state quantity now x).total_quantity ≡ x.total_quantity)
  unfolding is_status_of give_back
  give_back_keeps state quantity now x = elim (Bool-cases (state == "COMPLETED")) [
    | inl e ↦ rw e (refl, refl)
    | inr e ↦ rw e (refl, refl)
  ]

  HasTotal-IsStable : IsStable HasTotal
  HasTotal-IsStable = record {
    creates = λ task t t' (r, found, same) h.
        let adds = create_tables-AddsStatuses task t t' h in
        (
          r,
          ap (find (is_status_of task_id goods_id)) adds.statuses
              ∙ find-append_some _ t.statuses adds.added r found,
          same,
        );
    approves = λ request task goods robot quantity now t t' v h.
        changed_statuses _ (reserve quantity now) t t' (reserve_keeps quantity now)
          (approve_tables-Approved request task goods robot quantity now t t' h).statuses v;
    settles = λ request robot state now t t' v h.
        let (a, done) = settle_tables-Settled request robot state now t t' h in
        changed_statuses _ (give_back state a.quantity now) t t'
          (give_back_keeps state a.quantity now) done.statuses v;
    sets_state = λ task state reason now t t' v h.
        same_statuses t t' (set_state-inv task state reason now t t' h).0.0 v;
    sets_state_with_event = λ task state reason source now t t' v h.
        same_statuses t t' (state_event-inv task state reason source now t t' h).0.0 v;
    records_event = λ e now t t' v h. same_statuses t t' (insert_amr_event-inv e now t t' h).0.0 v;
  }

  -- The total of the goods of a task, once it is stored, is the same after every history of calls,
  -- whichever calls of prepare and step fail in it, from a quiet connection: no transaction is open,
  -- and no BEGIN, COMMIT or ROLLBACK fails.
  pub total_lasts :
      (s : Service) (calls : List Call)
      → s.db.saved ≡ quiet
      → HasTotal s.db.tables
      → HasTotal (run_history s calls).db.tables
  total_lasts s calls closed there =
      (run_history-IsSafe HasTotal HasTotal-IsStable s calls
        (record { closed = closed; holds = there })).holds
