-- ===== src/Edge/TaskStore/Reads.antt =====
-- What GetTask and GetTaskGoodsStatus return (edge_server/src/database/sqlite_db.cpp).
use amr_warehouse_collaborat.Prelude.{
  ◌≡◌, refl, String, none, some, List, find, arith, Option-cases, inl, inr, is_some,
}
use amr_warehouse_collaborat.Edge.Types.{TransportTask}
use amr_warehouse_collaborat.Edge.Rows.{change_rows}
use amr_warehouse_collaborat.Edge.Rows.Laws.{find-change_rows}
use amr_warehouse_collaborat.Edge.Schema.{Tables, TaskRow}
use amr_warehouse_collaborat.Edge.Sql.{Connection, query_one, when_open}
use amr_warehouse_collaborat.Edge.Sql.Transactions.{
  IsReady, query_one-SameTables, query_one_reliable, query_one_sound, query_all,
}
use amr_warehouse_collaborat.Edge.TaskStore.{
  find_task, is_task, task_exists, goods_of, task_of_row, or_no_rows, with_goods, get_task,
  set_state, statuses_of, some_rows, get_task_goods_status,
}

-- The columns of tbl_task in a task that was read.
pub record ReadFrom (r : TaskRow) (task : TransportTask) : Type 0 where
  pub task_id : task.task_id ≡ r.task_id
  pub warehouse_id : task.warehouse_id ≡ r.warehouse_id
  pub task_type : task.task_type ≡ r.task_type
  pub state : task.state ≡ r.state
  pub robot_ids : task.robot_ids ≡ r.robot_ids
  pub updated_at : task.updated_at ≡ r.updated_at

with_goods-ReadFrom :
    (task_id : String) (r : TaskRow) (c : Connection Tables) (task : TransportTask)
    → (with_goods task_id (some r) c).0 ≡ some task
    → ReadFrom r task
unfolding with_goods
with_goods-ReadFrom task_id r c task h = ground arith

-- A task that is read has the columns of its row, whichever calls fail on the way.
pub get_task-ReadFrom :
    (task_id : String) (c : Connection Tables) (task : TransportTask)
    → (get_task task_id c).0 ≡ some task
    → (r : TaskRow) × (find_task task_id c.tables ≡ some r) × ReadFrom r task
unfolding get_task
get_task-ReadFrom task_id c task h = elim (Option-cases (query_one (find_task task_id) c).0) [
  | inl e ↦ absurd (ground arith)
  | inr (r, e) ↦ (
    r,
    query_one_sound (find_task task_id) c r e,
    with_goods-ReadFrom task_id r (query_one (find_task task_id) c).1 task (ground arith),
  )
]

pub get_task_ready :
    (task_id : String) (c : Connection Tables) (r : TaskRow)
    → IsReady c
    → find_task task_id c.tables ≡ some r
    → (get_task task_id c).0 ≡ some (task_of_row r (goods_of task_id c.tables))
unfolding get_task or_no_rows
get_task_ready task_id c r ready h = ground (
  arith,
  query_one_reliable (find_task task_id) c ready.reliable,
  query_one-SameTables (find_task task_id) c,
  query_all (goods_of task_id) (query_one (find_task task_id) c).1,
)

pub get_task_missing :
    (task_id : String) (c : Connection Tables)
    → IsReady c
    → find_task task_id c.tables ≡ none
    → (get_task task_id c).0 ≡ none
unfolding get_task
get_task_missing task_id c ready h =
    ground (arith, query_one_reliable (find_task task_id) c ready.reliable)

pub get_task_goods_status_ready :
    (task_id : String) (c : Connection Tables)
    → IsReady c
    → (get_task_goods_status task_id c).0 ≡ some_rows (some (statuses_of task_id c.tables))
unfolding get_task_goods_status
get_task_goods_status_ready task_id c ready =
    ground (arith, query_all (statuses_of task_id) c ready.reliable)

pub task_exists_ready :
    (task_id : String) (c : Connection Tables)
    → IsReady c
    → (task_exists task_id c).0 ≡ is_some (find_task task_id c.tables)
unfolding task_exists when_open
task_exists_ready task_id c ready =
    ground (arith, query_one_reliable (find_task task_id) c ready.reliable)

-- The state that an UPDATE of a task leaves in its row.
pub find_task-set_state :
    (task_id state reason now : String) (rows : List TaskRow) (r : TaskRow)
    → find (is_task task_id) rows ≡ some r
    → find (is_task task_id) (change_rows (is_task task_id) (set_state state reason now) rows)
      ≡ some (set_state state reason now r)
unfolding set_state
find_task-set_state task_id state reason now rows r =
    find-change_rows (is_task task_id) (set_state state reason now) rows r (λ x. refl)
