-- ===== src/Edge/TaskCreation.antt =====
-- SQLiteDB::CreateTask (edge_server/src/database/sqlite_db.cpp): the task, a row of goods and a row
-- of quantities for each of its goods, and the first task event, in one transaction.
pub mod Balance
pub mod Stored
pub mod Appends
use amr_warehouse_collaborat.Prelude.{
  ℕ, ℤ, pos, String, Bool, Option, none, some, List, [], ◌∷◌, ◌++◌,
}
use amr_warehouse_collaborat.Edge.Types.{TaskGoods, TransportTask}
use amr_warehouse_collaborat.Edge.Rows.{insert_row}
use amr_warehouse_collaborat.Edge.Schema.{
  Tables, TaskRow, GoodsRow, StatusRow, TaskEventRow, task_check, task_clash, goods_check,
  goods_clash, status_check, status_clash, one_row, put_tasks, put_goods, put_statuses,
}
use amr_warehouse_collaborat.Edge.Sql.{Connection, run, done, ◌and_then◌, transaction, when_open}
use amr_warehouse_collaborat.Edge.Sql.Transactions.{◌then_do◌}

unfoldable pub task_row : TransportTask → TaskRow
task_row task = record {
  task_id = task.task_id;
  warehouse_id = task.warehouse_id;
  task_type = task.task_type;
  state = task.state;
  robot_ids = task.robot_ids;
  goal = task.goal;
  reason = task.reason;
  created_at = task.created_at;
  updated_at = task.updated_at;
}

unfoldable pub insert_task : TransportTask → Tables → Option (ℕ × Tables)
insert_task task t =
    put_tasks t (one_row (insert_row task_check task_clash (task_row task) t.tasks))

unfoldable pub insert_goods : String → TaskGoods → Tables → Option (ℕ × Tables)
insert_goods task_id g t = put_goods t (one_row (insert_row goods_check goods_clash row t.goods))
  where
    row : GoodsRow
    row = record {
      task_id = task_id;
      goods_id = g.goods_id;
      goods_name = g.goods_name;
      total_quantity = g.total_quantity;
    }

-- Everything is pending at first.
unfoldable pub new_status : String → String → TaskGoods → StatusRow
new_status task_id updated_at g = record {
  task_id = task_id;
  goods_id = g.goods_id;
  total_quantity = g.total_quantity;
  in_progress_quantity = pos 0;
  completed_quantity = pos 0;
  pending_quantity = g.total_quantity;
  updated_at = updated_at;
}

unfoldable pub insert_status : String → String → TaskGoods → Tables → Option (ℕ × Tables)
insert_status task_id updated_at g t =
    put_statuses t
      (one_row (insert_row status_check status_clash (new_status task_id updated_at g) t.statuses))

unfoldable pub insert_task_event :
    String → String → String → String → String → Tables → Option (ℕ × Tables)
insert_task_event task_id state reason source timestamp t =
    some (1, record t { task_events = t.task_events ++ event ∷ [] })
  where
    event : TaskEventRow
    event = record {
      task_id = task_id;
      state = state;
      reason = reason;
      source = source;
      timestamp = timestamp;
    }

-- The loop over `task.goods`, and the event that follows it.
insert_goods_rows : TransportTask → List TaskGoods → Connection Tables → Bool × Connection Tables
insert_goods_rows task [] =
    run (done (insert_task_event task.task_id task.state task.reason "HTTP" task.updated_at))
insert_goods_rows task (g ∷ rest) =
    run (done (insert_goods task.task_id g))
    and_then run (done (insert_status task.task_id task.updated_at g))
    and_then insert_goods_rows task rest

unfoldable pub create_task : TransportTask → Connection Tables → Bool × Connection Tables
unfolding insert_goods_rows
create_task task =
    when_open
      (transaction (run (done (insert_task task)) and_then insert_goods_rows task task.goods))

-- What a creation does to the tables, failing calls apart.
unfoldable pub goods_tables : TransportTask → List TaskGoods → Tables → Option Tables
goods_tables task [] =
    done (insert_task_event task.task_id task.state task.reason "HTTP" task.updated_at)
goods_tables task (g ∷ rest) =
    done (insert_goods task.task_id g)
    then_do done (insert_status task.task_id task.updated_at g)
    then_do goods_tables task rest

abbrev pub create_tables : TransportTask → Tables → Option Tables
create_tables task = done (insert_task task) then_do goods_tables task task.goods
