-- ===== src/Edge/TaskStore.antt =====
-- The task functions of edge_server/src/database/sqlite_db.cpp beside the creation:
-- SQLiteDB::TaskExists, GetTask, GetActiveTasks, UpdateTaskState, GetTaskGoodsStatus,
-- UpdateTaskStateWithEvent and InsertAmrTaskStatusEvent.
pub mod Ledger
pub mod Reads
use amr_warehouse_collaborat.Prelude.{
  ℕ, ℤ, pos, String, ◌==◌, Bool, true, false, not, ◌&&◌, ◌||◌, Option, none, some, List, [], ◌∷◌,
  ◌++◌, map, find, filter, any, is_some, is_empty, if◌then◌else◌,
}
use amr_warehouse_collaborat.Edge.Types.{
  TaskGoods, TransportTask, TaskGoodsStatus, AmrTaskStatusEvent,
}
use amr_warehouse_collaborat.Edge.TaskCreation.{insert_task_event}
use amr_warehouse_collaborat.Edge.Rows.{insert_row, update_rows}
use amr_warehouse_collaborat.Edge.Schema.{
  Tables, TaskRow, GoodsRow, StatusRow, TaskEventRow, AmrEventRow, task_check, task_clash,
  goods_check, goods_clash, status_check, status_clash, amr_event_check, amr_event_clash, one_row,
  put_tasks, put_goods, put_statuses,
}
use amr_warehouse_collaborat.Edge.Sql.{
  Connection, run, done, ◌and_then◌, transaction, when_open, query, query_one,
}
use amr_warehouse_collaborat.Edge.Sql.Transactions.{◌then_do◌}

abbrev pub is_task : String → TaskRow → Bool
is_task task_id r = r.task_id == task_id

unfoldable pub find_task : String → Tables → Option TaskRow
find_task task_id t = find (is_task task_id) t.tasks

unfoldable pub task_exists : String → Connection Tables → Bool × Connection Tables
task_exists task_id =
    when_open (λ c. let (row, c') = query_one (find_task task_id) c in (is_some row, c'))

unfoldable pub goods_of : String → Tables → List TaskGoods
goods_of task_id t =
    map
      (λ r. record {
        goods_id = r.goods_id;
        goods_name = r.goods_name;
        total_quantity = r.total_quantity;
      })
      (filter (λ r. r.task_id == task_id) t.goods)

or_no_rows : {R : Type 0} → Option (List R) → List R
or_no_rows none = []
or_no_rows (some rows) = rows

unfoldable pub task_of_row : TaskRow → List TaskGoods → TransportTask
task_of_row r goods = record {
  task_id = r.task_id;
  warehouse_id = r.warehouse_id;
  task_type = r.task_type;
  robot_ids = r.robot_ids;
  goods = goods;
  state = r.state;
  goal = r.goal;
  reason = r.reason;
  created_at = r.created_at;
  updated_at = r.updated_at;
}

with_goods : String → Option TaskRow → Connection Tables → Option TransportTask × Connection Tables
unfolding or_no_rows task_of_row
with_goods task_id none c = (none, c)
with_goods task_id (some r) c =
    let (goods, c') = query (goods_of task_id) c in (some (task_of_row r (or_no_rows goods)), c')

-- When the SELECT of the goods cannot be prepared, `goods` stays empty.
unfoldable pub get_task : String → Connection Tables → Option TransportTask × Connection Tables
unfolding with_goods
get_task task_id c =
    if c.is_open
    then (let (row, c') = query_one (find_task task_id) c in with_goods task_id row c')
    else (none, c)

abbrev pub is_active_state : String → Bool
is_active_state s = s == "PENDING" || s == "ACCEPTED" || s == "RUNNING"

-- The columns that GetActiveTasks does not read stay as the struct declares them.
unfoldable pub active_tasks : Tables → List TransportTask
unfolding task_of_row
active_tasks t =
    map
      (λ r. record (task_of_row r []) { goal = ""; reason = ""; created_at = ""; updated_at = "" })
      (filter (λ r. is_active_state r.state) t.tasks)

unfoldable pub get_active_tasks :
    Connection Tables → Option (List TransportTask) × Connection Tables
get_active_tasks c = if c.is_open then query active_tasks c else (none, c)

-- UPDATE tbl_task SET state=?, reason=?, updated_at=CURRENT_TIMESTAMP WHERE task_id=?.
unfoldable pub set_state : String → String → String → TaskRow → TaskRow
set_state state reason now r = record r { state = state; reason = reason; updated_at = now }

unfoldable pub set_state_statement :
    String → String → String → String → Tables → Option (ℕ × Tables)
set_state_statement task_id state reason now t =
    put_tasks t (update_rows task_check (is_task task_id) (set_state state reason now) t.tasks)

-- UpdateTaskState, with the reading of CURRENT_TIMESTAMP as an argument.
unfoldable pub set_task_state :
    String → String → String → String → Connection Tables → Bool × Connection Tables
set_task_state task_id state reason now =
    when_open (run (done (set_state_statement task_id state reason now)))

unfoldable pub update_task_state :
    String → String → String → Connection Tables → Bool × Connection Tables
update_task_state task_id state reason c = set_task_state task_id state reason c.clock c

-- UpdateTaskStateWithEvent, with the reading of CURRENT_TIMESTAMP as an argument.
unfoldable pub set_state_with_event :
    String → String → String → String → String → Connection Tables → Bool × Connection Tables
set_state_with_event task_id state reason source now = when_open (
    transaction (
      run (done (set_state_statement task_id state reason now))
      and_then run (done (insert_task_event task_id state reason source now))))

unfoldable pub update_task_state_with_event :
    String → String → String → String → Connection Tables → Bool × Connection Tables
update_task_state_with_event task_id state reason source c =
    set_state_with_event task_id state reason source c.clock c

-- What UpdateTaskStateWithEvent does to the tables, failing calls apart.
abbrev pub state_event_tables : String → String → String → String → String → Tables → Option Tables
state_event_tables task_id state reason source now =
    done (set_state_statement task_id state reason now)
    then_do done (insert_task_event task_id state reason source now)

unfoldable pub status_of_row : StatusRow → TaskGoodsStatus
status_of_row r = record {
  goods_id = r.goods_id;
  total_quantity = r.total_quantity;
  in_progress_quantity = r.in_progress_quantity;
  completed_quantity = r.completed_quantity;
  pending_quantity = r.pending_quantity;
  updated_at = r.updated_at;
}

unfoldable pub statuses_of : String → Tables → List TaskGoodsStatus
unfolding status_of_row
statuses_of task_id t = map status_of_row (filter (λ r. r.task_id == task_id) t.statuses)

unfoldable pub some_rows : Option (List TaskGoodsStatus) → Option (List TaskGoodsStatus)
some_rows none = none
some_rows (some []) = none
some_rows (some (x ∷ xs)) = some (x ∷ xs)

-- `return !statusList.empty();`.
unfoldable pub get_task_goods_status :
    String → Connection Tables → Option (List TaskGoodsStatus) × Connection Tables
unfolding some_rows
get_task_goods_status task_id c =
    if c.is_open
    then (let (rows, c') = query (statuses_of task_id) c in (some_rows rows, c'))
    else (none, c)

unfoldable pub amr_event_row : AmrTaskStatusEvent → String → AmrEventRow
amr_event_row e now = record {
  message_id = e.message_id;
  task_id = e.task_id;
  robot_id = e.robot_id;
  event_type = e.event_type;
  task_state = e.task_state;
  goods_json = e.goods_json;
  reason = e.reason;
  timestamp = e.timestamp;
  received_at = now;
}

unfoldable pub keep_or_ignore : Tables → Option (List AmrEventRow) → Option (ℕ × Tables)
keep_or_ignore t none = some (0, t)
keep_or_ignore t (some rows) = some (1, record t { amr_events = rows })

-- INSERT OR IGNORE: a row that a constraint refuses is left out, and the statement succeeds.
unfoldable pub insert_amr_event : AmrTaskStatusEvent → String → Tables → Option (ℕ × Tables)
unfolding amr_event_row keep_or_ignore
insert_amr_event e now t =
    keep_or_ignore t (insert_row amr_event_check amr_event_clash (amr_event_row e now) t.amr_events)

-- InsertAmrTaskStatusEvent, with the reading of CURRENT_TIMESTAMP as an argument.
unfoldable pub record_amr_event :
    AmrTaskStatusEvent → String → Connection Tables → Bool × Connection Tables
record_amr_event e now = when_open (run (done (insert_amr_event e now)))

unfoldable pub insert_amr_task_status_event :
    AmrTaskStatusEvent → Connection Tables → Bool × Connection Tables
insert_amr_task_status_event e c = record_amr_event e c.clock c
