-- ===== src/Edge/TaskService.antt =====
-- edge_server/src/service/task_service.cpp: the state of TaskService, createTask, getTask and
-- cancelTask. Published messages are collected in the order of the calls, as the JSON values that
-- they encode. The clock reading of nowIso8601 is an argument.
pub mod Safety
pub mod Outcomes
pub mod Cancellation
use Prim.Native.String.{◌++◌ as append}
use amr_warehouse_collaborat.Prelude.{
  ℕ, ℤ, pos, leb_ℤ, String, ◌==◌, is_blank, Bool, true, false, not, ◌&&◌, ◌||◌, Option, none, some,
  List, [], ◌∷◌, ◌++◌, map, any, is_empty, if◌then◌else◌,
}
use amr_warehouse_collaborat.Edge.Types.{TaskGoods, TransportTask}
use amr_warehouse_collaborat.Edge.Schema.{Tables}
use amr_warehouse_collaborat.Edge.Sql.{Connection}
use amr_warehouse_collaborat.Edge.TaskCreation.{create_task}
use amr_warehouse_collaborat.Edge.TaskStore.{task_exists, get_task, update_task_state}

-- The fields of the JSON command TASK_ASSIGN.
pub record TaskAssign : Type 0 where
  pub task_id : String
  pub warehouse_id : String
  pub task_type : String
  pub robot_ids : List String
  pub state : String
  pub reason : String
  pub goods : List TaskGoods

-- The two JSON commands that the service sends to a robot.
pub data Message : Type 0 where
  task_assign : TaskAssign → Message
  task_cancel : (task_id warehouse_id reason : String) → Message

unfoldable pub assign_message : TransportTask → Message
assign_message task = task_assign (record {
  task_id = task.task_id;
  warehouse_id = task.warehouse_id;
  task_type = task.task_type;
  robot_ids = task.robot_ids;
  state = task.state;
  reason = task.reason;
  goods = task.goods;
})

-- `publishes` is `m_publish_callback != nullptr`; `sent` is what the callback was called with.
pub record Service : Type 0 where
  pub warehouse_id : String
  pub publishes : Bool
  pub db : Connection Tables
  pub sent : List (String × Message)

-- The return value with the two out-parameters.
pub record Reply : Type 0 where
  pub good : Bool
  pub code : ℕ
  pub message : String

unfoldable pub rejected : ℕ → String → Reply
rejected code message = record { good = false; code = code; message = message }

unfoldable pub answered : String → Reply
answered message = record { good = true; code = 0; message = message }

-- mqtt_topic::makeAmrTaskTopic of common/mqtt/mqtt_topic.h.
unfoldable pub amr_task_topic : String → String
amr_task_topic robot_id = append "amr/" (append robot_id "/task")

-- One message to each robot of the task.
unfoldable pub publish_to : List String → Message → Service → Service
publish_to robot_ids m s =
    if s.publishes
    then record s { sent = s.sent ++ map (λ robot_id. (amr_task_topic robot_id, m)) robot_ids }
    else s

unfoldable pub bad_goods : TaskGoods → Bool
bad_goods g = is_blank g.goods_id || leb_ℤ g.total_quantity (pos 0)

-- The checks of createTask that need no database, in their order.
unfoldable pub validate_task : TransportTask → Option Reply
unfolding rejected bad_goods
validate_task task =
    if is_blank task.task_id
    then some (rejected 40001 "task_id empty")
    else if not (task.task_type == "LOAD") && not (task.task_type == "UNLOAD")
    then some (rejected 40002 "task_type invalid")
    else if is_empty task.robot_ids
    then some (rejected 41003 "robot_ids empty")
    else if is_empty task.goods
    then some (rejected 40002 "goods empty")
    else if any bad_goods task.goods
    then some (rejected 40002 "goods invalid")
    else none

-- The fields that the service sets before it stores a task.
unfoldable pub stamp : String → String → TransportTask → TransportTask
stamp warehouse_id now task = record task {
  warehouse_id = warehouse_id;
  state = "PENDING";
  created_at = now;
  updated_at = now;
}

store_task : TransportTask → Service → Reply × Service
unfolding rejected answered
store_task task s =
    let (created, db') = create_task task s.db in
    if created
    then (
      answered "success",
      publish_to task.robot_ids (assign_message task) (record s { db = db' }),
    )
    else (rejected 50001 "create task failed", record s { db = db' })

create_valid : String → TransportTask → Service → Reply × Service
unfolding rejected store_task
create_valid now task s =
    let (exists, db') = task_exists task.task_id s.db in
    if exists
    then (rejected 41002 "task already exists", record s { db = db' })
    else store_task (stamp s.warehouse_id now task) (record s { db = db' })

unfoldable pub create : String → TransportTask → Service → Reply × Service
unfolding create_valid
create now task s = elim (validate_task task) [
  | some reply ↦ (reply, s)
  | none ↦ create_valid now task s
]

unfoldable pub get : String → Service → Option TransportTask × Service
get task_id s = let (task, db') = get_task task_id s.db in (task, record s { db = db' })

abbrev pub is_terminal : String → Bool
is_terminal state =
    state == "SUCCEEDED" || state == "FAILED" || state == "CANCELLED" || state == "INTERRUPTED"

cancel_stored : TransportTask → String → Service → Reply × Service
unfolding rejected answered
cancel_stored task task_id s =
    if is_terminal task.state
    then (rejected 41006 "task already in terminal state", s)
    else (let (updated, db') = update_task_state task_id "CANCELLED" "canceled by API" s.db in
        if updated
        then (
          answered "cancel requested",
          publish_to task.robot_ids (task_cancel task_id task.warehouse_id "canceled by API")
              (record s { db = db' }),
        )
        else (rejected 50001 "update task failed", record s { db = db' }))

cancel_found : Option TransportTask → String → Service → Reply × Service
unfolding rejected cancel_stored
cancel_found none task_id s = (rejected 41005 "task not found", s)
cancel_found (some task) task_id s = cancel_stored task task_id s

unfoldable pub cancel : String → Service → Reply × Service
unfolding get cancel_found
cancel task_id s = let (task, s') = get task_id s in cancel_found task task_id s'
