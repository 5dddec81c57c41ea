-- ===== src/Edge/TaskReports.antt =====
-- edge_server/src/service/task_service.cpp: handleGoodsApply, handleAmrTaskStatus,
-- buildTaskStateMessage and markTaskInterrupted. The clock reading of nowIso8601 is an argument.
pub mod Safety
pub mod Several
pub mod Apply
pub mod Completion
pub mod Message
pub mod Unnamed
use amr_warehouse_collaborat.Prelude.{
  ◌%◌, ◌-◌, ltb, negsuc, ℕ, ℤ, pos, ◌+ℤ◌, leb_ℤ, String, ◌==◌, is_blank, Bool, true, false, not,
  ◌&&◌, ◌||◌, Option, none, some, List, [], ◌∷◌, map, any, is_empty, if◌then◌else◌,
}
use amr_warehouse_collaborat.Edge.Types.{
  TaskGoods, TransportTask, TaskGoodsStatus, AmrTaskStatusEvent, GoodsApplyRequest,
  GoodsApplyResult,
}
use amr_warehouse_collaborat.Edge.Schema.{Tables}
use amr_warehouse_collaborat.Edge.Sql.{Connection}
use amr_warehouse_collaborat.Edge.Allocations.{approve_goods_allocation, settle_goods_allocation}
use amr_warehouse_collaborat.Edge.TaskStore.{
  get_task, get_task_goods_status, update_task_state_with_event, insert_amr_task_status_event,
}
use amr_warehouse_collaborat.Edge.TaskService.{bad_goods}

unfoldable pub refused : String → GoodsApplyResult
refused reason = record { accepted = false; reason = reason; goods = [] }

-- The loop of approvals: it stops at the first that fails, and keeps those before it.
unfoldable pub approve_all :
    String → GoodsApplyRequest → List TaskGoods → Connection Tables → Bool × Connection Tables
approve_all now request [] c = (true, c)
approve_all now request (g ∷ rest) c =
    let (approved, c') =
      approve_goods_allocation request.request_id request.task_id g.goods_id request.robot_id
        g.total_quantity now c in
    let others = approve_all now request rest c' in if approved then others else (false, c')

start_running : String → TransportTask → Connection Tables → Connection Tables
start_running task_id task c =
    if task.state == "PENDING" || task.state == "ACCEPTED"
    then (update_task_state_with_event task_id "RUNNING" "first goods approved" "EDGE" c).1
    else c

unfoldable pub apply_to_task :
    String
    → GoodsApplyRequest
    → Option TransportTask
    → Connection Tables
    → GoodsApplyResult × Connection Tables
unfolding refused start_running
apply_to_task now request none c = (refused "task not found", c)
apply_to_task now request (some task) c =
    if not (any (λ r. r == request.robot_id) task.robot_ids)
    then (refused "robot not in task", c)
    else (let (approved, c') = approve_all now request request.goods c in
        if approved
        then (
          record { accepted = true; reason = ""; goods = request.goods },
          start_running request.task_id task c',
        )
        else (refused "approve failed", c'))

-- The return value of the source is `accepted`.
unfoldable pub handle_goods_apply :
    String → GoodsApplyRequest → Connection Tables → GoodsApplyResult × Connection Tables
unfolding refused apply_to_task bad_goods
handle_goods_apply now request c =
    if is_blank request.task_id || is_blank request.robot_id || is_empty request.goods
    then (refused "invalid request", c)
    else if any bad_goods request.goods
    then (refused "invalid goods", c)
    else (let (task, c') = get_task request.task_id c in apply_to_task now request task c')

abbrev pub settle_state : String → String
settle_state event_type = if event_type == "CARRY_COMPLETED" then "COMPLETED" else "ABORTED"

abbrev pub is_carry : String → Bool
is_carry event_type = event_type == "CARRY_COMPLETED" || event_type == "CARRY_ABORTED"

-- A carry event settles its allocation; false ends the handler.
unfoldable pub settle_carry : AmrTaskStatusEvent → Connection Tables → Bool × Connection Tables
settle_carry e c =
    if is_carry e.event_type
    then (if is_blank e.request_id
        then (false, c)
        else settle_goods_allocation e.request_id e.robot_id (settle_state e.event_type) e.timestamp
            c)
    else (true, c)

accept_pending : String → Option TransportTask → Connection Tables → Connection Tables
accept_pending task_id none c = c
accept_pending task_id (some task) c =
    if task.state == "PENDING"
    then (update_task_state_with_event task_id "ACCEPTED" "first AMR accepted" "AMR" c).1
    else c

unfoldable pub accept_task : AmrTaskStatusEvent → Connection Tables → Connection Tables
unfolding accept_pending
accept_task e c =
    if e.event_type == "STATUS" && e.task_state == "ACCEPTED"
    then (let (task, c') = get_task e.task_id c in accept_pending e.task_id task c')
    else c

-- `pending_quantity > 0 || in_progress_quantity > 0`.
unfoldable pub is_unfinished : TaskGoodsStatus → Bool
is_unfinished s =
    not (leb_ℤ s.pending_quantity (pos 0)) || not (leb_ℤ s.in_progress_quantity (pos 0))

finish_when_done : String → Option (List TaskGoodsStatus) → Connection Tables → Connection Tables
unfolding is_unfinished
finish_when_done task_id none c = c
finish_when_done task_id (some statuses) c =
    if any is_unfinished statuses
    then c
    else (update_task_state_with_event task_id "SUCCEEDED" "all goods completed" "AMR" c).1

finish_found : String → Option TransportTask → Connection Tables → Connection Tables
unfolding finish_when_done
finish_found task_id none c = c
finish_found task_id (some task) c =
    let (statuses, c') = get_task_goods_status task_id c in finish_when_done task_id statuses c'

unfoldable pub finish_task : AmrTaskStatusEvent → Connection Tables → Connection Tables
unfolding finish_found
finish_task e c =
    if e.event_type == "CARRY_COMPLETED"
    then (let (task, c') = get_task e.task_id c in finish_found e.task_id task c')
    else c

unfoldable pub handle_amr_task_status :
    AmrTaskStatusEvent → Connection Tables → Bool × Connection Tables
handle_amr_task_status e c =
    let (recorded, c₁) = insert_amr_task_status_event e c in
    if recorded
    then (let (settled, c₂) = settle_carry e c₁ in
        if settled then (true, finish_task e (accept_task e c₂)) else (false, c₂))
    else (false, c₁)

unfoldable pub mark_task_interrupted :
    String → String → Connection Tables → Bool × Connection Tables
mark_task_interrupted task_id reason =
    update_task_state_with_event task_id "INTERRUPTED" reason "TIMEOUT"

-- An element of `goods_status`, whose name is always empty.
pub record GoodsItem : Type 0 where
  pub goods_id : String
  pub goods_name : String
  pub total_quantity : ℤ
  pub in_progress_quantity : ℤ
  pub completed_quantity : ℤ
  pub pending_quantity : ℤ

unfoldable pub goods_item : TaskGoodsStatus → GoodsItem
goods_item s = record {
  goods_id = s.goods_id;
  goods_name = "";
  total_quantity = s.total_quantity;
  in_progress_quantity = s.in_progress_quantity;
  completed_quantity = s.completed_quantity;
  pending_quantity = s.pending_quantity;
}

-- The JSON object of the shared state of a task.
pub record StateMessage : Type 0 where
  pub warehouse_id : String
  pub task_id : String
  pub state : String
  pub total_quantity : ℤ
  pub in_progress_quantity : ℤ
  pub completed_quantity : ℤ
  pub pending_quantity : ℤ
  pub goods_status : List GoodsItem
  pub updated_at : String

-- An int of 32 bits. An addition that overflows, which is undefined in C++, wraps around here.
unfoldable pub to_int : ℤ → ℤ
to_int (pos n) =
    let low = n % 4294967296 in if ltb low 2147483648 then pos low else negsuc (4294967295 - low)
to_int (negsuc n) =
    let low = n % 4294967296 in if ltb low 2147483648 then negsuc low else pos (4294967295 - low)

-- The loop that adds up the quantities, each in its accumulator.
unfoldable pub sum_quantities : (TaskGoodsStatus → ℤ) → ℤ → List TaskGoodsStatus → ℤ
unfolding to_int
sum_quantities quantity acc [] = acc
sum_quantities quantity acc (s ∷ rest) = sum_quantities quantity (to_int (acc +ℤ quantity s)) rest

unfoldable pub state_message : TransportTask → List TaskGoodsStatus → StateMessage
state_message task statuses = record {
  warehouse_id = task.warehouse_id;
  task_id = task.task_id;
  state = task.state;
  total_quantity = sum_quantities (λ s. s.total_quantity) (pos 0) statuses;
  in_progress_quantity = sum_quantities (λ s. s.in_progress_quantity) (pos 0) statuses;
  completed_quantity = sum_quantities (λ s. s.completed_quantity) (pos 0) statuses;
  pending_quantity = sum_quantities (λ s. s.pending_quantity) (pos 0) statuses;
  goods_status = map goods_item statuses;
  updated_at = task.updated_at;
}

message_of :
    TransportTask
    → Option (List TaskGoodsStatus)
    → Connection Tables
    → Option StateMessage × Connection Tables
unfolding state_message
message_of task none c = (none, c)
message_of task (some statuses) c = (some (state_message task statuses), c)

message_found :
    String → Option TransportTask → Connection Tables → Option StateMessage × Connection Tables
unfolding message_of
message_found task_id none c = (none, c)
message_found task_id (some task) c =
    let (statuses, c') = get_task_goods_status task_id c in message_of task statuses c'

-- `none` is the empty string.
unfoldable pub build_task_state_message :
    String → Connection Tables → Option StateMessage × Connection Tables
unfolding message_found
build_task_state_message task_id c =
    let (task, c') = get_task task_id c in message_found task_id task c'
