-- ===== src/Amr/Behavior/State.antt =====
-- The state of AmrBehaviorManagerNode and how it publishes
-- (robot_ws/src/amr_behavior_manager/src/amr_behavior_manager_node.cpp). What it publishes, and the
-- calls of the navigation action, are collected in order.
use Prim.Native.String.{◌++◌ as append}
use amr_warehouse_collaborat.Prelude.{
  ℕ, zero, suc, ◌/◌, ◌%◌, ltb, ℤ, String, Bool, true, false, Option, none, some, List, [], ◌∷◌,
  ◌++◌, if◌then◌else◌,
}
use amr_warehouse_collaborat.Amr.Messages.{
  TaskGoods, TaskGoodsStatus, TaskEvent, RobotStatus, ComponentStatus,
}
use amr_warehouse_collaborat.Amr.GoodsPoints.{ZoneStationLoader}

-- Doubles with the operations that the node uses: 0.0, 1.0, `yaw * 0.5`, std::sin and std::cos.
pub record Doubles (R : Type 0) : Type 0 where
  pub nought : R
  pub one : R
  pub half : R → R
  pub sin : R → R
  pub cos : R → R

-- A PoseStamped in the frame "map": its position, and z and w of its orientation.
pub record GoalPose (R : Type 0) : Type 0 where
  pub x : R
  pub y : R
  pub z : R
  pub w : R

-- Parameters of the node. They are read at each use and not changed while it runs.
pub record Parameters : Type 0 where
  pub robot_id : String
  pub carry_capacity : ℤ

-- What rclcpp_action says of a goal handle.
pub data GoalStatus : Type 0 where
  accepted executing canceling succeeded canceled aborted : GoalStatus

pub data ResultCode : Type 0 where
  result_succeeded result_canceled result_aborted result_unknown : ResultCode

-- A RobotPose: its position and whether it is valid.
pub record RobotPose (R : Type 0) : Type 0 where
  pub x : R
  pub y : R
  pub pose_valid : Bool

pub record NavigationClient (R : Type 0) : Type 0 where
  pub current_goal_handle : Option GoalStatus
  pub latest_pose : Option (RobotPose R)

-- The callbacks of the timers that are kept in `m_one_shot_timers`.
pub data OneShot : Type 0 where
  grasped placed : OneShot

pub data Output (R : Type 0) : Type 0 where
  task_event : TaskEvent → Output R
  robot_status : RobotStatus R → Output R
  component_status : ComponentStatus → Output R
  send_goal : GoalPose R → Output R
  cancel_goal : Output R

pub record Node (R : Type 0) : Type 0 where
  pub nav_client : Option (NavigationClient R)
  pub goods_point_resolver : Option (ZoneStationLoader R)
  pub one_shot_timers : List OneShot
  pub current_task_id : String
  pub current_warehouse_id : String
  pub current_task_type : String
  pub task_state : String
  pub request_id : String
  pub waiting_goods_response : Bool
  pub map_ready : Bool
  pub edge_online : Bool
  pub goods_status : List TaskGoodsStatus
  pub current_goods : List TaskGoods
  pub outputs : List (Output R)

-- std::to_string of a number of nanoseconds, which has at most 19 digits.
abbrev digit : ℕ → String
digit n =
    if ltb n 1
    then "0"
    else if ltb n 2
    then "1"
    else if ltb n 3
    then "2"
    else if ltb n 4
    then "3"
    else if ltb n 5
    then "4"
    else if ltb n 6
    then "5"
    else if ltb n 7
    then "6"
    else if ltb n 8
    then "7"
    else if ltb n 9
    then "8"
    else "9"

decimal_from : ℕ → ℕ → String
decimal_from zero n = ""
decimal_from (suc fuel) n =
    let more = decimal_from fuel (n / 10) in append (if ltb n 10 then "" else more) (digit (n % 10))

unfoldable pub decimal : ℕ → String
unfolding decimal_from
decimal n = decimal_from 20 n

module _ {R : Type 0} where
  -- The node as it is constructed, and after `init`.
  unfoldable pub constructed : Node R
  constructed = record {
    nav_client = none;
    goods_point_resolver = none;
    one_shot_timers = [];
    current_task_id = "";
    current_warehouse_id = "";
    current_task_type = "";
    task_state = "IDLE";
    request_id = "";
    waiting_goods_response = false;
    map_ready = false;
    edge_online = true;
    goods_status = [];
    current_goods = [];
    outputs = [];
  }

  unfoldable pub init : Node R → Node R
  init n = record n {
    nav_client = some (record { current_goal_handle = none; latest_pose = none });
  }

  unfoldable pub put : Output R → Node R → Node R
  put o n = record n { outputs = n.outputs ++ o ∷ [] }

  unfoldable pub event_of :
      ℕ → String → String → List TaskGoods → String → String → Node R → TaskEvent
  event_of now event_type task_state goods request_id reason n = record {
    event_type = event_type;
    task_id = n.current_task_id;
    warehouse_id = n.current_warehouse_id;
    task_state = task_state;
    goods = goods;
    request_id = request_id;
    reason = reason;
    stamp = now;
  }

  unfoldable pub publish_task_event :
      ℕ → String → String → List TaskGoods → String → String → Node R → Node R
  unfolding put event_of
  publish_task_event now event_type task_state goods request_id reason n =
      put (task_event (event_of now event_type task_state goods request_id reason n)) n

  unfoldable pub reset_task : Node R → Node R
  reset_task n = record n {
    current_task_id = "";
    current_warehouse_id = "";
    current_task_type = "";
    task_state = "IDLE";
    goods_status = [];
    current_goods = [];
    request_id = "";
    waiting_goods_response = false;
  }

  unfoldable pub make_request_id : ℕ → Node R → String
  unfolding decimal
  make_request_id now n = append n.current_task_id (append "_" (decimal now))
