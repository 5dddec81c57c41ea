-- ===== src/Amr/Messages.antt =====
-- The messages of robot_ws/src/amr_interfaces/msg that the behaviour manager and the agent
-- exchange. `int32` quantities are integers; a time stamp is a number of nanoseconds.
use amr_warehouse_collaborat.Prelude.{ℕ, ℤ, String, Bool, List}

pub record TaskGoods : Type 0 where
  pub goods_id : String
  pub goods_name : String
  pub total_quantity : ℤ

pub record TaskGoodsStatus : Type 0 where
  pub goods_id : String
  pub goods_name : String
  pub total_quantity : ℤ
  pub in_progress_quantity : ℤ
  pub completed_quantity : ℤ
  pub pending_quantity : ℤ

pub record TaskCommand : Type 0 where
  pub command_type : String
  pub task_id : String
  pub warehouse_id : String
  pub task_type : String
  pub robot_ids : List String
  pub goods : List TaskGoods
  pub goods_status : List TaskGoodsStatus
  pub state : String
  pub reason : String
  pub request_id : String
  pub accepted : Bool
  pub stamp : ℕ

pub record TaskEvent : Type 0 where
  pub event_type : String
  pub task_id : String
  pub warehouse_id : String
  pub task_state : String
  pub goods : List TaskGoods
  pub request_id : String
  pub reason : String
  pub stamp : ℕ

-- The constants of RobotStatus.msg that the behaviour manager reports.
pub data RobotStatusState : Type 0 where
  state_idle : RobotStatusState
  state_executing : RobotStatusState

-- `R` is a double. The battery is always 100 and the yaw always 0.
pub record RobotStatus (R : Type 0) : Type 0 where
  pub robot_id : String
  pub state : RobotStatusState
  pub position_x : R
  pub position_y : R
  pub navigating : Bool
  pub current_task_id : String
  pub stamp : ℕ

pub data ComponentState : Type 0 where
  state_error : ComponentState
  state_initializing : ComponentState
  state_working : ComponentState
  state_idle : ComponentState

pub record ComponentStatus : Type 0 where
  pub state : ComponentState
  pub stamp : ℕ
