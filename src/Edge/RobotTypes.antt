-- ===== src/Edge/RobotTypes.antt =====
-- The robot structures of edge_server/src/types.h, edge_server/src/robot/robot_entity.h and the events of
-- edge_server/src/robot/robot_manager.h. `P` is Pose2D and `B` is double.
use amr_warehouse_collaborat.Prelude.{ℕ, String, ◌==◌, Bool, if◌then◌else◌}

pub data RobotState : Type 0 where
  offline : RobotState
  initializing : RobotState
  idle : RobotState
  working : RobotState
  charging : RobotState
  paused : RobotState
  error : RobotState

unfoldable pub robot_state_to_string : RobotState → String
robot_state_to_string offline = "OFFLINE"
robot_state_to_string initializing = "INITIALIZING"
robot_state_to_string idle = "IDLE"
robot_state_to_string working = "WORKING"
robot_state_to_string charging = "CHARGING"
robot_state_to_string paused = "PAUSED"
robot_state_to_string error = "ERROR"

-- A string that names no state is OFFLINE.
unfoldable pub robot_state_from_string : String → RobotState
robot_state_from_string s =
    if s == "OFFLINE"
    then offline
    else if s == "INITIALIZING"
    then initializing
    else if s == "IDLE"
    then idle
    else if s == "WORKING"
    then working
    else if s == "CHARGING"
    then charging
    else if s == "PAUSED"
    then paused
    else if s == "ERROR"
    then error
    else offline

pub record RobotBaseInfo (P : Type 0) : Type 0 where
  pub robot_id : String
  pub instance_id : String
  pub warehouse_id : String
  pub map_version : String
  pub register_timestamp : ℕ
  pub initial_pose : P

pub record RobotRunningStatus (P B : Type 0) : Type 0 where
  pub robot_id : String
  pub state : RobotState
  pub online : Bool
  pub timestamp : ℕ
  pub battery : B
  pub pose : P
  pub task_id : String

pub record RobotInstanceInfo (P : Type 0) : Type 0 where
  pub robot_id : String
  pub instance_id : String
  pub pose : P

pub record RobotEntity (P B : Type 0) : Type 0 where
  pub info : RobotBaseInfo P
  pub status : RobotRunningStatus P B

pub data RobotEvent : Type 0 where
  register : RobotEvent
  status_changed : RobotEvent
  pose_changed : RobotEvent
  robot_offline : RobotEvent
