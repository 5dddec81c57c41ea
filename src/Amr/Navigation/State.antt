-- ===== src/Amr/Navigation/State.antt =====
-- The members of NavigationServer in robot_ws/src/amr_navigation/src/navigation_server.cpp.
use amr_warehouse_collaborat.Prelude.{ℕ, ℤ, String, Bool, false, Option, none, List, []}
use amr_warehouse_collaborat.Amr.Messages.{ComponentState}
use amr_warehouse_collaborat.Amr.Behavior.State.{GoalPose}
use amr_warehouse_collaborat.Amr.Navigation.Manager.{
  NavigationExecutionState, idle, NavigationManager, new_manager,
}

pub data Nav2State : Type 0 where
  stopped : Nav2State
  starting_process : Nav2State
  starting_lifecycle : Nav2State
  waiting_for_localization : Nav2State
  ready : Nav2State
  stopping : Nav2State
  failed : Nav2State

pub data Signal : Type 0 where
  sigint sigterm sigkill : Signal

-- The arguments of `ros2 launch` that depend on the state of the node.
pub record Launch : Type 0 where
  pub map : String
  pub params_file : String
  pub use_sim_time : Bool
  pub namespace : String

pub record InitialPose (R : Type 0) : Type 0 where
  pub x : R
  pub y : R
  pub yaw : R

-- How a goal of the action server ended.
pub data Ending : Type 0 where
  succeeds : (message : String) → Ending
  cancels : (message : String) → Ending
  aborts : (message : String) → Ending

-- A goal of the action server is its index, and `H` is the type of the goal handles of Nav2.
-- `nav2_pid` is `none` where it is not positive. The lists are what was published, launched and
-- signalled, the process group of a signal as killpg is called with it, and how goals ended.
-- `telling` is the result that onNavigationResult has been called with and has not yet stored, and
-- `terminated` says that an exception in a thread has ended the process.
pub record NavigationServer (R H : Type 0) : Type 0 where
  pub manager : NavigationManager (GoalPose R) H
  pub result_ready : Bool
  pub result : NavigationExecutionState
  pub active_goal : Option ℕ
  pub map_ready : Bool
  pub initial_pose : Option (InitialPose R)
  pub nav2_pid : Option ℕ
  pub map_yaml : String
  pub map_version : String
  pub nav2_state : Nav2State
  pub initial_pose_published : Bool
  pub navigating : Bool
  pub telling : Option NavigationExecutionState
  pub terminated : Bool
  pub launches : List Launch
  pub signals : List (ℤ × Signal)
  pub initial_poses : List (GoalPose R)
  pub statuses : List ComponentState
  pub feedbacks : List (ℕ × NavigationExecutionState)
  pub endings : List (ℕ × Ending)

abbrev pub new_server : {R H : Type 0} → NavigationServer R H
new_server = record {
  manager = new_manager;
  result_ready = false;
  result = idle;
  active_goal = none;
  map_ready = false;
  initial_pose = none;
  nav2_pid = none;
  map_yaml = "";
  map_version = "";
  nav2_state = stopped;
  initial_pose_published = false;
  navigating = false;
  telling = none;
  terminated = false;
  launches = [];
  signals = [];
  initial_poses = [];
  statuses = [];
  feedbacks = [];
  endings = [];
}
