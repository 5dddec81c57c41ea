-- ===== src/Edge/Heartbeat.antt =====
-- EdgeServerApp::checkAmrHeartbeat (edge_server/src/edge_server_app.cpp): a task none of whose
-- robots is well is interrupted, and its state is published.
pub mod Spares
use Prim.Native.String.{◌++◌ as append}
use amr_warehouse_collaborat.Prelude.{
  ℕ, ◌+◌, ltb, String, Bool, true, false, not, ◌&&◌, ◌||◌, Option, none, some, List, [], ◌∷◌, ◌++◌,
  is_empty, if◌then◌else◌,
}
use amr_warehouse_collaborat.Edge.Types.{TransportTask}
use amr_warehouse_collaborat.Edge.Schema.{Tables}
use amr_warehouse_collaborat.Edge.Sql.{Connection}
use amr_warehouse_collaborat.Edge.TaskStore.{get_active_tasks}
use amr_warehouse_collaborat.Edge.TaskReports.{
  StateMessage, mark_task_interrupted, build_task_state_message,
}
use amr_warehouse_collaborat.Edge.RobotTypes.{
  RobotState, offline, initializing, idle, working, charging, paused, error, RobotRunningStatus,
}
use amr_warehouse_collaborat.Edge.Robots.{RobotManager, get_robot_status}

-- The database and what was published on the topics of task states.
pub record Board : Type 0 where
  pub db : Connection Tables
  pub published : List (String × StateMessage)

-- mqtt_topic::makeWarehouseTaskStateTopic of common/mqtt/mqtt_topic.h.
unfoldable pub task_state_topic : String → String → String
task_state_topic warehouse_id task_id =
    append "warehouse/" (append warehouse_id (append "/task/" (append task_id "/state")))

unfoldable pub is_down : RobotState → Bool
is_down offline = true
is_down initializing = false
is_down idle = false
is_down working = false
is_down charging = false
is_down paused = false
is_down error = true

module _ {P B : Type 0} (now : ℕ) (robots : RobotManager P B) where
  -- `now - timestamp > kTimeoutSeconds`, in seconds below 2^63.
  unfoldable pub is_abnormal : RobotRunningStatus P B → Bool
  unfolding is_down
  is_abnormal status = not status.online || is_down status.state || ltb (status.timestamp + 300) now

  -- The loop over the robots of a task: a robot that the manager does not know is passed over, and
  -- one that is well ends it.
  unfoldable pub none_well : List String → Bool
  unfolding is_abnormal
  none_well [] = true
  none_well (robot_id ∷ rest) =
      let others = none_well rest in
      elim (get_robot_status robot_id robots) [
        | none ↦ others
        | some status ↦ if is_abnormal status then others else false
      ]

  unfoldable pub all_abnormal : TransportTask → Bool
  unfolding none_well
  all_abnormal task = not (is_empty task.robot_ids) && none_well task.robot_ids

  publish_state : TransportTask → Option StateMessage × Connection Tables → Board → Board
  publish_state task (none, db') b = record b { db = db' }
  publish_state task (some message, db') b = record b {
    db = db';
    published = b.published ++ (task_state_topic task.warehouse_id task.task_id, message) ∷ [];
  }

  -- What is done about one task.
  unfoldable pub check_task : TransportTask → Board → Board
  unfolding all_abnormal publish_state
  check_task task b =
      if all_abnormal task
      then (let (marked, db') = mark_task_interrupted task.task_id "ALL_AMRS_ABNORMAL" b.db in
          if marked
          then publish_state task (build_task_state_message task.task_id db') b
          else record b { db = db' })
      else b

  unfoldable pub check_tasks : List TransportTask → Board → Board
  unfolding check_task
  check_tasks [] b = b
  check_tasks (task ∷ rest) b = check_tasks rest (check_task task b)

  check_found : Option (List TransportTask) → Board → Board
  unfolding check_tasks
  check_found none b = b
  check_found (some tasks) b = check_tasks tasks b

  unfoldable pub check_amr_heartbeat : Board → Board
  unfolding check_found
  check_amr_heartbeat b =
      let (tasks, db') = get_active_tasks b.db in check_found tasks (record b { db = db' })
