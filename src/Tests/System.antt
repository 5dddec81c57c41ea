-- ===== src/Tests/System.antt =====
-- Runs of the task bridge of a robot, of the registration of robots, and of a carry event on its way
-- to the edge server.
use amr_warehouse_collaborat.Prelude.{
  ℕ, String, true, false, ◌≡◌, refl, eqb, Bool, none, some, List, [], ◌∷◌, All,
}
use amr_warehouse_collaborat.Amr.Messages.{TaskGoods, TaskEvent}
use amr_warehouse_collaborat.Amr.Behavior.Callbacks.{run_node}
use amr_warehouse_collaborat.Amr.Behavior.Promises.{events_where, is_carry_event}
use amr_warehouse_collaborat.Amr.TaskBridge.Reports.{
  load_reports, build_mqtt_message, missing, Instant, make_message_id,
}
use amr_warehouse_collaborat.Amr.TaskBridge.{
  TaskBridge, Conditions, ack_arrives, flush_timer, calls, publish_task_event_to_mqtt,
  flush_pending_reports,
}
use amr_warehouse_collaborat.Amr.TaskBridge.Stored.{Holds}
use amr_warehouse_collaborat.Amr.TaskBridge.Waiting.{IsSent, report, unsent_report-Holds}
use amr_warehouse_collaborat.Edge.AmrCommunication.{AmrCommunication}
use amr_warehouse_collaborat.System.Carries.{IsLost, carry_events-IsLost}
use amr_warehouse_collaborat.Edge.MapStore.{get_active_map, find_active, package_of_row}
use amr_warehouse_collaborat.Edge.RobotTypes.{RobotEntity}
use amr_warehouse_collaborat.Edge.Robots.{RobotManager, find_robot, register_robot}
use amr_warehouse_collaborat.Edge.RobotStore.{upsert_robot, load_robots}
use amr_warehouse_collaborat.Edge.RobotService.{
  RobotRegisterRequest, RobotService, handle_register, restore_loaded,
}
use amr_warehouse_collaborat.Edge.RobotService.Answers.{AnswersMap, register_answer}
use amr_warehouse_collaborat.Edge.RobotService.Restart.{IsRestored, restart_keeps_robot}
use amr_warehouse_collaborat.Edge.Sql.{query_one, fetch, call}
use amr_warehouse_collaborat.Tests.Robots.{
  robot, status, no_robots, no_robots-IsReady, upsert_succeeds,
}
use amr_warehouse_collaborat.Tests.Samples.{connection, stored, mapped, package_v1}
use amr_warehouse_collaborat.Tests.Amr.{doubles, three_at_once, day}

abbrev event : TaskEvent
event = record {
  event_type = "STATUS";
  task_id = "t1";
  warehouse_id = "w1";
  task_state = "ACCEPTED";
  goods = [];
  request_id = "";
  reason = "";
  stamp = 1;
}

abbrev bridge : TaskBridge
bridge = record {
  robot_id = "r1";
  warehouse_id = "w1";
  pending_reports = missing;
  commands = [];
  sent = [];
}

abbrev offline_now : Conditions
offline_now = record { connected = false; delivers = false; writable = true }

abbrev noon : Instant
noon = record { ms = 12; iso = "noon" }

unsent_report-Holds_example :
    let later =
      calls
        (ack_arrives true (some ("other" ∷ [])) ∷ flush_timer true [] ∷ [])
        (publish_task_event_to_mqtt offline_now noon event bridge) in
    Holds (report offline_now noon event bridge) later.pending_reports
    × IsSent (build_mqtt_message "r1" "w1" noon event) (flush_pending_reports true [] later).sent
unfolding make_message_id load_reports
unsent_report-Holds_example =
    unsent_report-Holds offline_now noon event bridge
      (ack_arrives true (some ("other" ∷ [])) ∷ flush_timer true [] ∷ []) refl refl refl refl

abbrev dump : List TaskGoods → String
dump goods = "[]"

abbrev edge : AmrCommunication
edge = record { db = connection stored; published = [] }

carry_events-IsLost_example :
    All
      (IsLost dump "r1" "w1" noon edge)
      (events_where is_carry_event (run_node doubles three_at_once day).outputs)
carry_events-IsLost_example =
    carry_events-IsLost dump "r1" "w1" noon edge doubles three_at_once day refl

abbrev no_manager : RobotManager ℕ ℕ
no_manager = record { robots = []; allocator = none; notifies = false; events = [] }

abbrev request : RobotRegisterRequest
request = record {
  robot_id = "r1";
  instance_id = "";
  warehouse_id = "w1";
  map_version = "v0";
  request_id = "q1";
  register_timestamp = 5;
}

abbrev unregistered : RobotService ℕ ℕ
unregistered = record {
  manager = no_manager;
  store = no_robots;
  maps = record {
    warehouse_id = "w1";
    notifies = false;
    db = connection mapped;
    files = [];
    activated = [];
  };
}

register_answer_example :
    let (good, resp, s) =
      handle_register 0 0
        (record { now = 5; instance_id = "i1"; stamp = "8" })
        request
        unregistered in
    (good ≡ true)
    × ((e : RobotEntity ℕ ℕ) × (find_robot "r1" s.manager.robots ≡ some e)
        × (resp.has_initial_pose ≡ true)
        × (resp.initial_pose ≡ e.info.initial_pose)
        × (s.store ≡ (upsert_robot "8" e.info e.status no_robots).1))
    × AnswersMap "w1" "v0"
        (some (record package_v1 { id = 1; upload_time = "9"; activate = false }))
        resp
unfolding get_active_map find_active package_of_row query_one fetch call
register_answer_example =
    register_answer 0 0 (record { now = 5; instance_id = "i1"; stamp = "8" }) request unregistered
      refl

abbrev near : ℕ → ℕ → Bool
near x y = eqb x y

restart_keeps_robot_example :
    let started =
      restore_loaded near
        (load_robots 0 0 0 (upsert_robot "8" robot status no_robots).1).0
        no_manager in
    IsRestored 0 0 near "r1" robot started.robots
    × IsRestored 0 0 near "r1" robot (register_robot 0 0 9 "i2" robot started).1.robots
restart_keeps_robot_example =
    restart_keeps_robot 0 0 0 0 near "8" robot status no_robots no_manager 9 "i2" robot
      no_robots-IsReady refl refl refl upsert_succeeds refl
