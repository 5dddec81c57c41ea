-- ===== src/Tests/Navigation.antt =====
-- Runs of the navigation server of a robot; numbers stand for doubles and goal handles.
use amr_warehouse_collaborat.Prelude.{ℕ, true, false, ◌≡◌, refl, none, some, List, [], ◌∷◌, arith}
use amr_warehouse_collaborat.Amr.GoodsPoints.{codes}
use amr_warehouse_collaborat.Amr.Behavior.State.{GoalPose, result_succeeded, result_canceled}
use amr_warehouse_collaborat.Amr.Navigation.Manager.{
  new_manager, navigate_to_pose, is_busy, state_of_result, idle, accepting, navigating,
}
use amr_warehouse_collaborat.Amr.Navigation.State.{
  aborts, ready, InitialPose, NavigationServer, new_server,
}
use amr_warehouse_collaborat.Amr.Navigation.Process.{Conditions, NodeOptions}
use amr_warehouse_collaborat.Amr.Navigation.Nav2.{
  MapInfo, initial_pose_message, map_told, ticked, nav2_step, nav2_run,
}
use amr_warehouse_collaborat.Amr.Navigation.Nav2.Starting.{nav2_becomes_ready, launched}
use amr_warehouse_collaborat.Amr.Navigation.Nav2.Failing.{has_map, keeps_map, failed_launch_stays}
use amr_warehouse_collaborat.Amr.Navigation.Goals.{
  registering, waiting_for_old, waiting, retry_execution, handle_cancel, start_execution,
  register_goal, finish_execution, crashed, finish_goal, execute, goal_answered, result_arrives,
}
use amr_warehouse_collaborat.Amr.Navigation.Goals.Outcomes.{
  Ends, early_result_lost, superseded_ends_process, superseded_takes_result,
}
use amr_warehouse_collaborat.Amr.Navigation.Server.{
  result_stored, take, step, new_system, Event, goal_requested, thread_runs, nav2_answers,
  nav2_ends, nav2_event, run,
}
use amr_warehouse_collaborat.Amr.Navigation.Server.EndedOnce.{endings_of, ended_at, ends_once}
use amr_warehouse_collaborat.Amr.Navigation.Server.Canceling.{cancel_before_answer}
use amr_warehouse_collaborat.Amr.Navigation.Template.{
  nav2_params, robot_prefix, replace_loop, frame_prefix,
}
use amr_warehouse_collaborat.Amr.Navigation.Template.Replacing.{filled, loop_fills}
use amr_warehouse_collaborat.Tests.Amr.{doubles}

abbrev options : NodeOptions
options = record { params_file = "nav2_params.yaml"; use_sim_time = true; robot_id = "robot01" }

abbrev works : Conditions
works = record {
  fork_pid = some 42;
  running = [];
  nav_service = true;
  loc_service = true;
  params_written = true;
}

abbrev fails : Conditions
fails = record works { fork_pid = none }

abbrev floor : MapInfo
floor = record { map_version = "v1"; map_yaml = "floor.yaml"; is_ready = true }

abbrev upstairs : MapInfo
upstairs = record { map_version = "v2"; map_yaml = "upstairs.yaml"; is_ready = true }

abbrev dock : InitialPose ℕ
dock = record { x = 1; y = 2; yaw = 3 }

abbrev shelf : GoalPose ℕ
shelf = record { x = 5; y = 6; z = 0; w = 1 }

abbrev located : NavigationServer ℕ ℕ
located = record new_server { initial_pose = some dock }

nav2_becomes_ready_example :
    nav2_run doubles options ((works, map_told (some floor)) ∷ (works, ticked) ∷ []) located
    ≡ record (launched options works floor 42 located) {
      nav2_state = ready;
      initial_poses = initial_pose_message doubles dock ∷ [];
      initial_pose_published = true;
    }
nav2_becomes_ready_example =
    nav2_becomes_ready doubles options works works floor 42 dock located refl refl refl refl refl
      refl refl

failed_launch_stays_example :
    let last =
      nav2_run doubles options
        ((fails, map_told (some floor)) ∷ (works, ticked) ∷ (works, map_told (some upstairs)) ∷ [])
        located in
    (last.nav2_pid ≡ none) × (last.launches ≡ [])
unfolding keeps_map has_map
failed_launch_stays_example =
    failed_launch_stays doubles options fails floor
      ((works, ticked) ∷ (works, map_told (some upstairs)) ∷ []) located refl refl refl refl refl

early_result_lost_example :
    let sent = (start_execution false true 0 shelf located).1 in
    let missed = λ (early : NavigationServer ℕ ℕ).
      (finish_execution true false 0 (register_goal 0 early) ≡ (waiting, register_goal 0 early))
      × ((finish_execution true true 0 (register_goal 0 early)).1.endings
          ≡ (0, aborts "navigation result timeout") ∷ [])
      × ((finish_execution true true 0 (register_goal 0 early)).1.manager.state ≡ idle)
      × ((finish_execution true true 0 (register_goal 0 early)).1.navigating ≡ true) in
    missed (goal_answered none sent)
    × missed (result_arrives result_succeeded (goal_answered (some 7) sent))
unfolding is_busy
early_result_lost_example = early_result_lost 0 shelf true located (some 7) result_succeeded refl

-- The server while the thread of the goal 0 waits.
abbrev moving : NavigationServer ℕ ℕ
moving = record located {
  manager = record new_manager { state = navigating; goal_handle = some 7; goals = shelf ∷ [] };
  active_goal = some 0;
  navigating = true;
}

superseded_takes_result_example :
    let asked = start_execution false true 1 shelf moving in
    let retried = retry_execution true 1 shelf (result_arrives result_canceled asked.1) in
    let moved = register_goal 1 retried.1 in
    let ended = result_arrives result_succeeded (goal_answered (some 8) moved) in
    (asked.0 ≡ waiting_for_old)
    × (asked.1.manager.cancels ≡ 7 ∷ [])
    × (retried.0 ≡ registering)
    × (finish_execution false false 0 moved ≡ (waiting, moved))
    × Ends false 0 result_succeeded moving (finish_execution false false 0 ended)
superseded_takes_result_example =
    superseded_takes_result 1 shelf false 0 moving 7 8 result_succeeded refl refl

superseded_ends_process_example :
    let asked = start_execution false true 1 shelf moving in
    let ended = finish_execution false false 0 (result_arrives result_canceled asked.1) in
    (asked.0 ≡ waiting_for_old)
    × (asked.1.manager.cancels ≡ 7 ∷ [])
    × (ended.0 ≡ crashed)
    × (ended.1.terminated ≡ true)
    × (ended.1.endings ≡ [])
superseded_ends_process_example = superseded_ends_process 1 shelf 0 moving 7 refl refl

-- A map is told, and a goal is requested, sent and reached.
abbrev drive : List (Event ℕ ℕ)
drive =
    nav2_event works (map_told (some floor))
    ∷ goal_requested shelf
    ∷ thread_runs 0 false true false
    ∷ thread_runs 0 false true false
    ∷ nav2_answers (some 7)
    ∷ thread_runs 0 false true false
    ∷ nav2_ends result_succeeded
    ∷ result_stored
    ∷ thread_runs 0 false true false
    ∷ thread_runs 0 false true true
    ∷ []

ends_once_example : endings_of 0 (run doubles options drive new_system).server.endings ≡ 1
unfolding run step take execute finish_execution finish_goal ended_at nav2_step navigate_to_pose
    state_of_result
ends_once_example = ends_once doubles options drive 0

abbrev asking : List (Event ℕ ℕ)
asking =
    nav2_event works (map_told (some floor))
    ∷ goal_requested shelf
    ∷ thread_runs 0 false true false
    ∷ []

asking-accepting : (run doubles options asking new_system).server.manager.state ≡ accepting
unfolding run step take nav2_step navigate_to_pose
asking-accepting = refl

cancel_before_answer_example :
    let s = (run doubles options asking new_system).server in
    (handle_cancel s ≡ (true, s))
    × ((goal_answered (some 7) (handle_cancel s).1).manager.state ≡ navigating)
    × ((goal_answered (some 7) (handle_cancel s).1).manager.cancels ≡ s.manager.cancels)
cancel_before_answer_example = cancel_before_answer doubles options asking 7 asking-accepting

loop_fills_example :
    (replace_loop 40 robot_prefix (frame_prefix (codes "r1")) (codes "id: <robot_prefix>odom") 0
      ≡ codes "id: r1_odom")
    × (nav2_params (codes "r1") (codes "id: <robot_prefix>odom") ≡ codes "id: r1_odom")
unfolding filled frame_prefix
loop_fills_example = loop_fills (codes "r1") (codes "id: <robot_prefix>odom") 40 (omega arith)
