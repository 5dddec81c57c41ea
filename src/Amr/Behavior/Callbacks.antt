-- ===== src/Amr/Behavior/Callbacks.antt =====
-- All callbacks of the behaviour manager as the steps of one machine: the subscriptions and timers
-- of robot_ws/src/amr_behavior_manager/src/amr_behavior_manager_node.cpp and the callbacks of
-- navigation_client.cpp. rclcpp::spin runs one callback at a time, in any order.
use amr_warehouse_collaborat.Prelude.{
  ℕ, ◌==◌, is_blank, Bool, true, false, not, ◌||◌, Option, none, some, List, [], ◌∷◌, if◌then◌else◌,
}
use amr_warehouse_collaborat.Amr.Messages.{
  TaskCommand, RobotStatusState, ComponentState, state_error, state_initializing, state_working,
}
use amr_warehouse_collaborat.Amr.GoodsPoints.{StationInfo, ZoneInfo, Document, load_files}
use amr_warehouse_collaborat.Amr.Behavior.State.{
  Doubles, Parameters, GoalStatus, ResultCode, result_succeeded, result_canceled, result_aborted,
  result_unknown, RobotPose, NavigationClient, robot_status, component_status, Node, constructed,
  init, put, publish_task_event,
}
use amr_warehouse_collaborat.Amr.Behavior.Commands.{handle_task_command}
use amr_warehouse_collaborat.Amr.Behavior.Carries.{on_navigation_result, fire_timer}

-- What wakes the node. `goal_status` is a change of the goal handle by the action server.
pub data Event (R : Type 0) : Type 0 where
  task_command : TaskCommand → Event R
  map_info : (ready : Bool) → Document ZoneInfo → Document (StationInfo R) → Event R
  edge_status : (online : Bool) → Event R
  goal_response : Option GoalStatus → Event R
  goal_status : GoalStatus → Event R
  navigation_result : ResultCode → Event R
  robot_pose : RobotPose R → Event R
  one_shot_timer : (index : ℕ) (server_available : Bool) → Event R
  task_status_timer : Event R
  robot_status_timer : Event R

unfoldable pub is_success : ResultCode → Bool
is_success result_succeeded = true
is_success result_canceled = false
is_success result_aborted = false
is_success result_unknown = false

unfoldable pub change_status : GoalStatus → Option GoalStatus → Option GoalStatus
change_status status none = none
change_status status (some old) = some status

module _ {R : Type 0} where
  unfoldable pub on_map_info : Bool → Document ZoneInfo → Document (StationInfo R) → Node R → Node R
  on_map_info ready zones stations n =
      if ready
      then (let (loaded, loader) = load_files zones stations in
          if loaded
          then record n { goods_point_resolver = some loader; map_ready = true }
          else record n { map_ready = false })
      else n

  unfoldable pub set_handle : GoalStatus → Option (NavigationClient R) → Option (NavigationClient R)
  set_handle status none = none
  set_handle status (some client) = some (record client { current_goal_handle = some status })

  -- The goal response callback: a goal that is refused leaves the old handle.
  unfoldable pub on_goal_response : Option GoalStatus → Node R → Node R
  unfolding set_handle
  on_goal_response none n = n
  on_goal_response (some status) n = record n { nav_client = set_handle status n.nav_client }

  unfoldable pub change_client :
      GoalStatus → Option (NavigationClient R) → Option (NavigationClient R)
  unfolding change_status
  change_client status none = none
  change_client status (some client) =
      some (record client { current_goal_handle = change_status status client.current_goal_handle })

  unfoldable pub on_goal_status : GoalStatus → Node R → Node R
  unfolding change_client
  on_goal_status status n = record n { nav_client = change_client status n.nav_client }

  unfoldable pub cache_pose :
      RobotPose R → Option (NavigationClient R) → Option (NavigationClient R)
  cache_pose pose none = none
  cache_pose pose (some client) = some (record client { latest_pose = some pose })

  unfoldable pub on_robot_pose : RobotPose R → Node R → Node R
  unfolding cache_pose
  on_robot_pose pose n = record n { nav_client = cache_pose pose n.nav_client }

  unfoldable pub publish_periodic_task_status : ℕ → Node R → Node R
  unfolding publish_task_event
  publish_periodic_task_status now n =
      if is_blank n.current_task_id
      then n
      else publish_task_event now "STATUS" n.task_state n.current_goods "" "" n

  unfoldable pub component_state : Node R → ComponentState
  component_state n =
      if not n.map_ready
      then state_initializing
      else if n.task_state == "INTERRUPTED"
      then state_error
      else if n.task_state == "ACCEPTED"
          || n.task_state == "GRASPING"
          || n.task_state == "TRANSPORTING"
          || n.task_state == "PLACING"
      then state_working
      else ComponentState.state_idle

  unfoldable pub publish_component_status : ℕ → Node R → Node R
  unfolding put component_state
  publish_component_status now n =
      put (component_status (record { state = component_state n; stamp = now })) n

  module _ (d : Doubles R) (p : Parameters) where
    unfoldable pub valid_pose : Option (RobotPose R) → R × R
    valid_pose none = (d.nought, d.nought)
    valid_pose (some pose) = if pose.pose_valid then (pose.x, pose.y) else (d.nought, d.nought)

    unfoldable pub known_pose : Option (NavigationClient R) → R × R
    unfolding valid_pose
    known_pose none = (d.nought, d.nought)
    known_pose (some client) = valid_pose client.latest_pose

    unfoldable pub publish_robot_status : ℕ → Node R → Node R
    unfolding known_pose put publish_component_status
    publish_robot_status now n = publish_component_status now (
        put
          (robot_status (record {
            robot_id = p.robot_id;
            state =
                if n.task_state == "TRANSPORTING"
                then RobotStatusState.state_executing
                else RobotStatusState.state_idle;
            position_x = (known_pose n.nav_client).0;
            position_y = (known_pose n.nav_client).1;
            navigating = n.task_state == "TRANSPORTING";
            current_task_id = n.current_task_id;
            stamp = now;
          }))
          n)

    unfoldable pub step : ℕ → Event R → Node R → Node R
    unfolding on_map_info on_goal_response on_goal_status on_robot_pose publish_periodic_task_status
        publish_robot_status is_success
    step now (task_command cmd) n = handle_task_command p now cmd n
    step now (map_info ready zones stations) n = on_map_info ready zones stations n
    step now (edge_status online) n = record n { edge_online = online }
    step now (goal_response handle) n = on_goal_response handle n
    step now (goal_status status) n = on_goal_status status n
    step now (navigation_result code) n = on_navigation_result now (is_success code) n
    step now (robot_pose pose) n = on_robot_pose pose n
    step now (one_shot_timer index server_available) n = fire_timer d p index server_available now n
    step now task_status_timer n = publish_periodic_task_status now n
    step now robot_status_timer n = publish_robot_status now n

    -- Callbacks in order, each with its reading of the clock.
    unfoldable pub run_from : Node R → List (ℕ × Event R) → Node R
    run_from n [] = n
    run_from n ((now, e) ∷ rest) = run_from (step now e n) rest

    unfoldable pub run_node : List (ℕ × Event R) → Node R
    run_node events = run_from (init constructed) events
