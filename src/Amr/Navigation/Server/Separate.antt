-- ===== src/Amr/Navigation/Server/Separate.antt =====
-- The callbacks about the map and the processes of Nav2 leave the goals of the navigation server alone
-- (robot_ws/src/amr_navigation/src/navigation_server.cpp).
use amr_warehouse_collaborat.Prelude.{ℕ, String, Bool, false, ◌≡◌, Option, none, some, List, arith}
use amr_warehouse_collaborat.Amr.Behavior.State.{Doubles, GoalPose}
use amr_warehouse_collaborat.Amr.Navigation.Manager.{NavigationManager}
use amr_warehouse_collaborat.Amr.Navigation.State.{Ending, starting_process, NavigationServer}
use amr_warehouse_collaborat.Amr.Navigation.Process.{
  Conditions, NodeOptions, stop_process, stop_nav2_process, request_stop_nav2, fork_nav2,
  launch_nav2_process, start_nav2_lifecycle,
}
use amr_warehouse_collaborat.Amr.Navigation.Nav2.{
  MapInfo, publish_pose_of, publish_initial_pose_if_ready, on_initial_pose, localize, tick_in,
  handle_state_machine_tick, adopt_map, launch_when_stopped, drop_map, handle_map_info, Nav2Event,
  map_told, pose_told, ticked, nav2_step,
}

module _ {R H : Type 0} where
  abbrev pub goal_part :
      NavigationServer R H → NavigationManager (GoalPose R) H × Option ℕ × Bool × List (ℕ × Ending)
  goal_part s = (s.manager, s.active_goal, s.navigating, s.endings)

  request_stop-goal_part :
      (running : List Bool) (s : NavigationServer R H)
      → goal_part (request_stop_nav2 running s) ≡ goal_part s
  unfolding request_stop_nav2 stop_nav2_process stop_process
  request_stop-goal_part running s = ground arith

  launch-goal_part :
      (o : NodeOptions) (now_is : Conditions) (map_yaml : String) (s : NavigationServer R H)
      → goal_part (launch_nav2_process o now_is map_yaml s) ≡ goal_part s
  unfolding launch_nav2_process fork_nav2
  launch-goal_part o now_is map_yaml s = ground arith

  drop-goal_part :
      (now_is : Conditions) (s : NavigationServer R H) → goal_part (drop_map now_is s) ≡ goal_part s
  unfolding drop_map
  drop-goal_part now_is s =
      ground (arith, request_stop-goal_part now_is.running (record s { map_ready = false }))

  adopt-goal_part :
      (now_is : Conditions) (info : MapInfo) (s : NavigationServer R H)
      → goal_part (adopt_map now_is info s) ≡ goal_part s
  unfolding adopt_map
  adopt-goal_part now_is info s = ground (arith, request_stop-goal_part now_is.running s)

  module _ (d : Doubles R) where
    publish-goal_part :
        (s : NavigationServer R H) → goal_part (publish_initial_pose_if_ready d s) ≡ goal_part s
    unfolding publish_initial_pose_if_ready publish_pose_of
    publish-goal_part s = ground arith

    tick-goal_part :
        (now_is : Conditions) (s : NavigationServer R H)
        → goal_part (handle_state_machine_tick d now_is s) ≡ goal_part s
    unfolding handle_state_machine_tick tick_in localize start_nav2_lifecycle
    tick-goal_part now_is s = ground (arith, publish-goal_part s)

    launch_when_stopped-goal_part :
        (o : NodeOptions) (now_is : Conditions) (info : MapInfo) (s : NavigationServer R H)
        → goal_part (launch_when_stopped d o now_is info s) ≡ goal_part s
    unfolding launch_when_stopped
    launch_when_stopped-goal_part o now_is info s =
        let m = launch_nav2_process o now_is info.map_yaml s in
        ground (
          arith,
          tick-goal_part now_is (record m { nav2_state = starting_process }),
          launch-goal_part o now_is info.map_yaml s,
        )

    pub step-goal_part :
        (o : NodeOptions) (now_is : Conditions) (event : Nav2Event R) (s : NavigationServer R H)
        → goal_part (nav2_step d o now_is event s) ≡ goal_part s
    unfolding nav2_step handle_map_info on_initial_pose
    step-goal_part o now_is (map_told none) s = drop-goal_part now_is s
    step-goal_part o now_is (map_told (some info)) s = ground (
      arith,
      drop-goal_part now_is s,
      launch_when_stopped-goal_part o now_is info (adopt_map now_is info s),
      adopt-goal_part now_is info s,
    )
    step-goal_part o now_is (pose_told pose) s =
        publish-goal_part (record s { initial_pose = some pose })
    step-goal_part o now_is ticked s = tick-goal_part now_is s
