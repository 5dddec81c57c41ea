-- ===== src/Amr/Navigation/Nav2.antt =====
-- How the navigation server follows the map and localizes: handleMapInfo, handleStateMachineTick and
-- publishInitialPoseIfReady of robot_ws/src/amr_navigation/src/navigation_server.cpp.
pub mod Lifecycle
pub mod Starting
pub mod Failing
use amr_warehouse_collaborat.Prelude.{
  ℕ, zero, suc, ℤ, pos, negsuc, String, ◌==◌, is_blank, Bool, true, false, not, ◌&&◌, ◌||◌, Option,
  none, some, is_some, List, [], ◌∷◌, ◌++◌, if◌then◌else◌,
}
use amr_warehouse_collaborat.Amr.Messages.{ComponentState}
use amr_warehouse_collaborat.Amr.Behavior.State.{Doubles, GoalPose}
use amr_warehouse_collaborat.Amr.Navigation.State.{
  Nav2State, stopped, starting_process, starting_lifecycle, waiting_for_localization, ready,
  stopping, failed, InitialPose, NavigationServer,
}
use amr_warehouse_collaborat.Amr.Navigation.Process.{
  Conditions, NodeOptions, is_stopped, is_failed, request_stop_nav2, launch_nav2_process,
  start_nav2_lifecycle, publish_component_status,
}

pub record MapInfo : Type 0 where
  pub map_version : String
  pub map_yaml : String
  pub is_ready : Bool

-- The states in which publishInitialPoseIfReady publishes.
unfoldable pub is_localizing : Nav2State → Bool
is_localizing stopped = false
is_localizing starting_process = false
is_localizing starting_lifecycle = false
is_localizing waiting_for_localization = true
is_localizing ready = true
is_localizing stopping = false
is_localizing failed = false

-- The pose that is published: its position, and z and w of its orientation.
unfoldable pub initial_pose_message : {R : Type 0} → Doubles R → InitialPose R → GoalPose R
initial_pose_message d pose = record {
  x = pose.x;
  y = pose.y;
  z = d.sin (d.half pose.yaw);
  w = d.cos (d.half pose.yaw);
}

module _ {R H : Type 0} where
  -- The first part of handleMapInfo for a map that is ready: Nav2 is stopped when it runs with
  -- another map, and the map is stored.
  unfoldable pub adopt_map : Conditions → MapInfo → NavigationServer R H → NavigationServer R H
  unfolding request_stop_nav2
  adopt_map now_is info s =
      let same = s.map_yaml == info.map_yaml && s.map_version == info.map_version in
      record (if is_some s.nav2_pid && not same then request_stop_nav2 now_is.running s else s) {
        map_ready = true;
        map_yaml = info.map_yaml;
        map_version = info.map_version;
      }

  unfoldable pub drop_map : Conditions → NavigationServer R H → NavigationServer R H
  unfolding is_stopped request_stop_nav2
  drop_map now_is s =
      let lost = record s { map_ready = false } in
      if is_stopped s.nav2_state then lost else request_stop_nav2 now_is.running lost

module _ {R H : Type 0} (d : Doubles R) where
  unfoldable pub publish_pose_of :
      Option (InitialPose R) → NavigationServer R H → NavigationServer R H
  unfolding initial_pose_message
  publish_pose_of none s = s
  publish_pose_of (some pose) s = if s.initial_pose_published then s else record s {
    initial_poses = s.initial_poses ++ initial_pose_message d pose ∷ [];
    initial_pose_published = true;
  }

  unfoldable pub publish_initial_pose_if_ready : NavigationServer R H → NavigationServer R H
  unfolding is_localizing publish_pose_of
  publish_initial_pose_if_ready s =
      if is_localizing s.nav2_state then publish_pose_of s.initial_pose s else s

  unfoldable pub on_initial_pose : InitialPose R → NavigationServer R H → NavigationServer R H
  unfolding publish_initial_pose_if_ready
  on_initial_pose pose s = publish_initial_pose_if_ready (record s { initial_pose = some pose })

  -- The case WAITING_FOR_LOCALIZATION of the state machine.
  unfoldable pub localize : NavigationServer R H → NavigationServer R H
  unfolding publish_initial_pose_if_ready
  localize s =
      let told = publish_initial_pose_if_ready s in
      if told.initial_pose_published then record told { nav2_state = ready } else told

  unfoldable pub tick_in : Nav2State → Conditions → NavigationServer R H → NavigationServer R H
  unfolding start_nav2_lifecycle localize
  tick_in stopped now_is s = s
  tick_in starting_process now_is s = start_nav2_lifecycle now_is s
  tick_in starting_lifecycle now_is s = start_nav2_lifecycle now_is s
  tick_in waiting_for_localization now_is s = localize s
  tick_in ready now_is s = s
  tick_in stopping now_is s = s
  tick_in failed now_is s = s

  unfoldable pub handle_state_machine_tick :
      Conditions → NavigationServer R H → NavigationServer R H
  unfolding tick_in
  handle_state_machine_tick now_is s = if s.map_ready then tick_in s.nav2_state now_is s else s

  -- The last part of handleMapInfo.
  unfoldable pub launch_when_stopped :
      NodeOptions → Conditions → MapInfo → NavigationServer R H → NavigationServer R H
  unfolding is_stopped is_failed launch_nav2_process handle_state_machine_tick
  launch_when_stopped o now_is info s =
      if is_stopped s.nav2_state || is_failed s.nav2_state
      then handle_state_machine_tick now_is
          (record (launch_nav2_process o now_is info.map_yaml s) { nav2_state = starting_process })
      else s

  -- `none` is a null message.
  unfoldable pub handle_map_info :
      NodeOptions → Conditions → Option MapInfo → NavigationServer R H → NavigationServer R H
  unfolding drop_map launch_when_stopped adopt_map
  handle_map_info o now_is none s = drop_map now_is s
  handle_map_info o now_is (some info) s =
      if info.is_ready
      then launch_when_stopped o now_is info (adopt_map now_is info s)
      else drop_map now_is s

-- The callbacks that change the map, the pose or the processes.
pub data Nav2Event (R : Type 0) : Type 0 where
  map_told : Option MapInfo → Nav2Event R
  pose_told : InitialPose R → Nav2Event R
  ticked : Nav2Event R

module _ {R H : Type 0} (d : Doubles R) (o : NodeOptions) where
  unfoldable pub nav2_step : Conditions → Nav2Event R → NavigationServer R H → NavigationServer R H
  unfolding handle_map_info on_initial_pose handle_state_machine_tick
  nav2_step now_is (map_told info) s = handle_map_info d o now_is info s
  nav2_step now_is (pose_told pose) s = on_initial_pose d pose s
  nav2_step now_is ticked s = handle_state_machine_tick d now_is s

  unfoldable pub nav2_run :
      List (Conditions × Nav2Event R) → NavigationServer R H → NavigationServer R H
  unfolding nav2_step
  nav2_run [] s = s
  nav2_run ((now_is, event) ∷ rest) s = nav2_run rest (nav2_step now_is event s)
