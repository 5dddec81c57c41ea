-- ===== src/Amr/Navigation/Nav2/Starting.antt =====
-- A map becomes ready while Nav2 is stopped (handleMapInfo of
-- robot_ws/src/amr_navigation/src/navigation_server.cpp), and Nav2 is started.
use amr_warehouse_collaborat.Prelude.{
  ℕ, true, false, not, ◌&&◌, ◌||◌, ◌==◌, ◌≡◌, refl, ap, ◌∙◌, none, some, is_some, [], ◌∷◌, ◌++◌,
  if◌then◌else◌,
}
use amr_warehouse_collaborat.Amr.Behavior.State.{Doubles}
use amr_warehouse_collaborat.Amr.Navigation.State.{
  stopped, starting_process, waiting_for_localization, ready, InitialPose, NavigationServer,
}
use amr_warehouse_collaborat.Amr.Navigation.Process.{
  Conditions, NodeOptions, params_path, robot_namespace, is_stopped, is_failed, request_stop_nav2,
  fork_nav2, launch_nav2_process, start_nav2_lifecycle,
}
use amr_warehouse_collaborat.Amr.Navigation.Nav2.{
  MapInfo, is_localizing, initial_pose_message, publish_pose_of, publish_initial_pose_if_ready,
  localize, tick_in, handle_state_machine_tick, adopt_map, launch_when_stopped, drop_map,
  handle_map_info, map_told, ticked, nav2_step, nav2_run,
}

module _ {R H : Type 0} where
  abbrev pub with_map : MapInfo → NavigationServer R H → NavigationServer R H
  with_map info s = record s {
    map_ready = true;
    map_yaml = info.map_yaml;
    map_version = info.map_version;
  }

  pub adopt_unlaunched :
      (now_is : Conditions) (info : MapInfo) (s : NavigationServer R H)
      → s.nav2_pid ≡ none
      → adopt_map now_is info s ≡ with_map info s
  unfolding adopt_map
  adopt_unlaunched now_is info s h =
      ap
        (λ b. with_map info (
          if b && not (s.map_yaml == info.map_yaml && s.map_version == info.map_version)
          then request_stop_nav2 now_is.running s
          else s))
        (ap is_some h)

  pub launch_stopped :
      (d : Doubles R) (o : NodeOptions) (now_is : Conditions) (info : MapInfo)
      (s : NavigationServer R H)
      → s.nav2_state ≡ stopped
      → s.nav2_pid ≡ none
      → info.is_ready ≡ true
      → handle_map_info d o now_is (some info) s
        ≡ handle_state_machine_tick d now_is
            (record (launch_nav2_process o now_is info.map_yaml (with_map info s)) {
              nav2_state = starting_process;
            })
  unfolding handle_map_info launch_when_stopped is_stopped
  launch_stopped d o now_is info s halted absent given =
      let relaunch = λ (m : NavigationServer R H).
        handle_state_machine_tick d now_is (record (launch_nav2_process o now_is info.map_yaml m) {
          nav2_state = starting_process;
        }) in
      ap
        (λ b.
          if b
          then launch_when_stopped d o now_is info (adopt_map now_is info s)
          else drop_map now_is s)
        given
      ∙ ap (launch_when_stopped d o now_is info) (adopt_unlaunched now_is info s absent)
      ∙ ap
          (λ state.
            if is_stopped state || is_failed state
            then relaunch (with_map info s)
            else with_map info s)
          halted

  -- The node after the map was told: Nav2 was launched and waits for the initial pose.
  unfoldable pub launched :
      NodeOptions → Conditions → MapInfo → ℕ → NavigationServer R H → NavigationServer R H
  unfolding params_path robot_namespace
  launched o now_is info pid s = record (with_map info s) {
    nav2_pid = some pid;
    nav2_state = waiting_for_localization;
    launches =
        s.launches
        ++ record {
          map = info.map_yaml;
          params_file = if now_is.params_written then params_path o else o.params_file;
          use_sim_time = o.use_sim_time;
          namespace = robot_namespace o;
        }
          ∷ [];
  }

  launch_forked :
      (d : Doubles R) (o : NodeOptions) (now_is : Conditions) (info : MapInfo) (pid : ℕ)
      (s : NavigationServer R H)
      → s.nav2_pid ≡ none
      → now_is.fork_pid ≡ some pid
      → (now_is.nav_service && now_is.loc_service) ≡ true
      → handle_state_machine_tick d now_is
          (record (launch_nav2_process o now_is info.map_yaml (with_map info s)) {
            nav2_state = starting_process;
          })
        ≡ launched o now_is info pid s
  unfolding handle_state_machine_tick launch_nav2_process fork_nav2 launched tick_in
      start_nav2_lifecycle
  launch_forked d o now_is info pid s absent forked there = rw (absent, forked, there) refl

  localize_lem :
      (d : Doubles R) (now_is : Conditions) (pose : InitialPose R) (s : NavigationServer R H)
      → s.nav2_state ≡ waiting_for_localization
      → s.map_ready ≡ true
      → s.initial_pose ≡ some pose
      → s.initial_pose_published ≡ false
      → handle_state_machine_tick d now_is s ≡ record s {
        nav2_state = ready;
        initial_poses = s.initial_poses ++ initial_pose_message d pose ∷ [];
        initial_pose_published = true;
      }
  unfolding handle_state_machine_tick tick_in localize publish_initial_pose_if_ready is_localizing
      publish_pose_of
  localize_lem d now_is pose s waits mapped known unpublished =
      rw (mapped, waits, known, unpublished) refl

  -- A map becomes ready while Nav2 is stopped, and no initial pose was published since: when fork
  -- and both lifecycle services work and the initial pose is known, Nav2 is launched with the map,
  -- and at the next tick the initial pose has been published once and Nav2 is ready.
  pub nav2_becomes_ready :
      (d : Doubles R) (o : NodeOptions) (now_is later : Conditions) (info : MapInfo) (pid : ℕ)
      (pose : InitialPose R) (s : NavigationServer R H)
      → s.nav2_state ≡ stopped
      → s.nav2_pid ≡ none
      → info.is_ready ≡ true
      → now_is.fork_pid ≡ some pid
      → (now_is.nav_service && now_is.loc_service) ≡ true
      → s.initial_pose ≡ some pose
      → s.initial_pose_published ≡ false
      → nav2_run d o ((now_is, map_told (some info)) ∷ (later, ticked) ∷ []) s
        ≡ record (launched o now_is info pid s) {
          nav2_state = ready;
          initial_poses = s.initial_poses ++ initial_pose_message d pose ∷ [];
          initial_pose_published = true;
        }
  unfolding nav2_run nav2_step launched
  nav2_becomes_ready d o now_is later info pid pose s halted absent given forked there known
        unpublished =
      ap (handle_state_machine_tick d later) (
        launch_stopped d o now_is info s halted absent given
        ∙ launch_forked d o now_is info pid s absent forked there)
      ∙ localize_lem d later pose (launched o now_is info pid s) refl refl known unpublished
