-- ===== src/Amr/Navigation/Nav2/Lifecycle.antt =====
-- What holds between the callbacks that start and stop Nav2
-- (robot_ws/src/amr_navigation/src/navigation_server.cpp).
use amr_warehouse_collaborat.Prelude.{
  ℕ, String, Bool, true, false, not, ◌&&◌, ◌||◌, ◌≡◌, ◌≢◌, refl, Option, none, some, is_some, List,
  [], ◌∷◌, arith,
}
use amr_warehouse_collaborat.Amr.Messages.{state_error}
use amr_warehouse_collaborat.Amr.Behavior.State.{Doubles}
use amr_warehouse_collaborat.Amr.Navigation.State.{
  Nav2State, stopped, starting_process, starting_lifecycle, waiting_for_localization, ready,
  stopping, failed, NavigationServer, new_server,
}
use amr_warehouse_collaborat.Amr.Navigation.Process.{
  Conditions, NodeOptions, is_stopped, is_stopping, is_failed, stop_process, stop_nav2_process,
  request_stop_nav2, fork_nav2, launch_nav2_process, start_nav2_lifecycle, component_state,
}
use amr_warehouse_collaborat.Amr.Navigation.Nav2.{
  MapInfo, is_localizing, publish_pose_of, publish_initial_pose_if_ready, on_initial_pose, localize,
  tick_in, handle_state_machine_tick, adopt_map, launch_when_stopped, drop_map, handle_map_info,
  Nav2Event, map_told, pose_told, ticked, nav2_step, nav2_run,
}

-- Nav2 is stopped exactly when there is no map, and then no process is known; it is ready only
-- after the initial pose was published; and it is never left stopping or failed.
unfoldable pub sound_in : Nav2State → Bool → Option ℕ → Bool → Bool
sound_in stopped map_ready pid published = not map_ready && not (is_some pid)
sound_in starting_process map_ready pid published = map_ready
sound_in starting_lifecycle map_ready pid published = map_ready
sound_in waiting_for_localization map_ready pid published = map_ready
sound_in ready map_ready pid published = map_ready && published
sound_in stopping map_ready pid published = false
sound_in failed map_ready pid published = false

module _ {R H : Type 0} where
  unfoldable pub is_sound : NavigationServer R H → Bool
  unfolding sound_in
  is_sound s = sound_in s.nav2_state s.map_ready s.nav2_pid s.initial_pose_published

  request_stop-state :
      (running : List Bool) (s : NavigationServer R H)
      → is_stopping s.nav2_state ≡ false
      → (request_stop_nav2 running s).nav2_state ≡ stopped
  unfolding request_stop_nav2 is_stopping is_stopped
  request_stop-state running s h = ground arith

  request_stop-pid :
      (running : List Bool) (s : NavigationServer R H)
      → (is_stopping s.nav2_state || is_stopped s.nav2_state) ≡ false
      → (request_stop_nav2 running s).nav2_pid ≡ none
  unfolding request_stop_nav2 stop_nav2_process stop_process
  request_stop-pid running s h = ground arith

  request_stop-map :
      (running : List Bool) (s : NavigationServer R H)
      → (request_stop_nav2 running s).map_ready ≡ s.map_ready
  unfolding request_stop_nav2 stop_nav2_process stop_process
  request_stop-map running s = ground arith

  drop-is_sound :
      (now_is : Conditions) (s : NavigationServer R H)
      → is_sound s ≡ true
      → is_sound (drop_map now_is s) ≡ true
  unfolding drop_map request_stop_nav2 stop_nav2_process stop_process is_sound sound_in is_stopped
      is_stopping
  drop-is_sound now_is s h = ground arith

  start-is_sound :
      (now_is : Conditions) (s : NavigationServer R H)
      → s.map_ready ≡ true
      → is_sound (start_nav2_lifecycle now_is s) ≡ true
  unfolding start_nav2_lifecycle is_sound sound_in
  start-is_sound now_is s h = ground arith

  module _ (d : Doubles R) where
    publish-is_sound :
        (s : NavigationServer R H)
        → is_sound s ≡ true
        → is_sound (publish_initial_pose_if_ready d s) ≡ true
    unfolding publish_initial_pose_if_ready publish_pose_of is_sound sound_in is_localizing
    publish-is_sound s h = ground arith

    tick-is_sound :
        (now_is : Conditions) (s : NavigationServer R H)
        → is_sound s ≡ true
        → is_sound (handle_state_machine_tick d now_is s) ≡ true
    unfolding handle_state_machine_tick tick_in localize publish_initial_pose_if_ready
        publish_pose_of is_sound sound_in is_localizing start_nav2_lifecycle
    tick-is_sound now_is s h = ground arith

    launch-map :
        (o : NodeOptions) (now_is : Conditions) (map_yaml : String) (s : NavigationServer R H)
        → (launch_nav2_process o now_is map_yaml s).map_ready ≡ s.map_ready
    unfolding launch_nav2_process fork_nav2
    launch-map o now_is map_yaml s = ground arith

    launch_when_stopped-is_sound :
        (o : NodeOptions) (now_is : Conditions) (info : MapInfo) (s : NavigationServer R H)
        → s.map_ready ≡ true
        → (is_stopped s.nav2_state || is_sound s) ≡ true
        → is_sound (launch_when_stopped d o now_is info s) ≡ true
    unfolding launch_when_stopped is_sound sound_in is_failed is_stopped
    launch_when_stopped-is_sound o now_is info s h k =
        let m = record (launch_nav2_process o now_is info.map_yaml s) {
          nav2_state = starting_process;
        } in
        ground (arith, tick-is_sound now_is m, launch-map o now_is info.map_yaml s)

    adopt-is_sound :
        (now_is : Conditions) (info : MapInfo) (s : NavigationServer R H)
        → is_sound s ≡ true
        → (is_stopped (adopt_map now_is info s).nav2_state || is_sound (adopt_map now_is info s))
          ≡ true
    unfolding adopt_map request_stop_nav2 is_sound sound_in is_stopped is_stopping stop_nav2_process
        stop_process
    adopt-is_sound now_is info s h = ground arith

    map_info-is_sound :
        (o : NodeOptions) (now_is : Conditions) (info : Option MapInfo) (s : NavigationServer R H)
        → is_sound s ≡ true
        → is_sound (handle_map_info d o now_is info s) ≡ true
    unfolding handle_map_info adopt_map
    map_info-is_sound o now_is none s h = drop-is_sound now_is s h
    map_info-is_sound o now_is (some info) s h = ground (
      arith,
      drop-is_sound now_is s h,
      launch_when_stopped-is_sound o now_is info (adopt_map now_is info s),
      adopt-is_sound now_is info s h,
    )

    pub step-is_sound :
        (o : NodeOptions) (now_is : Conditions) (event : Nav2Event R) (s : NavigationServer R H)
        → is_sound s ≡ true
        → is_sound (nav2_step d o now_is event s) ≡ true
    unfolding nav2_step on_initial_pose is_sound
    step-is_sound o now_is (map_told info) s h = map_info-is_sound o now_is info s h
    step-is_sound o now_is (pose_told pose) s h =
        publish-is_sound (record s { initial_pose = some pose }) h
    step-is_sound o now_is ticked s h = tick-is_sound now_is s h

    run-is_sound :
        (o : NodeOptions) (events : List (Conditions × Nav2Event R)) (s : NavigationServer R H)
        → is_sound s ≡ true
        → is_sound (nav2_run d o events s) ≡ true
    unfolding nav2_run
    run-is_sound o [] s h = h
    run-is_sound o ((now_is, event) ∷ rest) s h =
        run-is_sound o rest (nav2_step d o now_is event s) (step-is_sound o now_is event s h)

  sound-NoError : (s : NavigationServer R H) → is_sound s ≡ true → component_state s ≢ state_error
  unfolding is_sound sound_in component_state is_failed
  sound-NoError s h e = grind (arith)

-- In any history of callbacks, whatever the operating system and Nav2 do, Nav2 is stopped exactly
-- when no map is ready, and then no process of it is known; it is ready only after the initial
-- pose was published; it is never left stopping or failed; and so the state ERROR is never
-- published, also when fork fails.
pub nav2_lifecycle :
    {R : Type 0} (H : Type 0) (d : Doubles R) (o : NodeOptions)
    (events : List (Conditions × Nav2Event R))
    → let s = nav2_run {R = R} {H = H} d o events new_server in
      (is_sound s ≡ true) × (component_state s ≢ state_error)
unfolding is_sound sound_in
nav2_lifecycle H d o events =
    let sound = run-is_sound d o events new_server refl in
    (sound, sound-NoError (nav2_run d o events new_server) sound)
