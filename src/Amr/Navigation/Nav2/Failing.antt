-- ===== src/Amr/Navigation/Nav2/Failing.antt =====
-- What becomes of the navigation server when fork fails (launchNav2Process of
-- robot_ws/src/amr_navigation/src/navigation_server.cpp).
use amr_warehouse_collaborat.Prelude.{
  Bool, true, false, ◌||◌, ◌≡◌, refl, ap, sym, subst, ◌∙◌, Option, none, some, List, [], ◌∷◌, all,
  arith, &&-eq_true, if◌then◌else◌,
}
use amr_warehouse_collaborat.Amr.Behavior.State.{Doubles}
use amr_warehouse_collaborat.Amr.Navigation.State.{
  stopped, starting_process, Launch, NavigationServer,
}
use amr_warehouse_collaborat.Amr.Navigation.Process.{
  Conditions, NodeOptions, is_stopped, is_failed, fork_nav2, launch_nav2_process,
  start_nav2_lifecycle,
}
use amr_warehouse_collaborat.Amr.Navigation.Nav2.{
  MapInfo, publish_pose_of, publish_initial_pose_if_ready, on_initial_pose, localize, tick_in,
  handle_state_machine_tick, adopt_map, launch_when_stopped, drop_map, handle_map_info, Nav2Event,
  map_told, pose_told, ticked, nav2_step, nav2_run,
}
use amr_warehouse_collaborat.Amr.Navigation.Nav2.Starting.{
  with_map, adopt_unlaunched, launch_stopped,
}

-- The message does not say that there is no map.
unfoldable pub has_map : Option MapInfo → Bool
has_map none = false
has_map (some info) = info.is_ready

unfoldable pub keeps_map : {R : Type 0} → Nav2Event R → Bool
unfolding has_map
keeps_map (map_told info) = has_map info
keeps_map (pose_told pose) = true
keeps_map ticked = true

module _ {R H : Type 0} where
  -- No process of Nav2 runs, none but those in the list was launched, and none will be launched by a map.
  pub record IsUnlaunched (launches : List Launch) (s : NavigationServer R H) : Type 0 where
    pub absent : s.nav2_pid ≡ none
    pub settled : (is_stopped s.nav2_state || is_failed s.nav2_state) ≡ false
    pub same : s.launches ≡ launches

  launch_settled :
      (d : Doubles R) (o : NodeOptions) (now_is : Conditions) (info : MapInfo)
      (m : NavigationServer R H)
      → (is_stopped m.nav2_state || is_failed m.nav2_state) ≡ false
      → launch_when_stopped d o now_is info m ≡ m
  unfolding launch_when_stopped
  launch_settled d o now_is info m h =
      ap
        (λ b.
          if b
          then handle_state_machine_tick d now_is
              (record (launch_nav2_process o now_is info.map_yaml m) {
                nav2_state = starting_process;
              })
          else m)
        h

  module _ (launches : List Launch) (d : Doubles R) where
    publish-IsUnlaunched :
        (s : NavigationServer R H)
        → IsUnlaunched launches s
        → IsUnlaunched launches (publish_initial_pose_if_ready d s)
    unfolding publish_initial_pose_if_ready publish_pose_of
    publish-IsUnlaunched s h = record {
      absent = ground (arith, h.absent);
      settled = ground (arith, h.settled);
      same = ground (arith, h.same);
    }

    tick-IsUnlaunched :
        (now_is : Conditions) (s : NavigationServer R H)
        → IsUnlaunched launches s
        → IsUnlaunched launches (handle_state_machine_tick d now_is s)
    unfolding handle_state_machine_tick tick_in localize start_nav2_lifecycle is_stopped is_failed
        publish_initial_pose_if_ready publish_pose_of
    tick-IsUnlaunched now_is s h = record {
      absent = ground (arith, h.absent);
      settled = ground (arith, h.settled);
      same = ground (arith, h.same);
    }

    map_info-IsUnlaunched :
        (o : NodeOptions) (now_is : Conditions) (info : Option MapInfo) (s : NavigationServer R H)
        → has_map info ≡ true
        → IsUnlaunched launches s
        → IsUnlaunched launches (handle_map_info d o now_is info s)
    unfolding has_map handle_map_info
    map_info-IsUnlaunched o now_is none s k h = absurd (ground (arith, k))
    map_info-IsUnlaunched o now_is (some info) s k h =
        let m = with_map info s in
        subst (IsUnlaunched launches)
          (sym (
            ap
              (λ b.
                if b
                then launch_when_stopped d o now_is info (adopt_map now_is info s)
                else drop_map now_is s)
              k
            ∙ ap (launch_when_stopped d o now_is info) (adopt_unlaunched now_is info s h.absent)
            ∙ launch_settled d o now_is info m h.settled))
          (record { absent = h.absent; settled = h.settled; same = h.same })

    run-IsUnlaunched :
        (o : NodeOptions) (events : List (Conditions × Nav2Event R)) (s : NavigationServer R H)
        → all (λ e. keeps_map e.1) events ≡ true
        → IsUnlaunched launches s
        → IsUnlaunched launches (nav2_run d o events s)
    unfolding nav2_run nav2_step on_initial_pose keeps_map
    run-IsUnlaunched o [] s k h = h
    run-IsUnlaunched o ((now_is, map_told info) ∷ rest) s k h =
        let (here, later) = &&-eq_true (has_map info) (all (λ e. keeps_map e.1) rest) k in
        run-IsUnlaunched o rest (handle_map_info d o now_is info s) later
          (map_info-IsUnlaunched o now_is info s here h)
    run-IsUnlaunched o ((now_is, pose_told pose) ∷ rest) s k h =
        run-IsUnlaunched o rest (on_initial_pose d pose s) k (
          publish-IsUnlaunched (record s { initial_pose = some pose })
            (record { absent = h.absent; settled = h.settled; same = h.same }))
    run-IsUnlaunched o ((now_is, ticked) ∷ rest) s k h =
        run-IsUnlaunched o rest (handle_state_machine_tick d now_is s) k
          (tick-IsUnlaunched now_is s h)

  launch_failed-IsUnlaunched :
      (d : Doubles R) (o : NodeOptions) (now_is : Conditions) (info : MapInfo)
      (s : NavigationServer R H)
      → s.nav2_state ≡ stopped
      → s.nav2_pid ≡ none
      → now_is.fork_pid ≡ none
      → info.is_ready ≡ true
      → IsUnlaunched s.launches (handle_map_info d o now_is (some info) s)
  unfolding launch_nav2_process fork_nav2 is_stopped is_failed
  launch_failed-IsUnlaunched d o now_is info s halted absent unforked given =
      subst (IsUnlaunched s.launches) (sym (launch_stopped d o now_is info s halted absent given)) (
        tick-IsUnlaunched s.launches d now_is
          (record (launch_nav2_process o now_is info.map_yaml (with_map info s)) {
            nav2_state = starting_process;
          })
          (record {
            absent = ground (arith, absent, unforked);
            settled = refl;
            same = ground (arith, absent, unforked);
          }))

  -- A map becomes ready while Nav2 is stopped, and fork fails: Nav2 is never launched again as long
  -- as no message says that there is no map, whichever maps are told, and no process of it runs.
  pub failed_launch_stays :
      (d : Doubles R) (o : NodeOptions) (now_is : Conditions) (info : MapInfo)
      (events : List (Conditions × Nav2Event R)) (s : NavigationServer R H)
      → s.nav2_state ≡ stopped
      → s.nav2_pid ≡ none
      → now_is.fork_pid ≡ none
      → info.is_ready ≡ true
      → all (λ e. keeps_map e.1) events ≡ true
      → let last = nav2_run d o ((now_is, map_told (some info)) ∷ events) s in
        (last.nav2_pid ≡ none) × (last.launches ≡ s.launches)
  unfolding nav2_run nav2_step
  failed_launch_stays d o now_is info events s halted absent unforked given kept =
      let h =
        run-IsUnlaunched s.launches d o events (handle_map_info d o now_is (some info) s) kept
          (launch_failed-IsUnlaunched d o now_is info s halted absent unforked given) in
      (h.absent, h.same)
