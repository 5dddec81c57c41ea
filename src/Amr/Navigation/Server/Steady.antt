-- ===== src/Amr/Navigation/Server/Steady.antt =====
-- What holds of the navigation server between its callbacks and threads
-- (robot_ws/src/amr_navigation/src/navigation_server.cpp).
use amr_warehouse_collaborat.Prelude.{
  ℕ, zero, suc, Bool, true, false, not, ◌&&◌, ◌||◌, ◌≡◌, refl, ap, sym, subst, ◌∙◌, none, some,
  is_some, List, [], ◌∷◌, arith, Option, Bool-cases, inl, inr, if◌then◌else◌,
}
use amr_warehouse_collaborat.Amr.Behavior.State.{Doubles, GoalPose}
use amr_warehouse_collaborat.Amr.Navigation.Manager.{
  NavigationExecutionState, NavigationManager, NavigationResponse, is_busy, navigate_to_pose,
  goal_response_callback, result_callback, cancel_navigation,
}
use amr_warehouse_collaborat.Amr.Navigation.Manager.Activity.{
  is_consistent, navigate-IsConsistent, cancel-IsConsistent,
}
use amr_warehouse_collaborat.Amr.Navigation.State.{
  Ending, succeeds, cancels, aborts, NavigationServer, new_server,
}
use amr_warehouse_collaborat.Amr.Navigation.Process.{
  Conditions, NodeOptions, publish_component_status,
}
use amr_warehouse_collaborat.Amr.Navigation.Nav2.{Nav2Event, nav2_step}
use amr_warehouse_collaborat.Amr.Navigation.Nav2.Lifecycle.{is_sound, sound_in, step-is_sound}
use amr_warehouse_collaborat.Amr.Navigation.Goals.{
  Point, starting, waiting_for_old, registering, waiting, finished, Execution, feed_back,
  on_navigation_feedback, handle_cancel, end_goal, after_response, start_execution, retry_execution,
  finish_execution, execute, announcing, crashed, finish_goal, activate_goal, announce_goal,
  store_result, begin_result, answer_arrives, end_arrives,
}
use amr_warehouse_collaborat.Amr.Navigation.Server.{
  System, new_system, Event, goal_requested, thread_runs, cancel_requested, nav2_answers, nav2_ends,
  nav2_feeds_back, nav2_event, pose_timer, accept_goal, run_thread, take, step, run, result_stored,
  in_callback,
}
use amr_warehouse_collaborat.Amr.Navigation.Server.Separate.{step-goal_part}

module _ {R H : Type 0} where
  -- The manager has a handle exactly when it navigates or cancels, and Nav2 is stopped, starting or
  -- ready as the map and the initial pose say.
  pub record IsSteady (s : NavigationServer R H) : Type 0 where
    pub consistent : is_consistent s.manager.state s.manager.goal_handle ≡ true
    pub sound : is_sound s ≡ true

  if-IsSteady :
      (b : Bool) (x y : Point × NavigationServer R H)
      → IsSteady x.1
      → IsSteady y.1
      → IsSteady (if b then x else y).1
  if-IsSteady true x y h k = h
  if-IsSteady false x y h k = k

  end_goal-IsSteady :
      (goal : ℕ) (ending : Ending) (s : NavigationServer R H)
      → IsSteady s
      → IsSteady (end_goal goal ending s).1
  unfolding end_goal is_sound
  end_goal-IsSteady goal ending s h = record { consistent = h.consistent; sound = h.sound }

  finish_goal-IsSteady :
      (is_canceling : Bool) (goal : ℕ) (ending : Ending) (s : NavigationServer R H)
      → IsSteady s
      → IsSteady (finish_goal is_canceling goal ending s).1
  unfolding finish_goal is_sound
  finish_goal-IsSteady is_canceling goal (succeeds message) s h =
      end_goal-IsSteady goal (succeeds message) s h
  finish_goal-IsSteady is_canceling goal (cancels message) s h =
      if-IsSteady is_canceling _ (crashed, record s { terminated = true })
        (end_goal-IsSteady goal (cancels message) s h)
        (record { consistent = h.consistent; sound = h.sound })
  finish_goal-IsSteady is_canceling goal (aborts message) s h =
      end_goal-IsSteady goal (aborts message) s h

  respond-IsSteady :
      (goal : ℕ) (response : NavigationResponse) (s : NavigationServer R H)
      → IsSteady s
      → IsSteady (after_response goal response s).1
  unfolding after_response
  respond-IsSteady goal response s h =
      if-IsSteady response.accepted (registering, s) _ h (end_goal-IsSteady goal _ s h)

  with_manager-IsSteady :
      (m : NavigationManager (GoalPose R) H) (s : NavigationServer R H)
      → is_consistent m.state m.goal_handle ≡ true
      → IsSteady s
      → IsSteady (record s { manager = m })
  unfolding is_sound
  with_manager-IsSteady m s k h = record { consistent = k; sound = h.sound }

  retry-IsSteady :
      (available : Bool) (goal : ℕ) (pose : GoalPose R) (s : NavigationServer R H)
      → IsSteady s
      → IsSteady (retry_execution available goal pose s).1
  unfolding retry_execution
  retry-IsSteady available goal pose s h =
      let (response, m) = navigate_to_pose available pose s.manager in
      respond-IsSteady goal response (record s { manager = m })
        (with_manager-IsSteady m s (navigate-IsConsistent available pose s.manager h.consistent) h)

  start-IsSteady :
      (is_canceling available : Bool) (goal : ℕ) (pose : GoalPose R) (s : NavigationServer R H)
      → IsSteady s
      → IsSteady (start_execution is_canceling available goal pose s).1
  unfolding start_execution
  start-IsSteady is_canceling available goal pose s h =
      let (response, m) = navigate_to_pose available pose s.manager in
      let kept = navigate-IsConsistent available pose s.manager h.consistent in
      if-IsSteady is_canceling _ _ (end_goal-IsSteady goal _ s h) (
        if-IsSteady (not response.accepted && is_busy response.state) _ _
          (with_manager-IsSteady (cancel_navigation m) s (cancel-IsConsistent m kept) h)
          (respond-IsSteady goal response (record s { manager = m })
            (with_manager-IsSteady m s kept h)))

  finish-IsSteady :
      (is_canceling timed_out : Bool) (goal : ℕ) (s : NavigationServer R H)
      → IsSteady s
      → IsSteady (finish_execution is_canceling timed_out goal s).1
  unfolding finish_execution
  finish-IsSteady is_canceling timed_out goal s h =
      if-IsSteady s.result_ready _ _ (finish_goal-IsSteady is_canceling goal _ s h)
        (if-IsSteady timed_out _ _ (end_goal-IsSteady goal _ s h) h)

  execute-IsSteady :
      (is_canceling available timed_out : Bool) (goal : ℕ) (pose : GoalPose R) (point : Point)
      (s : NavigationServer R H)
      → IsSteady s
      → IsSteady (execute is_canceling available timed_out goal pose point s).1
  unfolding execute activate_goal announce_goal is_sound
  execute-IsSteady is_canceling available timed_out goal pose starting s h =
      start-IsSteady is_canceling available goal pose s h
  execute-IsSteady is_canceling available timed_out goal pose waiting_for_old s h =
      if-IsSteady (s.result_ready || timed_out) _ _ (retry-IsSteady available goal pose s h) h
  execute-IsSteady is_canceling available timed_out goal pose registering s h = record {
    consistent = h.consistent;
    sound = h.sound;
  }
  execute-IsSteady is_canceling available timed_out goal pose announcing s h = record {
    consistent = h.consistent;
    sound = h.sound;
  }
  execute-IsSteady is_canceling available timed_out goal pose waiting s h =
      finish-IsSteady is_canceling timed_out goal s h
  execute-IsSteady is_canceling available timed_out goal pose finished s h = h
  execute-IsSteady is_canceling available timed_out goal pose crashed s h = h

  run_thread-IsSteady :
      (i goal : ℕ) (is_canceling available timed_out : Bool) (xs : List (Execution R))
      (s : NavigationServer R H)
      → IsSteady s
      → IsSteady (run_thread i is_canceling available timed_out goal xs s).server
  unfolding run_thread
  run_thread-IsSteady i goal is_canceling available timed_out [] s h = h
  run_thread-IsSteady zero goal is_canceling available timed_out (x ∷ xs) s h =
      execute-IsSteady is_canceling available timed_out goal x.pose x.point s h
  run_thread-IsSteady (suc i) goal is_canceling available timed_out (x ∷ xs) s h =
      run_thread-IsSteady i (suc goal) is_canceling available timed_out xs s h

  nav2-IsSteady :
      (d : Doubles R) (o : NodeOptions) (now_is : Conditions) (event : Nav2Event R)
      (s : NavigationServer R H)
      → IsSteady s
      → IsSteady (nav2_step d o now_is event s)
  nav2-IsSteady d o now_is event s h =
      let same = step-goal_part d o now_is event s in
      record {
        consistent =
            ap (λ goals. is_consistent goals.0.state goals.0.goal_handle) same ∙ h.consistent;
        sound = step-is_sound d o now_is event s h.sound;
      }

  accept-server : (pose : GoalPose R) (t : System R H) → (accept_goal pose t).server ≡ t.server
  unfolding accept_goal
  accept-server pose t = ground arith

  feedback-IsSteady : (s : NavigationServer R H) → IsSteady s → IsSteady (on_navigation_feedback s)
  unfolding on_navigation_feedback feed_back is_sound
  feedback-IsSteady s h = record {
    consistent = ground (arith, h.consistent);
    sound = ground (arith, h.sound);
  }

  store_result-IsSteady :
      (told : Option NavigationExecutionState) (s : NavigationServer R H)
      → IsSteady s
      → IsSteady (store_result told s)
  unfolding store_result is_sound
  store_result-IsSteady none s h = h
  store_result-IsSteady (some state) s h = record { consistent = h.consistent; sound = h.sound }

  take-IsSteady :
      (d : Doubles R) (o : NodeOptions) (event : Event R H) (t : System R H)
      → IsSteady t.server
      → IsSteady (take d o event t).server
  unfolding take handle_cancel answer_arrives begin_result end_arrives goal_response_callback
      result_callback publish_component_status is_consistent is_sound
  take-IsSteady d o (goal_requested pose) t h = subst IsSteady (sym (accept-server pose t)) h
  take-IsSteady d o (thread_runs goal is_canceling available timed_out) t h =
      run_thread-IsSteady goal 0 is_canceling available timed_out t.executions t.server h
  take-IsSteady d o cancel_requested t h =
      with_manager-IsSteady (cancel_navigation t.server.manager) t.server
        (cancel-IsConsistent t.server.manager h.consistent) h
  take-IsSteady d o (nav2_answers none) t h = record { consistent = refl; sound = h.sound }
  take-IsSteady d o (nav2_answers (some handle)) t h = record { consistent = refl; sound = h.sound }
  take-IsSteady d o (nav2_ends code) t h = record { consistent = refl; sound = h.sound }
  take-IsSteady d o result_stored t h = store_result-IsSteady t.server.telling t.server h
  take-IsSteady d o nav2_feeds_back t h = feedback-IsSteady t.server h
  take-IsSteady d o (nav2_event now_is event) t h = nav2-IsSteady d o now_is event t.server h
  take-IsSteady d o pose_timer t h = record { consistent = h.consistent; sound = h.sound }

  step-IsSteady :
      (d : Doubles R) (o : NodeOptions) (event : Event R H) (t : System R H)
      → IsSteady t.server
      → IsSteady (step d o event t).server
  unfolding step
  step-IsSteady d o event t h =
      elim (Bool-cases
        (not t.server.terminated && (not (is_some t.server.telling) || in_callback event))) [
          | inl acts ↦ rw acts (take-IsSteady d o event t h)
          | inr rests ↦ rw rests h
        ]

  run-IsSteady :
      (d : Doubles R) (o : NodeOptions) (events : List (Event R H)) (t : System R H)
      → IsSteady t.server
      → IsSteady (run d o events t).server
  unfolding run
  run-IsSteady d o [] t h = h
  run-IsSteady d o (event ∷ events) t h =
      run-IsSteady d o events (step d o event t) (step-IsSteady d o event t h)

  new-IsSteady : IsSteady new_server
  unfolding is_sound sound_in is_consistent
  new-IsSteady = record { consistent = refl; sound = refl }

  pub server-IsSteady :
      (d : Doubles R) (o : NodeOptions) (events : List (Event R H))
      → IsSteady (run d o events new_system).server
  server-IsSteady d o events = run-IsSteady d o events new_system new-IsSteady
