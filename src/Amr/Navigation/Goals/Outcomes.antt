-- ===== src/Amr/Navigation/Goals/Outcomes.antt =====
-- How the goals of the navigation server end (`execute` of
-- robot_ws/src/amr_navigation/src/navigation_server.cpp).
use amr_warehouse_collaborat.Prelude.{
  inl, inr, ◌⊎◌, not, Bool, ℕ, true, false, ◌≡◌, refl, Option, none, some, [], ◌∷◌, ◌++◌,
}
use amr_warehouse_collaborat.Amr.Behavior.State.{
  GoalPose, ResultCode, result_succeeded, result_canceled, result_aborted, result_unknown,
}
use amr_warehouse_collaborat.Amr.Navigation.Manager.{
  idle, navigating, is_busy, state_of_result, navigate_to_pose, goal_response_callback,
  result_callback, cancel_navigation, cancel_goal_of,
}
use amr_warehouse_collaborat.Amr.Navigation.State.{cancels, aborts, NavigationServer}
use amr_warehouse_collaborat.Amr.Navigation.Goals.{
  waiting_for_old, Point, finish_goal, crashed, registering, waiting, finished, ending_of,
  goal_answered, result_arrives, on_navigation_result, end_goal, after_response, start_execution,
  retry_execution, register_goal, finish_execution,
}

-- The result is canceled, and no client has canceled the goal.
unfoldable pub throws : (is_canceling : Bool) → ResultCode → Bool
throws is_canceling result_succeeded = false
throws is_canceling result_canceled = not is_canceling
throws is_canceling result_aborted = false
throws is_canceling result_unknown = false

module _ {R H : Type 0} where
  -- A thread has ended its goal once, as the result says, or its exception has ended the process.
  abbrev pub Ends :
      Bool → ℕ → ResultCode → NavigationServer R H → Point × NavigationServer R H → Type 0
  Ends is_canceling goal code s after =
      ((throws is_canceling code ≡ false)
        × (after.0 ≡ finished)
        × (after.1.endings ≡ s.endings ++ (goal, ending_of (state_of_result code)) ∷ [])
        × (after.1.terminated ≡ s.terminated))
      ⊎ ((throws is_canceling code ≡ true)
          × (after.0 ≡ crashed)
          × (after.1.endings ≡ s.endings)
          × (after.1.terminated ≡ true))

  finish_told :
      (is_canceling : Bool) (goal : ℕ) (code : ResultCode) (s : NavigationServer R H)
      → Ends is_canceling goal code s
          (finish_goal is_canceling goal (ending_of (state_of_result code)) s)
  unfolding finish_goal end_goal ending_of state_of_result throws
  finish_told is_canceling goal result_succeeded s = inl (refl, refl, refl, refl)
  finish_told true goal result_canceled s = inl (refl, refl, refl, refl)
  finish_told false goal result_canceled s = inr (refl, refl, refl, refl)
  finish_told is_canceling goal result_aborted s = inl (refl, refl, refl, refl)
  finish_told is_canceling goal result_unknown s = inl (refl, refl, refl, refl)

module _ {R H : Type 0} (goal : ℕ) (pose : GoalPose R) (is_canceling : Bool) where
  -- The server when the goal is registered, after a request that the manager accepted.
  abbrev registered : NavigationServer R H → NavigationServer R H
  registered s = register_goal goal (start_execution false true goal pose s).1

  -- When Nav2 rejects the goal, or ends it at once, before the thread has registered it, the result
  -- is lost: the thread waits, although the manager is idle, until it aborts the goal for a
  -- timeout, and the server says that it is navigating even then.
  pub early_result_lost :
      (s : NavigationServer R H) (answer : Option H) (code : ResultCode)
      → is_busy s.manager.state ≡ false
      → let sent = (start_execution false true goal pose s).1 in
        let missed = λ (early : NavigationServer R H).
          (finish_execution is_canceling false goal (register_goal goal early)
            ≡ (waiting, register_goal goal early))
          × ((finish_execution is_canceling true goal (register_goal goal early)).1.endings
              ≡ s.endings ++ (goal, aborts "navigation result timeout") ∷ [])
          × ((finish_execution is_canceling true goal (register_goal goal early)).1.manager.state
              ≡ idle)
          × ((finish_execution is_canceling true goal (register_goal goal early)).1.navigating
              ≡ true) in
        missed (goal_answered none sent) × missed (result_arrives code (goal_answered answer sent))
  unfolding start_execution navigate_to_pose register_goal finish_execution goal_answered
      result_arrives on_navigation_result end_goal after_response goal_response_callback
      result_callback
  early_result_lost s none code free = rw free ((refl, refl, refl, refl), (refl, refl, refl, refl))
  early_result_lost s (some handle) code free =
      rw free ((refl, refl, refl, refl), (refl, refl, refl, refl))

  -- A goal arrives while the manager navigates to the goal of another thread that waits. The manager
  -- is asked to cancel, and the navigation ends as canceled. When the thread of the new goal then
  -- runs first, sends its goal and registers it, the other thread goes on waiting, and ends its own
  -- goal with the result of the new one: as succeeded, when the new goal is reached. Only a canceled
  -- result for an other goal that no client has canceled ends the process instead.
  pub superseded_takes_result :
      (other : ℕ) (s : NavigationServer R H) (old new : H) (code : ResultCode)
      → s.manager.state ≡ navigating
      → s.manager.goal_handle ≡ some old
      → let asked = start_execution false true goal pose s in
        let retried = retry_execution true goal pose (result_arrives result_canceled asked.1) in
        let moved = register_goal goal retried.1 in
        let ended = result_arrives code (goal_answered (some new) moved) in
        (asked.0 ≡ waiting_for_old)
        × (asked.1.manager.cancels ≡ s.manager.cancels ++ old ∷ [])
        × (retried.0 ≡ registering)
        × (finish_execution is_canceling false other moved ≡ (waiting, moved))
        × Ends is_canceling other code s (finish_execution is_canceling false other ended)
  unfolding start_execution retry_execution navigate_to_pose is_busy cancel_navigation
      cancel_goal_of register_goal finish_execution goal_answered result_arrives
      on_navigation_result end_goal after_response goal_response_callback result_callback ending_of
  superseded_takes_result other s old new code moving held =
      rw (moving, held) (refl, refl, refl, refl, finish_told is_canceling other code _)

module _ {R H : Type 0} (goal : ℕ) (pose : GoalPose R) where
  -- A goal arrives while the manager navigates to the goal of another thread that waits. The manager
  -- is asked to cancel, and the navigation ends as canceled. When it is the other thread that runs
  -- first, and no client has canceled its goal, it ends nothing: it calls canceled for a goal that
  -- is executing, and the exception ends the process.
  pub superseded_ends_process :
      (other : ℕ) (s : NavigationServer R H) (old : H)
      → s.manager.state ≡ navigating
      → s.manager.goal_handle ≡ some old
      → let asked = start_execution false true goal pose s in
        let ended = finish_execution false false other (result_arrives result_canceled asked.1) in
        (asked.0 ≡ waiting_for_old)
        × (asked.1.manager.cancels ≡ s.manager.cancels ++ old ∷ [])
        × (ended.0 ≡ crashed)
        × (ended.1.terminated ≡ true)
        × (ended.1.endings ≡ s.endings)
  unfolding start_execution navigate_to_pose is_busy cancel_navigation cancel_goal_of
      finish_execution finish_goal result_arrives on_navigation_result result_callback ending_of
      state_of_result
  superseded_ends_process other s old moving held = rw (moving, held) (refl, refl, refl, refl, refl)
