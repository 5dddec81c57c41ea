-- ===== src/Amr/Navigation/Server.antt =====
-- All callbacks and threads of the navigation server as the steps of one machine
-- (robot_ws/src/amr_navigation/src/navigation_server.cpp). rclcpp::spin runs one callback at a time,
-- in any order, and the threads of the goals run between them, also between the two steps of
-- onNavigationResult. An exception in a thread ends all of it.

pub mod Separate
pub mod EndedOnce
pub mod Steady
pub mod Canceling
use amr_warehouse_collaborat.Prelude.{
  ℕ, zero, suc, Bool, true, false, not, ◌&&◌, ◌||◌, is_some, Option, none, some, List, [], ◌∷◌,
  ◌++◌, if◌then◌else◌,
}
use amr_warehouse_collaborat.Amr.Behavior.State.{Doubles, GoalPose, ResultCode}
use amr_warehouse_collaborat.Amr.Navigation.State.{NavigationServer, new_server}
use amr_warehouse_collaborat.Amr.Navigation.Process.{
  Conditions, NodeOptions, publish_component_status,
}
use amr_warehouse_collaborat.Amr.Navigation.Nav2.{Nav2Event, nav2_step}
use amr_warehouse_collaborat.Amr.Navigation.Goals.{
  Point, starting, Execution, answer_arrives, end_arrives, store_result, on_navigation_feedback,
  handle_goal, handle_cancel, execute,
}

-- The node and the threads of the goals that were accepted; a goal is the index of its thread.
pub record System (R H : Type 0) : Type 0 where
  pub server : NavigationServer R H
  pub executions : List (Execution R)

abbrev pub new_system : {R H : Type 0} → System R H
new_system = record { server = new_server; executions = [] }

pub data Event (R H : Type 0) : Type 0 where
  goal_requested : GoalPose R → Event R H
  thread_runs : (goal : ℕ) (is_canceling available timed_out : Bool) → Event R H
  cancel_requested : Event R H
  nav2_answers : Option H → Event R H
  nav2_ends : ResultCode → Event R H
  -- The locked block of onNavigationResult, which a callback has begun.
  result_stored : Event R H
  nav2_feeds_back : Event R H
  nav2_event : Conditions → Nav2Event R → Event R H
  -- The timer also publishes the pose that TF says, which changes no state.
  pose_timer : Event R H

-- What can happen while a callback is under way.
unfoldable pub in_callback : {R H : Type 0} → Event R H → Bool
in_callback (goal_requested pose) = false
in_callback (thread_runs goal is_canceling available timed_out) = true
in_callback cancel_requested = false
in_callback (nav2_answers handle) = false
in_callback (nav2_ends code) = false
in_callback result_stored = true
in_callback nav2_feeds_back = false
in_callback (nav2_event now_is event) = false
in_callback pose_timer = false

module _ {R H : Type 0} where
  unfoldable pub accept_goal : GoalPose R → System R H → System R H
  unfolding handle_goal
  accept_goal pose t =
      if handle_goal t.server
      then record t { executions = t.executions ++ record { pose = pose; point = starting } ∷ [] }
      else t

  -- The thread of the `i`-th goal runs one step; `goal` counts from the first of all goals.
  unfoldable pub run_thread :
      ℕ
      → (is_canceling available timed_out : Bool) → (goal : ℕ) → List (Execution R)
      → NavigationServer R H
      → System R H
  unfolding execute
  run_thread i is_canceling available timed_out goal [] s = record { server = s; executions = [] }
  run_thread zero is_canceling available timed_out goal (x ∷ xs) s =
      let (point, s') = execute is_canceling available timed_out goal x.pose x.point s in
      record { server = s'; executions = record x { point = point } ∷ xs }
  run_thread (suc i) is_canceling available timed_out goal (x ∷ xs) s =
      let rest = run_thread i is_canceling available timed_out (suc goal) xs s in
      record rest { executions = x ∷ rest.executions }

  module _ (d : Doubles R) (o : NodeOptions) where
    unfoldable pub take : Event R H → System R H → System R H
    unfolding accept_goal run_thread handle_cancel answer_arrives end_arrives store_result
        on_navigation_feedback publish_component_status
    take (goal_requested pose) t = accept_goal pose t
    take (thread_runs goal is_canceling available timed_out) t =
        run_thread goal is_canceling available timed_out 0 t.executions t.server
    take cancel_requested t = record t { server = (handle_cancel t.server).1 }
    take (nav2_answers handle) t = record t { server = answer_arrives handle t.server }
    take (nav2_ends code) t = record t { server = end_arrives code t.server }
    take result_stored t = record t { server = store_result t.server.telling t.server }
    take nav2_feeds_back t = record t { server = on_navigation_feedback t.server }
    take (nav2_event now_is event) t = record t { server = nav2_step d o now_is event t.server }
    take pose_timer t = record t { server = publish_component_status t.server }

    -- A process that has ended does nothing, and while a callback is under way only threads run
    -- besides it.
    unfoldable pub step : Event R H → System R H → System R H
    unfolding take in_callback
    step event t =
        if not t.server.terminated && (not (is_some t.server.telling) || in_callback event)
        then take event t
        else t

    unfoldable pub run : List (Event R H) → System R H → System R H
    unfolding step
    run [] t = t
    run (event ∷ events) t = run events (step event t)
