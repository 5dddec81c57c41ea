-- ===== src/Amr/Navigation/Goals.antt =====
-- The goals of the action server: handleGoal, handleCancel, handleAccepted, execute and the callbacks
-- of the navigation manager in robot_ws/src/amr_navigation/src/navigation_server.cpp. `execute` runs in
-- a thread of its own for each goal. Its steps end where the thread waits for a result, before the
-- locked block that registers the goal, and behind it, where a callback may come in between;
-- onNavigationResult has a step before its locked block and one for it.

pub mod Outcomes
use amr_warehouse_collaborat.Prelude.{
  ℕ, zero, suc, String, is_blank, Bool, true, false, not, ◌&&◌, ◌||◌, Option, none, some, List, [],
  ◌∷◌, ◌++◌, length, get_elem?, if◌then◌else◌,
}
use amr_warehouse_collaborat.Amr.Behavior.State.{GoalPose, ResultCode}
use amr_warehouse_collaborat.Amr.Navigation.Manager.{
  NavigationExecutionState, idle, accepting, navigating, canceling, succeeded, failed, canceled,
  NavigationResponse, NavigationManager, new_manager, is_busy, state_of_result, navigate_to_pose,
  goal_response_callback, result_callback, cancel_navigation,
}
use amr_warehouse_collaborat.Amr.Navigation.State.{
  Ending, succeeds, cancels, aborts, NavigationServer, new_server,
}

-- Where the thread of a goal is.
pub data Point : Type 0 where
  starting : Point
  waiting_for_old : Point
  registering : Point
  announcing : Point
  waiting : Point
  finished : Point
  crashed : Point

pub record Execution (R : Type 0) : Type 0 where
  pub pose : GoalPose R
  pub point : Point

-- How execute ends a goal by the state that the manager told.
unfoldable pub ending_of : NavigationExecutionState → Ending
ending_of idle = aborts "navigation failed"
ending_of accepting = aborts "navigation failed"
ending_of navigating = aborts "navigation failed"
ending_of canceling = aborts "navigation failed"
ending_of succeeded = succeeds "navigation succeeded"
ending_of failed = aborts "navigation failed"
ending_of canceled = cancels "canceled"

module _ {R H : Type 0} where
  -- onNavigationResult up to its locked block.
  unfoldable pub begin_result :
      NavigationExecutionState → NavigationServer R H → NavigationServer R H
  begin_result state s = record s { navigating = false; telling = some state }

  -- Its locked block.
  unfoldable pub store_result :
      Option NavigationExecutionState → NavigationServer R H → NavigationServer R H
  store_result none s = s
  store_result (some state) s = record s {
    result = state;
    result_ready = true;
    active_goal = none;
    telling = none;
  }

  -- The whole of it, where no thread comes in between.
  unfoldable pub on_navigation_result :
      NavigationExecutionState → NavigationServer R H → NavigationServer R H
  unfolding begin_result store_result
  on_navigation_result state s =
      let begun = begin_result state s in store_result begun.telling begun

  -- The action server of Nav2 answers the request; the manager tells a rejection as a result, which
  -- is stored in a step of its own.
  unfoldable pub answer_arrives : Option H → NavigationServer R H → NavigationServer R H
  unfolding begin_result
  answer_arrives none s =
      begin_result failed (record s { manager = goal_response_callback none s.manager })
  answer_arrives (some handle) s = record s {
    manager = goal_response_callback (some handle) s.manager;
  }

  -- Nav2 ends the goal; the result is stored in a step of its own.
  unfoldable pub end_arrives : ResultCode → NavigationServer R H → NavigationServer R H
  unfolding begin_result
  end_arrives code s =
      begin_result (state_of_result code) (record s { manager = result_callback code s.manager })

  -- The two callbacks as a whole, where no thread comes in between.
  unfoldable pub goal_answered : Option H → NavigationServer R H → NavigationServer R H
  unfolding on_navigation_result
  goal_answered none s =
      on_navigation_result failed (record s { manager = goal_response_callback none s.manager })
  goal_answered (some handle) s = record s {
    manager = goal_response_callback (some handle) s.manager;
  }

  unfoldable pub result_arrives : ResultCode → NavigationServer R H → NavigationServer R H
  unfolding on_navigation_result
  result_arrives code s =
      on_navigation_result (state_of_result code)
        (record s { manager = result_callback code s.manager })

  unfoldable pub feed_back : Option ℕ → NavigationServer R H → NavigationServer R H
  feed_back none s = s
  feed_back (some goal) s = record s { feedbacks = s.feedbacks ++ (goal, navigating) ∷ [] }

  -- The feedback of Nav2; what it says of the way is left out.
  unfoldable pub on_navigation_feedback : NavigationServer R H → NavigationServer R H
  unfolding feed_back
  on_navigation_feedback s = feed_back s.active_goal s

  -- Whether the goal is accepted.
  unfoldable pub handle_goal : NavigationServer R H → Bool
  handle_goal s = s.map_ready

  -- A cancel request is always accepted.
  unfoldable pub handle_cancel : NavigationServer R H → Bool × NavigationServer R H
  handle_cancel s = (true, record s { manager = cancel_navigation s.manager })

  unfoldable pub end_goal : ℕ → Ending → NavigationServer R H → Point × NavigationServer R H
  end_goal goal ending s = (finished, record s { endings = s.endings ++ (goal, ending) ∷ [] })

  -- A goal may always succeed or be aborted. goal_handle->canceled throws for one that is not
  -- canceling, and nothing catches the exception in the thread of the goal: the process ends.
  unfoldable pub finish_goal :
      (is_canceling : Bool) → ℕ → Ending → NavigationServer R H → Point × NavigationServer R H
  unfolding end_goal
  finish_goal is_canceling goal (succeeds message) s = end_goal goal (succeeds message) s
  finish_goal is_canceling goal (cancels message) s =
      if is_canceling
      then end_goal goal (cancels message) s
      else (crashed, record s { terminated = true })
  finish_goal is_canceling goal (aborts message) s = end_goal goal (aborts message) s

  unfoldable pub after_response :
      ℕ → NavigationResponse → NavigationServer R H → Point × NavigationServer R H
  unfolding end_goal
  after_response goal response s =
      if response.accepted
      then (registering, s)
      else end_goal goal
          (aborts
            (if is_blank response.message then "navigate request rejected" else response.message))
          s

  unfoldable pub start_execution :
      (is_canceling available : Bool)
      → ℕ
      → GoalPose R
      → NavigationServer R H
      → Point × NavigationServer R H
  unfolding end_goal after_response
  start_execution is_canceling available goal pose s =
      if is_canceling
      then end_goal goal (cancels "canceled before start") s
      else (let (response, m) = navigate_to_pose available pose s.manager in
          if not response.accepted && is_busy response.state
          then (waiting_for_old, record s { manager = cancel_navigation m })
          else after_response goal response (record s { manager = m }))

  -- What follows when the old navigation has ended, or the wait for it has timed out.
  unfoldable pub retry_execution :
      (available : Bool) → ℕ → GoalPose R → NavigationServer R H → Point × NavigationServer R H
  unfolding after_response
  retry_execution available goal pose s =
      let (response, m) = navigate_to_pose available pose s.manager in
      after_response goal response (record s { manager = m })

  -- The locked block.
  unfoldable pub activate_goal : ℕ → NavigationServer R H → NavigationServer R H
  activate_goal goal s = record s { result_ready = false; active_goal = some goal }

  -- What follows it: m_navigating and the first feedback.
  unfoldable pub announce_goal : ℕ → NavigationServer R H → NavigationServer R H
  announce_goal goal s = record s {
    navigating = true;
    feedbacks = s.feedbacks ++ (goal, navigating) ∷ [];
  }

  -- Both, where no callback comes in between.
  unfoldable pub register_goal : ℕ → NavigationServer R H → NavigationServer R H
  unfolding activate_goal announce_goal
  register_goal goal s = announce_goal goal (activate_goal goal s)

  unfoldable pub finish_execution :
      (is_canceling timed_out : Bool) → ℕ → NavigationServer R H → Point × NavigationServer R H
  unfolding end_goal finish_goal ending_of
  finish_execution is_canceling timed_out goal s =
      if s.result_ready
      then finish_goal is_canceling goal (ending_of s.result) s
      else if timed_out
      then end_goal goal (aborts "navigation result timeout") s
      else (waiting, s)

  -- One step of the thread of the goal, from the point where it is.
  unfoldable pub execute :
      (is_canceling available timed_out : Bool)
      → ℕ
      → GoalPose R
      → Point
      → NavigationServer R H
      → Point × NavigationServer R H
  unfolding start_execution retry_execution activate_goal announce_goal finish_execution
  execute is_canceling available timed_out goal pose starting s =
      start_execution is_canceling available goal pose s
  execute is_canceling available timed_out goal pose waiting_for_old s =
      if s.result_ready || timed_out
      then retry_execution available goal pose s
      else (waiting_for_old, s)
  execute is_canceling available timed_out goal pose registering s =
      (announcing, activate_goal goal s)
  execute is_canceling available timed_out goal pose announcing s = (waiting, announce_goal goal s)
  execute is_canceling available timed_out goal pose waiting s =
      finish_execution is_canceling timed_out goal s
  execute is_canceling available timed_out goal pose finished s = (finished, s)
  execute is_canceling available timed_out goal pose crashed s = (crashed, s)
