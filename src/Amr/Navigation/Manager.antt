-- ===== src/Amr/Navigation/Manager.antt =====
-- NavigationManager of robot_ws/src/amr_navigation/src/navigation_manager.cpp, the client of the
-- navigate_to_pose action of Nav2. What it reads or writes in one call is one step.
pub mod Activity
use amr_warehouse_collaborat.Prelude.{
  String, Bool, true, false, Option, none, some, List, [], ◌∷◌, ◌++◌, if◌then◌else◌,
}
use amr_warehouse_collaborat.Amr.Behavior.State.{
  ResultCode, result_succeeded, result_canceled, result_aborted, result_unknown,
}

pub data NavigationExecutionState : Type 0 where
  idle : NavigationExecutionState
  accepting : NavigationExecutionState
  navigating : NavigationExecutionState
  canceling : NavigationExecutionState
  succeeded : NavigationExecutionState
  failed : NavigationExecutionState
  canceled : NavigationExecutionState

pub record NavigationResponse : Type 0 where
  pub accepted : Bool
  pub state : NavigationExecutionState
  pub message : String

-- `G` is the type of the goal poses and `H` that of the goal handles. `goals` and `cancels` are
-- what was sent to the action server, and `results` what m_result_callback was called with.
pub record NavigationManager (G H : Type 0) : Type 0 where
  pub state : NavigationExecutionState
  pub goal_handle : Option H
  pub goals : List G
  pub cancels : List H
  pub results : List NavigationExecutionState

unfoldable pub is_busy : NavigationExecutionState → Bool
is_busy idle = false
is_busy accepting = true
is_busy navigating = true
is_busy canceling = true
is_busy succeeded = false
is_busy failed = false
is_busy canceled = false

unfoldable pub state_of_result : ResultCode → NavigationExecutionState
state_of_result result_succeeded = succeeded
state_of_result result_aborted = failed
state_of_result result_canceled = canceled
state_of_result result_unknown = failed

module _ {G H : Type 0} where
  abbrev pub new_manager : NavigationManager G H
  new_manager = record { state = idle; goal_handle = none; goals = []; cancels = []; results = [] }

  -- `available` is what wait_for_action_server returns.
  unfoldable pub navigate_to_pose :
      Bool → G → NavigationManager G H → NavigationResponse × NavigationManager G H
  unfolding is_busy
  navigate_to_pose available goal m =
      if available
      then (if is_busy m.state
          then (record { accepted = false; state = m.state; message = "robot busy" }, m)
          else (
            record { accepted = true; state = accepting; message = "navigation request accepted" },
            record m { state = accepting; goals = m.goals ++ goal ∷ [] },
          ))
      else (
        record { accepted = false; state = idle; message = "nav2 action server not available" },
        m,
      )

  -- `none` is a goal that the action server rejects.
  unfoldable pub goal_response_callback : Option H → NavigationManager G H → NavigationManager G H
  goal_response_callback none m = record m {
    state = idle;
    goal_handle = none;
    results = m.results ++ failed ∷ [];
  }
  goal_response_callback (some handle) m = record m {
    state = navigating;
    goal_handle = some handle;
  }

  unfoldable pub result_callback : ResultCode → NavigationManager G H → NavigationManager G H
  unfolding state_of_result
  result_callback code m = record m {
    state = idle;
    goal_handle = none;
    results = m.results ++ state_of_result code ∷ [];
  }

  unfoldable pub cancel_goal_of : Option H → NavigationManager G H → NavigationManager G H
  cancel_goal_of none m = m
  cancel_goal_of (some handle) m = record m {
    state = canceling;
    cancels = m.cancels ++ handle ∷ [];
  }

  unfoldable pub cancel_navigation : NavigationManager G H → NavigationManager G H
  unfolding cancel_goal_of
  cancel_navigation m = cancel_goal_of m.goal_handle m

-- The calls of the manager, by the navigation server and by the action client.
pub data Call (G H : Type 0) : Type 0 where
  navigates : (available : Bool) → G → Call G H
  goal_answered : Option H → Call G H
  result_arrives : ResultCode → Call G H
  cancels : Call G H

module _ {G H : Type 0} where
  unfoldable pub call : Call G H → NavigationManager G H → NavigationManager G H
  unfolding navigate_to_pose goal_response_callback result_callback cancel_navigation
  call (navigates available goal) m = (navigate_to_pose available goal m).1
  call (goal_answered handle) m = goal_response_callback handle m
  call (result_arrives code) m = result_callback code m
  call cancels m = cancel_navigation m

  unfoldable pub calls : List (Call G H) → NavigationManager G H → NavigationManager G H
  unfolding call
  calls [] m = m
  calls (c ∷ cs) m = calls cs (call c m)

  -- The calls that end a navigation: a rejection and a result.
  unfoldable pub ends : Call G H → Bool
  ends (navigates available goal) = false
  ends (goal_answered none) = true
  ends (goal_answered (some handle)) = false
  ends (result_arrives code) = true
  ends cancels = false
