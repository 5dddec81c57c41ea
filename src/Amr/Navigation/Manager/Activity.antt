-- ===== src/Amr/Navigation/Manager/Activity.antt =====
-- One navigation at a time (robot_ws/src/amr_navigation/src/navigation_manager.cpp): what the states
-- of the manager are, and that a goal is sent only when the navigation before it has ended.
use amr_warehouse_collaborat.Prelude.{
  Bool, true, false, ◌≡◌, refl, Option, none, some, List, [], ◌∷◌, arith, if◌then◌else◌, leb,
  length, length-append, ◌+◌, suc,
}
use amr_warehouse_collaborat.Amr.Behavior.State.{ResultCode}
use amr_warehouse_collaborat.Amr.Navigation.Manager.{
  NavigationExecutionState, idle, accepting, navigating, canceling, succeeded, failed, canceled,
  NavigationManager, new_manager, is_busy, navigate_to_pose, goal_response_callback,
  result_callback, state_of_result, cancel_goal_of, cancel_navigation, Call, navigates,
  goal_answered, result_arrives, cancels, call, calls,
}

-- The manager has a goal handle exactly when it navigates or cancels, and is in no other state
-- than idle, accepting, navigating and canceling.
unfoldable pub is_consistent : {H : Type 0} → NavigationExecutionState → Option H → Bool
is_consistent idle none = true
is_consistent idle (some h) = false
is_consistent accepting none = true
is_consistent accepting (some h) = false
is_consistent navigating none = false
is_consistent navigating (some h) = true
is_consistent canceling none = false
is_consistent canceling (some h) = true
is_consistent succeeded handle = false
is_consistent failed handle = false
is_consistent canceled handle = false

module _ {G H : Type 0} where
  abbrev pub IsConsistent : NavigationManager G H → Type 0
  IsConsistent m = is_consistent m.state m.goal_handle ≡ true

  pub navigate-IsConsistent :
      (available : Bool) (goal : G) (m : NavigationManager G H)
      → IsConsistent m
      → IsConsistent (navigate_to_pose available goal m).1
  unfolding navigate_to_pose is_busy is_consistent
  navigate-IsConsistent available goal m h = ground arith

  pub cancel-IsConsistent :
      (m : NavigationManager G H) → IsConsistent m → IsConsistent (cancel_navigation m)
  unfolding cancel_navigation cancel_goal_of is_consistent
  cancel-IsConsistent m h = ground arith

  call-IsConsistent :
      (c : Call G H) (m : NavigationManager G H) → IsConsistent m → IsConsistent (call c m)
  unfolding call goal_response_callback result_callback is_consistent
  call-IsConsistent (navigates available goal) m h = navigate-IsConsistent available goal m h
  call-IsConsistent (goal_answered none) m h = refl
  call-IsConsistent (goal_answered (some handle)) m h = refl
  call-IsConsistent (result_arrives code) m h = refl
  call-IsConsistent cancels m h = cancel-IsConsistent m h

  pub calls-IsConsistent :
      (cs : List (Call G H)) (m : NavigationManager G H)
      → IsConsistent m
      → IsConsistent (calls cs m)
  unfolding calls
  calls-IsConsistent [] m h = h
  calls-IsConsistent (c ∷ cs) m h = calls-IsConsistent cs (call c m) (call-IsConsistent c m h)

  -- One more goal than results may have been sent, and only while the manager is not idle.
  unfoldable pub is_spaced : NavigationManager G H → Bool
  unfolding is_busy
  is_spaced m = leb (length m.goals + (if is_busy m.state then 0 else 1)) (suc (length m.results))

  abbrev IsSpaced : NavigationManager G H → Type 0
  IsSpaced m = is_spaced m ≡ true

  navigate-IsSpaced :
      (available : Bool) (goal : G) (m : NavigationManager G H)
      → IsSpaced m
      → IsSpaced (navigate_to_pose available goal m).1
  unfolding navigate_to_pose is_busy is_spaced
  navigate-IsSpaced available goal m h = ground (arith, length-append m.goals (goal ∷ []))

  cancel-IsSpaced : (m : NavigationManager G H) → IsSpaced m → IsSpaced (cancel_navigation m)
  unfolding cancel_navigation cancel_goal_of is_busy is_spaced
  cancel-IsSpaced m h = ground arith

  answered-IsSpaced :
      (handle : Option H) (m : NavigationManager G H)
      → IsSpaced m
      → IsSpaced (goal_response_callback handle m)
  unfolding goal_response_callback is_busy is_spaced
  answered-IsSpaced handle m h = ground (arith, length-append m.results (failed ∷ []))

  result-IsSpaced :
      (code : ResultCode) (m : NavigationManager G H)
      → IsSpaced m
      → IsSpaced (result_callback code m)
  unfolding result_callback is_busy is_spaced
  result-IsSpaced code m h = ground (arith, length-append m.results (state_of_result code ∷ []))

  calls-IsSpaced :
      (cs : List (Call G H)) (m : NavigationManager G H) → IsSpaced m → IsSpaced (calls cs m)
  unfolding calls call
  calls-IsSpaced [] m h = h
  calls-IsSpaced (navigates available goal ∷ cs) m h =
      calls-IsSpaced cs (navigate_to_pose available goal m).1 (navigate-IsSpaced available goal m h)
  calls-IsSpaced (goal_answered handle ∷ cs) m h =
      calls-IsSpaced cs (goal_response_callback handle m) (answered-IsSpaced handle m h)
  calls-IsSpaced (result_arrives code ∷ cs) m h =
      calls-IsSpaced cs (result_callback code m) (result-IsSpaced code m h)
  calls-IsSpaced (cancels ∷ cs) m h = calls-IsSpaced cs (cancel_navigation m) (cancel-IsSpaced m h)

  -- In any history of calls, by the navigation server and by the action client, in any order, the
  -- manager has a goal handle exactly when it navigates or cancels, its state is never succeeded,
  -- failed or canceled, and it has sent at most one goal more than it has told results, and no
  -- more when it is idle.
  pub one_navigation :
      (cs : List (Call G H))
      → let m = calls cs new_manager in
        (is_consistent m.state m.goal_handle ≡ true) × (is_spaced m ≡ true)
  unfolding is_consistent is_spaced is_busy
  one_navigation cs = (calls-IsConsistent cs new_manager refl, calls-IsSpaced cs new_manager refl)
