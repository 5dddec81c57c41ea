-- ===== src/Amr/Navigation/Server/Canceling.antt =====
-- A cancel request for a goal of the navigation server (handleCancel of
-- robot_ws/src/amr_navigation/src/navigation_server.cpp).
use amr_warehouse_collaborat.Prelude.{true, ◌≡◌, refl, ap, some, List, arith}
use amr_warehouse_collaborat.Amr.Behavior.State.{Doubles, GoalPose}
use amr_warehouse_collaborat.Amr.Navigation.Manager.{
  accepting, navigating, NavigationManager, goal_response_callback, cancel_goal_of,
  cancel_navigation,
}
use amr_warehouse_collaborat.Amr.Navigation.Manager.Activity.{is_consistent}
use amr_warehouse_collaborat.Amr.Navigation.Process.{NodeOptions}
use amr_warehouse_collaborat.Amr.Navigation.Goals.{goal_answered, handle_cancel}
use amr_warehouse_collaborat.Amr.Navigation.Server.{new_system, Event, run}
use amr_warehouse_collaborat.Amr.Navigation.Server.Steady.{server-IsSteady}

module _ {R H : Type 0} where
  no_handle :
      (m : NavigationManager (GoalPose R) H)
      → m.state ≡ accepting
      → is_consistent m.state m.goal_handle ≡ true
      → cancel_navigation m ≡ m
  unfolding is_consistent cancel_navigation cancel_goal_of
  no_handle m asked kept = ground (arith, asked, kept)

  -- In any history, a cancel request that comes before Nav2 has answered the request for the goal is
  -- accepted and changes nothing: no cancellation is sent, and when Nav2 then accepts the goal, the
  -- manager navigates to it.
  pub cancel_before_answer :
      (d : Doubles R) (o : NodeOptions) (events : List (Event R H)) (handle : H)
      → (run d o events new_system).server.manager.state ≡ accepting
      → let s = (run d o events new_system).server in
        (handle_cancel s ≡ (true, s))
        × ((goal_answered (some handle) (handle_cancel s).1).manager.state ≡ navigating)
        × ((goal_answered (some handle) (handle_cancel s).1).manager.cancels ≡ s.manager.cancels)
  unfolding handle_cancel goal_answered goal_response_callback
  cancel_before_answer d o events handle asked =
      let s = (run d o events new_system).server in
      let unchanged = no_handle s.manager asked (server-IsSteady d o events).consistent in
      (ap (λ m. (true, record s { manager = m })) unchanged, refl, ap (λ m. m.cancels) unchanged)
