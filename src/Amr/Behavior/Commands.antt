-- ===== src/Amr/Behavior/Commands.antt =====
-- The handlers of task commands of
-- robot_ws/src/amr_behavior_manager/src/amr_behavior_manager_node.cpp, and the cancellation of
-- navigation_client.cpp. One callback has one reading `now` of the clock.
use amr_warehouse_collaborat.Prelude.{
  ℕ, String, ◌==◌, is_blank, Bool, true, false, not, ◌&&◌, ◌||◌, Option, none, some, [], ◌∷◌, ◌++◌,
  if◌then◌else◌,
}
use amr_warehouse_collaborat.Amr.Messages.{TaskCommand}
use amr_warehouse_collaborat.Amr.Behavior.State.{
  Parameters, GoalStatus, accepted, executing, canceling, succeeded, canceled, aborted,
  NavigationClient, grasped, cancel_goal, Node, put, publish_task_event, reset_task,
}
use amr_warehouse_collaborat.Amr.Behavior.Requests.{maybe_request_next_goods}

-- `NavigationClient::cancelNavigation` cancels a goal in one of these states.
unfoldable pub is_active_goal : GoalStatus → Bool
is_active_goal accepted = true
is_active_goal executing = true
is_active_goal canceling = false
is_active_goal succeeded = false
is_active_goal canceled = false
is_active_goal aborted = false

-- The states in which a task has ended.
unfoldable pub is_over : String → Bool
is_over state =
    state == "SUCCEEDED" || state == "CANCELLED" || state == "FAILED" || state == "INTERRUPTED"

module _ {R : Type 0} where
  unfoldable pub cancel_handle : Option GoalStatus → Node R → Node R
  unfolding put is_active_goal
  cancel_handle none n = n
  cancel_handle (some status) n = if is_active_goal status then put cancel_goal n else n

  unfoldable pub cancel_client : Option (NavigationClient R) → Node R → Node R
  unfolding cancel_handle
  cancel_client none n = n
  cancel_client (some client) n = cancel_handle client.current_goal_handle n

  unfoldable pub cancel_navigation : Node R → Node R
  unfolding cancel_client
  cancel_navigation n = cancel_client n.nav_client n

  unfoldable pub handle_task_assign : ℕ → TaskCommand → Node R → Node R
  unfolding publish_task_event
  handle_task_assign now cmd n =
      if not n.map_ready
      then n
      else if not (is_blank n.current_task_id) && n.current_task_id == cmd.task_id
      then n
      else publish_task_event now "TASK_ACCEPTED" "ACCEPTED" [] "" "" (record n {
        current_task_id = cmd.task_id;
        current_warehouse_id = cmd.warehouse_id;
        current_task_type = cmd.task_type;
        task_state = "ACCEPTED";
        goods_status = [];
        current_goods = [];
        waiting_goods_response = false;
      })

  unfoldable pub handle_task_cancel : ℕ → TaskCommand → Node R → Node R
  unfolding publish_task_event cancel_navigation reset_task
  handle_task_cancel now cmd n =
      if n.current_task_id == cmd.task_id
      then reset_task (
          publish_task_event now "CARRY_ABORTED" "INTERRUPTED" n.current_goods "" "TASK_CANCELLED"
            (record (cancel_navigation n) { task_state = "CANCELLED" }))
      else n

  unfoldable pub handle_task_state_update : Parameters → ℕ → TaskCommand → Node R → Node R
  unfolding is_over reset_task maybe_request_next_goods
  handle_task_state_update p now cmd n =
      if cmd.task_id == n.current_task_id
      then (if is_over cmd.state
          then reset_task (record n { task_state = "IDLE" })
          else maybe_request_next_goods p now (record n { goods_status = cmd.goods_status }))
      else n

  unfoldable pub begin_grasp_then_navigate : ℕ → Node R → Node R
  unfolding publish_task_event
  begin_grasp_then_navigate now n =
      let m =
        publish_task_event now "STATUS" "GRASPING" n.current_goods "" ""
          (record n { task_state = "GRASPING" }) in
      record m { one_shot_timers = m.one_shot_timers ++ grasped ∷ [] }

  unfoldable pub handle_goods_response : ℕ → TaskCommand → Node R → Node R
  unfolding begin_grasp_then_navigate
  handle_goods_response now cmd n =
      if cmd.task_id == n.current_task_id && n.waiting_goods_response
      then (let m = record n { waiting_goods_response = false } in
          if cmd.accepted
          then begin_grasp_then_navigate now (record m { current_goods = cmd.goods })
          else m)
      else n

  unfoldable pub handle_task_command : Parameters → ℕ → TaskCommand → Node R → Node R
  unfolding handle_task_assign handle_task_cancel handle_task_state_update handle_goods_response
  handle_task_command p now cmd n =
      if cmd.command_type == "TASK_ASSIGN"
      then handle_task_assign now cmd n
      else if cmd.command_type == "TASK_CANCEL"
      then handle_task_cancel now cmd n
      else if cmd.command_type == "TASK_STATE_UPDATE"
      then handle_task_state_update p now cmd n
      else if cmd.command_type == "GOODS_RESPONSE"
      then handle_goods_response now cmd n
      else n
