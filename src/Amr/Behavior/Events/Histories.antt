-- ===== src/Amr/Behavior/Events/Histories.antt =====
-- The events of a history of callbacks of the behaviour manager, callback by callback
-- (robot_ws/src/amr_behavior_manager/src/amr_behavior_manager_node.cpp).
use amr_warehouse_collaborat.Prelude.{
  ℕ, zero, suc, false, ◌==◌, is_blank, Bool, not, ◌&&◌, Option, none, some, List, [], ◌∷◌,
}
use amr_warehouse_collaborat.Amr.Messages.{TaskCommand, TaskEvent}
use amr_warehouse_collaborat.Amr.GoodsPoints.{StationInfo, ZoneInfo, Document, load_files}
use amr_warehouse_collaborat.Amr.Behavior.State.{
  Doubles, Parameters, GoalStatus, GoalPose, NavigationClient, send_goal, cancel_goal, OneShot,
  grasped, placed, Node, constructed, init, put, reset_task, publish_task_event,
}
use amr_warehouse_collaborat.Amr.Behavior.Commands.{
  is_active_goal, cancel_handle, cancel_client, cancel_navigation, is_over, handle_task_assign,
  handle_task_cancel, handle_task_state_update, begin_grasp_then_navigate, handle_goods_response,
  handle_task_command,
}
use amr_warehouse_collaborat.Amr.Behavior.Carries.{
  goal_for, send_when_ready, navigate_to_goods_destination, on_grasped, on_placed,
  on_navigation_result, run_one_shot, fire_in, fire_timer,
}
use amr_warehouse_collaborat.Amr.Behavior.Callbacks.{
  Event, task_command, map_info, edge_status, goal_response, goal_status, navigation_result,
  robot_pose, one_shot_timer, task_status_timer, robot_status_timer, on_map_info, on_goal_response,
  on_goal_status, on_robot_pose, publish_periodic_task_status, publish_component_status,
  publish_robot_status, is_success, step, run_from, run_node,
}
use amr_warehouse_collaborat.Amr.Behavior.Events.{
  if_rule, Emits, IsPublic, put-Emits, publish-Emits, maybe_request-Emits,
}

module _ {R : Type 0} (p : Parameters) (P : TaskEvent → Type 0) (k : IsPublic R p P) where
  cancel_handle-Emits :
      (n : Node R) (o : Option GoalStatus) → Emits P n → Emits P (cancel_handle o n)
  unfolding cancel_handle
  cancel_handle-Emits n none v = v
  cancel_handle-Emits n (some status) v =
      if_rule (Emits P) (is_active_goal status) (λ e. put-Emits p P k cancel_goal n tt v) (λ e. v)

  cancel_client-Emits :
      (n : Node R) (client : Option (NavigationClient R))
      → Emits P n
      → Emits P (cancel_client client n)
  unfolding cancel_client
  cancel_client-Emits n none v = v
  cancel_client-Emits n (some client) v = cancel_handle-Emits n client.current_goal_handle v

  assign-Emits :
      (now : ℕ) (cmd : TaskCommand) (n : Node R)
      → Emits P n
      → Emits P (handle_task_assign now cmd n)
  unfolding handle_task_assign
  assign-Emits now cmd n v =
      if_rule (Emits P) (not n.map_ready) (λ e. v)
        (λ e.
          if_rule (Emits P) (not (is_blank n.current_task_id) && n.current_task_id == cmd.task_id)
            (λ e'. v)
            (λ e'.
              let m = record n {
                current_task_id = cmd.task_id;
                current_warehouse_id = cmd.warehouse_id;
                current_task_type = cmd.task_type;
                task_state = "ACCEPTED";
                goods_status = [];
                current_goods = [];
                waiting_goods_response = false;
              } in
              publish-Emits p P k now "TASK_ACCEPTED" "ACCEPTED" [] "" "" m (k.assigned now m) v))

  cancel-Emits :
      (now : ℕ) (cmd : TaskCommand) (n : Node R)
      → Emits P n
      → Emits P (handle_task_cancel now cmd n)
  unfolding handle_task_cancel cancel_navigation reset_task
  cancel-Emits now cmd n v =
      if_rule (Emits P) (n.current_task_id == cmd.task_id)
        (λ e.
          let m = record (cancel_client n.nav_client n) { task_state = "CANCELLED" } in
          publish-Emits p P k now "CARRY_ABORTED" "INTERRUPTED" n.current_goods "" "TASK_CANCELLED"
            m (k.given_up now n.current_goods "TASK_CANCELLED" m)
            (cancel_client-Emits n n.nav_client v))
        (λ e. v)

  state_update-Emits :
      (now : ℕ) (cmd : TaskCommand) (n : Node R)
      → Emits P n
      → Emits P (handle_task_state_update p now cmd n)
  unfolding handle_task_state_update reset_task
  state_update-Emits now cmd n v =
      if_rule (Emits P) (cmd.task_id == n.current_task_id)
        (λ e.
          if_rule (Emits P) (is_over cmd.state) (λ e'. v)
            (λ e'. maybe_request-Emits p P k now (record n { goods_status = cmd.goods_status }) v))
        (λ e. v)

  response-Emits :
      (now : ℕ) (cmd : TaskCommand) (n : Node R)
      → Emits P n
      → Emits P (handle_goods_response now cmd n)
  unfolding handle_goods_response begin_grasp_then_navigate
  response-Emits now cmd n v =
      if_rule (Emits P) (cmd.task_id == n.current_task_id && n.waiting_goods_response)
        (λ e.
          if_rule (Emits P) cmd.accepted
            (λ e'.
              let m = record n {
                waiting_goods_response = false;
                current_goods = cmd.goods;
                task_state = "GRASPING";
              } in
              publish-Emits p P k now "STATUS" "GRASPING" cmd.goods "" "" m
                (k.status now "GRASPING" cmd.goods m) v)
            (λ e'. v))
        (λ e. v)

  command-Emits :
      (now : ℕ) (cmd : TaskCommand) (n : Node R)
      → Emits P n
      → Emits P (handle_task_command p now cmd n)
  unfolding handle_task_command
  command-Emits now cmd n v =
      if_rule (Emits P) (cmd.command_type == "TASK_ASSIGN") (λ e. assign-Emits now cmd n v)
        (λ e.
          if_rule (Emits P) (cmd.command_type == "TASK_CANCEL") (λ e. cancel-Emits now cmd n v)
            (λ e.
              if_rule (Emits P) (cmd.command_type == "TASK_STATE_UPDATE")
                (λ e. state_update-Emits now cmd n v)
                (λ e.
                  if_rule (Emits P) (cmd.command_type == "GOODS_RESPONSE")
                    (λ e. response-Emits now cmd n v) (λ e. v))))

  send-Emits :
      (available : Bool) (goal : GoalPose R) (client : Option (NavigationClient R)) (n : Node R)
      → Emits P n
      → Emits P (send_when_ready available goal client n)
  unfolding send_when_ready
  send-Emits available goal none n v = v
  send-Emits available goal (some client) n v =
      if_rule (Emits P) available (λ e. put-Emits p P k (send_goal goal) n tt v) (λ e. v)

  result-Emits :
      (now : ℕ) (success : Bool) (n : Node R)
      → Emits P n
      → Emits P (on_navigation_result now success n)
  unfolding on_navigation_result
  result-Emits now success n v =
      if_rule (Emits P) (n.task_state == "TRANSPORTING")
        (λ e.
          if_rule (Emits P) success
            (λ e'.
              let m = record n { task_state = "PLACING" } in
              publish-Emits p P k now "STATUS" "PLACING" n.current_goods "" "" m
                (k.status now "PLACING" n.current_goods m) v)
            (λ e'.
              let m = record n { task_state = "INTERRUPTED" } in
              publish-Emits p P k now "CARRY_ABORTED" "INTERRUPTED" n.current_goods ""
                "NAVIGATION_FAILED" m (k.given_up now n.current_goods "NAVIGATION_FAILED" m) v))
        (λ e. v)

  module _ (d : Doubles R) where
    grasped-Emits :
        (available : Bool) (now : ℕ) (n : Node R)
        → Emits P n
        → Emits P (on_grasped d p available now n)
    unfolding on_grasped navigate_to_goods_destination
    grasped-Emits available now n v =
        let m = record n { task_state = "TRANSPORTING" } in
        let told = publish_task_event now "STATUS" "TRANSPORTING" n.current_goods "" "" m in
        send-Emits available
          (goal_for d p told.current_goods told.goods_point_resolver told.current_task_type)
          told.nav_client told
          (publish-Emits p P k now "STATUS" "TRANSPORTING" n.current_goods "" "" m
            (k.status now "TRANSPORTING" n.current_goods m) v)

    placed-Emits : (now : ℕ) (n : Node R) → Emits P n → Emits P (on_placed d p now n)
    unfolding on_placed reset_task
    placed-Emits now n v =
        let told =
          publish_task_event now "CARRY_COMPLETED" "TRANSPORTING" n.current_goods "" "" n in
        let done =
          publish-Emits p P k now "CARRY_COMPLETED" "TRANSPORTING" n.current_goods "" "" n
            (k.carried now n.current_goods n) v in
        if_rule (Emits P) told.edge_online
          (λ e.
            maybe_request-Emits p P k now
              (record told { current_goods = []; task_state = "ACCEPTED" }) done)
          (λ e. done)

    fire_in-Emits :
        (timers : List OneShot) (i : ℕ) (available : Bool) (now : ℕ) (n : Node R)
        → Emits P n
        → Emits P (fire_in d p timers i available now n)
    unfolding fire_in run_one_shot
    fire_in-Emits [] i available now n v = v
    fire_in-Emits (grasped ∷ rest) zero available now n v = grasped-Emits available now n v
    fire_in-Emits (placed ∷ rest) zero available now n v = placed-Emits now n v
    fire_in-Emits (timer ∷ rest) (suc i) available now n v = fire_in-Emits rest i available now n v

    periodic-Emits :
        (now : ℕ) (n : Node R) → Emits P n → Emits P (publish_periodic_task_status now n)
    unfolding publish_periodic_task_status
    periodic-Emits now n v =
        if_rule (Emits P) (is_blank n.current_task_id) (λ e. v)
          (λ e.
            publish-Emits p P k now "STATUS" n.task_state n.current_goods "" "" n
              (k.status now n.task_state n.current_goods n) v)

    robot_status-Emits :
        (now : ℕ) (n : Node R) → Emits P n → Emits P (publish_robot_status d p now n)
    unfolding publish_robot_status publish_component_status
    robot_status-Emits now n v = put-Emits p P k _ (put _ n) tt (put-Emits p P k _ n tt v)

    map_info-Emits :
        (ready : Bool) (zones : Document ZoneInfo) (stations : Document (StationInfo R))
        (n : Node R)
        → Emits P n
        → Emits P (on_map_info ready zones stations n)
    unfolding on_map_info
    map_info-Emits ready zones stations n v =
        if_rule (Emits P) ready
          (λ e. if_rule (Emits P) (load_files zones stations).0 (λ e. v) (λ e. v)) (λ e. v)

    step-Emits : (now : ℕ) (e : Event R) (n : Node R) → Emits P n → Emits P (step d p now e n)
    unfolding step fire_timer on_goal_response on_goal_status on_robot_pose
    step-Emits now (task_command cmd) n v = command-Emits now cmd n v
    step-Emits now (map_info ready zones stations) n v = map_info-Emits ready zones stations n v
    step-Emits now (edge_status online) n v = v
    step-Emits now (goal_response none) n v = v
    step-Emits now (goal_response (some status)) n v = v
    step-Emits now (goal_status status) n v = v
    step-Emits now (navigation_result code) n v = result-Emits now (is_success code) n v
    step-Emits now (robot_pose pose) n v = v
    step-Emits now (one_shot_timer i available) n v =
        fire_in-Emits n.one_shot_timers i available now n v
    step-Emits now task_status_timer n v = periodic-Emits now n v
    step-Emits now robot_status_timer n v = robot_status-Emits now n v

    run_from-Emits :
        (events : List (ℕ × Event R)) (n : Node R) → Emits P n → Emits P (run_from d p n events)
    unfolding run_from
    run_from-Emits [] n v = v
    run_from-Emits ((now, e) ∷ rest) n v =
        run_from-Emits rest (step d p now e n) (step-Emits now e n v)

    pub run_node-Emits : (events : List (ℕ × Event R)) → Emits P (run_node d p events)
    unfolding run_node init constructed
    run_node-Emits events = run_from-Emits events (init constructed) tt
