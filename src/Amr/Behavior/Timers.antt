-- ===== src/Amr/Behavior/Timers.antt =====
-- The timers of the behaviour manager through a history of callbacks
-- (robot_ws/src/amr_behavior_manager/src/amr_behavior_manager_node.cpp).
use amr_warehouse_collaborat.Prelude.{
  ℕ, zero, suc, Bool, true, ◌≡◌, refl, ap, ◌∙◌, Option, none, some, List, [], ◌∷◌, length,
  get_elem?, get_elem?-append, get_elem?-length, eq_refl, arith,
}
use amr_warehouse_collaborat.Amr.GoodsPoints.{StationInfo, ZoneInfo, Document}
use amr_warehouse_collaborat.Amr.Messages.{TaskGoodsStatus, TaskCommand}
use amr_warehouse_collaborat.Amr.Behavior.State.{
  Doubles, Parameters, GoalPose, NavigationClient, OneShot, grasped, placed, Node, put,
  publish_task_event, reset_task,
}
use amr_warehouse_collaborat.Amr.Behavior.Requests.{
  first_pending, request_goods, request_pending, maybe_request_next_goods,
}
use amr_warehouse_collaborat.Amr.Behavior.Commands.{
  cancel_handle, cancel_client, cancel_navigation, handle_task_assign, handle_task_cancel,
  handle_task_state_update, begin_grasp_then_navigate, handle_goods_response, handle_task_command,
}
use amr_warehouse_collaborat.Amr.Behavior.Carries.{
  send_when_ready, navigate_to_goods_destination, on_grasped, on_placed, on_navigation_result,
  run_one_shot, fire_in, fire_timer,
}
use amr_warehouse_collaborat.Amr.Behavior.Callbacks.{
  Event, task_command, map_info, edge_status, goal_response, goal_status, navigation_result,
  robot_pose, one_shot_timer, task_status_timer, robot_status_timer, on_map_info, on_goal_response,
  on_goal_status, on_robot_pose, publish_periodic_task_status, publish_component_status,
  publish_robot_status, is_success, step, run_from,
}

module _ {R : Type 0} where
  request_pending-timers :
      (now : ℕ) (p : Parameters) (o : Option TaskGoodsStatus) (n : Node R)
      → (request_pending now p.carry_capacity o n).one_shot_timers ≡ n.one_shot_timers
  unfolding request_pending request_goods publish_task_event put
  request_pending-timers now p none n = refl
  request_pending-timers now p (some s) n = refl

  maybe_request-timers :
      (p : Parameters) (now : ℕ) (n : Node R)
      → (maybe_request_next_goods p now n).one_shot_timers ≡ n.one_shot_timers
  unfolding maybe_request_next_goods
  maybe_request-timers p now n =
      ground (arith, request_pending-timers now p (first_pending n.goods_status) n)

  cancel_client-timers :
      (client : Option (NavigationClient R)) (n : Node R)
      → (cancel_client client n).one_shot_timers ≡ n.one_shot_timers
  unfolding cancel_client cancel_handle put
  cancel_client-timers client n = ground arith

  assign-timers :
      (now : ℕ) (cmd : TaskCommand) (n : Node R)
      → (handle_task_assign now cmd n).one_shot_timers ≡ n.one_shot_timers
  unfolding handle_task_assign publish_task_event put
  assign-timers now cmd n = ground arith

  cancel-timers :
      (now : ℕ) (cmd : TaskCommand) (n : Node R)
      → (handle_task_cancel now cmd n).one_shot_timers ≡ n.one_shot_timers
  unfolding handle_task_cancel publish_task_event put reset_task cancel_navigation
  cancel-timers now cmd n = ground (arith, cancel_client-timers n.nav_client n)

  state_update-timers :
      (p : Parameters) (now : ℕ) (cmd : TaskCommand) (n : Node R)
      → (handle_task_state_update p now cmd n).one_shot_timers ≡ n.one_shot_timers
  unfolding handle_task_state_update reset_task
  state_update-timers p now cmd n =
      ground (arith, maybe_request-timers p now (record n { goods_status = cmd.goods_status }))

  send-timers :
      (available : Bool) (goal : GoalPose R) (client : Option (NavigationClient R)) (n : Node R)
      → (send_when_ready available goal client n).one_shot_timers ≡ n.one_shot_timers
  unfolding send_when_ready put
  send-timers available goal client n = ground arith

  module _ (i : ℕ) (t : OneShot) where
    -- The timer with this index.
    abbrev HasTimer : Node R → Type 0
    HasTimer n = get_elem? n.one_shot_timers i ≡ some t

    HasTimer-of_eq :
        (n m : Node R) → m.one_shot_timers ≡ n.one_shot_timers → HasTimer n → HasTimer m
    HasTimer-of_eq n m e h = ap (λ timers. get_elem? timers i) e ∙ h

    response-HasTimer :
        (now : ℕ) (cmd : TaskCommand) (n : Node R)
        → HasTimer n
        → HasTimer (handle_goods_response now cmd n)
    unfolding handle_goods_response begin_grasp_then_navigate publish_task_event put
    response-HasTimer now cmd n h =
        ground (arith, get_elem?-append n.one_shot_timers (grasped ∷ []) i t)

    command-HasTimer :
        (p : Parameters) (now : ℕ) (cmd : TaskCommand) (n : Node R)
        → HasTimer n
        → HasTimer (handle_task_command p now cmd n)
    unfolding handle_task_command
    command-HasTimer p now cmd n h = ground (
      arith,
      HasTimer-of_eq n (handle_task_assign now cmd n) (assign-timers now cmd n) h,
      HasTimer-of_eq n (handle_task_cancel now cmd n) (cancel-timers now cmd n) h,
      HasTimer-of_eq n (handle_task_state_update p now cmd n) (state_update-timers p now cmd n) h,
      response-HasTimer now cmd n h,
    )

    result-HasTimer :
        (now : ℕ) (success : Bool) (n : Node R)
        → HasTimer n
        → HasTimer (on_navigation_result now success n)
    unfolding on_navigation_result publish_task_event put
    result-HasTimer now success n h =
        ground (arith, get_elem?-append n.one_shot_timers (placed ∷ []) i t)

    map_info-HasTimer :
        (ready : Bool) (zones : Document ZoneInfo) (stations : Document (StationInfo R))
        (n : Node R)
        → HasTimer n
        → HasTimer (on_map_info ready zones stations n)
    unfolding on_map_info
    map_info-HasTimer ready zones stations n h = ground arith

    module _ (d : Doubles R) (p : Parameters) where
      placed-timers :
          (now : ℕ) (n : Node R) → (on_placed d p now n).one_shot_timers ≡ n.one_shot_timers
      unfolding on_placed reset_task publish_task_event put
      placed-timers now n =
          let told =
            publish_task_event now "CARRY_COMPLETED" "TRANSPORTING" n.current_goods "" "" n in
          ground (
            arith,
            maybe_request-timers p now
                (record told { current_goods = []; task_state = "ACCEPTED" }),
          )

      fire_in-timers :
          (timers : List OneShot) (j : ℕ) (available : Bool) (now : ℕ) (n : Node R)
          → (fire_in d p timers j available now n).one_shot_timers ≡ n.one_shot_timers
      unfolding fire_in run_one_shot on_grasped on_placed navigate_to_goods_destination
          publish_task_event put reset_task
      fire_in-timers [] j available now n = refl
      fire_in-timers (grasped ∷ rest) zero available now n = send-timers available _ n.nav_client _
      fire_in-timers (placed ∷ rest) zero available now n = placed-timers now n
      fire_in-timers (timer ∷ rest) (suc j) available now n = fire_in-timers rest j available now n

      step-HasTimer :
          (now : ℕ) (e : Event R) (n : Node R) → HasTimer n → HasTimer (step d p now e n)
      unfolding step fire_timer on_goal_response on_goal_status on_robot_pose
          publish_periodic_task_status publish_robot_status publish_component_status
          publish_task_event put
      step-HasTimer now (task_command cmd) n h = command-HasTimer p now cmd n h
      step-HasTimer now (map_info ready zones stations) n h =
          map_info-HasTimer ready zones stations n h
      step-HasTimer now (edge_status online) n h = h
      step-HasTimer now (goal_response none) n h = h
      step-HasTimer now (goal_response (some status)) n h = h
      step-HasTimer now (goal_status status) n h = h
      step-HasTimer now (navigation_result code) n h = result-HasTimer now (is_success code) n h
      step-HasTimer now (robot_pose pose) n h = h
      step-HasTimer now (one_shot_timer j available) n h =
          HasTimer-of_eq n (fire_in d p n.one_shot_timers j available now n)
            (fire_in-timers n.one_shot_timers j available now n) h
      step-HasTimer now task_status_timer n h = ground arith
      step-HasTimer now robot_status_timer n h = h

      run_from-HasTimer :
          (events : List (ℕ × Event R)) (n : Node R) → HasTimer n → HasTimer (run_from d p n events)
      unfolding run_from
      run_from-HasTimer [] n h = h
      run_from-HasTimer ((now, e) ∷ rest) n h =
          run_from-HasTimer rest (step d p now e n) (step-HasTimer now e n h)

      run_one_shot-state :
          (timers : List OneShot) (j : ℕ) (available : Bool) (now : ℕ) (n : Node R)
          → get_elem? timers j ≡ some grasped
          → (fire_in d p timers j available now n).task_state ≡ "TRANSPORTING"
      unfolding fire_in run_one_shot on_grasped navigate_to_goods_destination publish_task_event put
          send_when_ready
      run_one_shot-state [] j available now n h = cc
      run_one_shot-state (grasped ∷ rest) zero available now n h = ground arith
      run_one_shot-state (placed ∷ rest) zero available now n h = cc
      run_one_shot-state (timer ∷ rest) (suc j) available now n h =
          run_one_shot-state rest j available now n h

  response_sets :
      (p : Parameters) (now : ℕ) (cmd : TaskCommand) (n : Node R)
      → cmd.command_type ≡ "GOODS_RESPONSE"
      → cmd.task_id ≡ n.current_task_id
      → cmd.accepted ≡ true
      → n.waiting_goods_response ≡ true
      → HasTimer (length n.one_shot_timers) grasped (handle_task_command p now cmd n)
  unfolding handle_task_command handle_goods_response begin_grasp_then_navigate publish_task_event
      put
  response_sets p now cmd n kind task accepted waiting =
      rw kind
        (rw (task, eq_refl, waiting, accepted) (get_elem?-length n.one_shot_timers grasped []))

module _ {R : Type 0} (d : Doubles R) (p : Parameters) where
  -- Once a response to a request for goods was accepted, its grasp timer stays: after any further
  -- callbacks, also when the carry is over, the task was cancelled, or another one was assigned,
  -- the timer fires and turns the state of the node to TRANSPORTING.
  pub grasp_timer_stays :
      (now : ℕ) (cmd : TaskCommand) (n : Node R) (events : List (ℕ × Event R)) (later : ℕ)
      (available : Bool)
      → cmd.command_type ≡ "GOODS_RESPONSE"
      → cmd.task_id ≡ n.current_task_id
      → cmd.accepted ≡ true
      → n.waiting_goods_response ≡ true
      → (step d p later
          (one_shot_timer (length n.one_shot_timers) available)
          (run_from d p (step d p now (task_command cmd) n) events)).task_state
        ≡ "TRANSPORTING"
  unfolding step fire_timer
  grasp_timer_stays now cmd n events later available kind task accepted waiting =
      let i = length n.one_shot_timers in
      let m = run_from d p (step d p now (task_command cmd) n) events in
      run_one_shot-state i grasped d p m.one_shot_timers i available later m (
        run_from-HasTimer i grasped d p events (step d p now (task_command cmd) n)
          (response_sets p now cmd n kind task accepted waiting))
