-- ===== src/Amr/Behavior/Cycle.antt =====
-- The cycle of one carry, from the response to the request for goods to the next request
-- (robot_ws/src/amr_behavior_manager/src/amr_behavior_manager_node.cpp).
use Prim.Native.String.{◌++◌ as append}
use amr_warehouse_collaborat.Prelude.{
  pos, leb_ℤ, not, is_blank, find, arith, ℕ, String, eq_refl, Bool, true, false, ◌≡◌, refl, ap, ◌∙◌,
  some, List, [], ◌∷◌, ◌++◌, length, if◌then◌else◌,
}
use amr_warehouse_collaborat.Amr.Messages.{TaskGoodsStatus, TaskCommand, TaskEvent}
use amr_warehouse_collaborat.Amr.Behavior.State.{
  decimal, make_request_id, Doubles, Parameters, GoalPose, NavigationClient, OneShot, grasped,
  placed, task_event, send_goal, result_succeeded, Node, event_of, put, publish_task_event,
  reset_task,
}
use amr_warehouse_collaborat.Amr.Behavior.Requests.{
  make_goods, first_pending, request_goods, request_pending, may_request, maybe_request_next_goods,
}
use amr_warehouse_collaborat.Amr.Behavior.Commands.{
  handle_task_command, handle_goods_response, begin_grasp_then_navigate,
}
use amr_warehouse_collaborat.Amr.Behavior.Carries.{
  goal_for, send_when_ready, navigate_to_goods_destination, on_grasped, on_placed,
  on_navigation_result, run_one_shot, fire_in, fire_timer,
}
use amr_warehouse_collaborat.Amr.Behavior.Callbacks.{
  Event, task_command, navigation_result, one_shot_timer, is_success, step, run_from,
}

first_pending_lem :
    (statuses : List TaskGoodsStatus) (status : TaskGoodsStatus)
    → find (λ s. not (leb_ℤ s.pending_quantity (pos 0))) statuses ≡ some status
    → first_pending statuses ≡ some status
unfolding first_pending
first_pending_lem [] status h = absurd (ground (arith, h))
first_pending_lem (s ∷ statuses) status h = ground (arith, h, first_pending_lem statuses status)

module _ {R : Type 0} (d : Doubles R) (p : Parameters) where
  fire_in-append :
      (older : List OneShot) (timer : OneShot) (newer : List OneShot) (available : Bool) (now : ℕ)
      (n : Node R)
      → fire_in d p (older ++ timer ∷ newer) (length older) available now n
        ≡ run_one_shot d p available now timer n
  unfolding fire_in
  fire_in-append [] timer newer available now n = refl
  fire_in-append (t ∷ older) timer newer available now n =
      fire_in-append older timer newer available now n

  response_lem :
      (now : ℕ) (cmd : TaskCommand) (n : Node R)
      → cmd.command_type ≡ "GOODS_RESPONSE"
      → cmd.task_id ≡ n.current_task_id
      → cmd.accepted ≡ true
      → n.waiting_goods_response ≡ true
      → step d p now (task_command cmd) n
        ≡ begin_grasp_then_navigate now
            (record n { waiting_goods_response = false; current_goods = cmd.goods })
  unfolding step handle_task_command handle_goods_response
  response_lem now cmd n kind task accepted waiting =
      rw kind (rw (task, eq_refl, waiting, accepted))

  -- The goal of a node that carries these goods.
  abbrev goal : Node R → GoalPose R
  goal n = goal_for d p n.current_goods n.goods_point_resolver n.current_task_type

  grasped_lem :
      (now : ℕ) (n : Node R) (older : List OneShot) {client : NavigationClient R}
      → n.one_shot_timers ≡ older ++ grasped ∷ []
      → n.nav_client ≡ some client
      → step d p now (one_shot_timer (length older) true) n
        ≡ put (send_goal (goal n)) (
            publish_task_event now "STATUS" "TRANSPORTING" n.current_goods "" ""
              (record n { task_state = "TRANSPORTING" }))
  unfolding step fire_timer run_one_shot on_grasped navigate_to_goods_destination publish_task_event
      put send_when_ready
  grasped_lem now n older timers ready =
      ap (λ t. fire_in d p t (length older) true now n) timers
      ∙ fire_in-append older grasped [] true now n
      ∙ ap
          (λ client. send_when_ready true (goal n) client (
            publish_task_event now "STATUS" "TRANSPORTING" n.current_goods "" ""
              (record n { task_state = "TRANSPORTING" })))
          ready

  placed_lem :
      (now : ℕ) (n : Node R) (older : List OneShot) (available : Bool)
      → n.one_shot_timers ≡ older ++ placed ∷ []
      → step d p now (one_shot_timer (length older) available) n ≡ on_placed d p now n
  unfolding step fire_timer run_one_shot
  placed_lem now n older available timers =
      ap (λ t. fire_in d p t (length older) available now n) timers
      ∙ fire_in-append older placed [] available now n

  module _ (n : Node R) (cmd : TaskCommand) (t₁ t₂ t₃ t₄ : ℕ) where
    abbrev told : ℕ → String → String → TaskEvent
    told now event_type state = event_of now event_type state cmd.goods "" "" n

    -- The node after the four callbacks of a carry, but for what it does next.
    abbrev pub carried : Node R
    carried = record n {
      waiting_goods_response = false;
      current_goods = [];
      one_shot_timers = (n.one_shot_timers ++ grasped ∷ []) ++ placed ∷ [];
      outputs =
          ((((n.outputs ++ task_event (told t₁ "STATUS" "GRASPING") ∷ [])
                ++ task_event (told t₂ "STATUS" "TRANSPORTING") ∷ [])
              ++ send_goal (goal_for d p cmd.goods n.goods_point_resolver n.current_task_type) ∷ [])
            ++ task_event (told t₃ "STATUS" "PLACING") ∷ [])
          ++ task_event (told t₄ "CARRY_COMPLETED" "TRANSPORTING") ∷ [];
    }

    -- The response, the grasp timer, the end of the navigation, and the place timer.
    abbrev pub four_callbacks : List (ℕ × Event R)
    four_callbacks =
        (t₁, task_command cmd)
        ∷ (t₂, one_shot_timer (length n.one_shot_timers) true)
        ∷ (t₃, navigation_result result_succeeded)
        ∷ (t₄, one_shot_timer (length (n.one_shot_timers ++ grasped ∷ [])) true)
        ∷ []

    -- What the node does after the carry is left to maybeRequestNextGoods or resetTask here.
    carry_ends :
        {client : NavigationClient R}
        → n.nav_client ≡ some client
        → n.waiting_goods_response ≡ true
        → cmd.command_type ≡ "GOODS_RESPONSE"
        → cmd.task_id ≡ n.current_task_id
        → cmd.accepted ≡ true
        → run_from d p n four_callbacks ≡ (
            if n.edge_online
            then maybe_request_next_goods p t₄ (record carried { task_state = "ACCEPTED" })
            else reset_task (record carried { task_state = "IDLE" }))
    unfolding run_from begin_grasp_then_navigate publish_task_event put event_of step is_success
        on_navigation_result on_placed
    carry_ends ready waiting kind task accepted =
        let grasping =
          begin_grasp_then_navigate t₁
            (record n { waiting_goods_response = false; current_goods = cmd.goods }) in
        ap (λ m. place (arrive (grasp m))) (response_lem t₁ cmd n kind task accepted waiting)
        ∙ ap (λ m. place (arrive m)) (grasped_lem t₂ grasping n.one_shot_timers refl ready)
        ∙ placed_lem t₄ _ (n.one_shot_timers ++ grasped ∷ []) true refl
      where
        grasp : Node R → Node R
        grasp = step d p t₂ (one_shot_timer (length n.one_shot_timers) true)

        arrive : Node R → Node R
        arrive = step d p t₃ (navigation_result result_succeeded)

        place : Node R → Node R
        place = step d p t₄ (one_shot_timer (length (n.one_shot_timers ++ grasped ∷ [])) true)

    -- A node that waits for the response to its request carries the goods through: after a
    -- response that accepts, the grasp timer with an action server that is there, the success of
    -- the navigation, and the place timer, it has told GRASPING, TRANSPORTING, PLACING and
    -- CARRY_COMPLETED in this order, each with the goods of the response, has sent one goal
    -- between the second and the third, and carries nothing. When the edge server is online, the
    -- map is ready, the robot can carry something and some goods of the task are pending, it then
    -- asks for the first of these, for what is pending and at most what it can carry, and waits for
    -- the response in the state ACCEPTED; the request has an id of the task and the time.
    pub carry_completes :
        {client : NavigationClient R} (status : TaskGoodsStatus)
        → n.nav_client ≡ some client
        → n.waiting_goods_response ≡ true
        → cmd.command_type ≡ "GOODS_RESPONSE"
        → cmd.task_id ≡ n.current_task_id
        → cmd.accepted ≡ true
        → n.edge_online ≡ true
        → n.map_ready ≡ true
        → is_blank n.current_task_id ≡ false
        → leb_ℤ p.carry_capacity (pos 0) ≡ false
        → find (λ s. not (leb_ℤ s.pending_quantity (pos 0))) n.goods_status ≡ some status
        → let request_id = append n.current_task_id (append "_" (decimal t₄)) in
          let quantity =
            if leb_ℤ status.pending_quantity p.carry_capacity
            then status.pending_quantity
            else p.carry_capacity in
          run_from d p n four_callbacks ≡ record carried {
            task_state = "ACCEPTED";
            request_id = request_id;
            waiting_goods_response = true;
            outputs =
                carried.outputs
                ++ task_event (
                    event_of t₄ "GOODS_REQUEST" "ACCEPTED"
                      (record {
                        goods_id = status.goods_id;
                        goods_name = status.goods_name;
                        total_quantity = quantity;
                      }
                        ∷ [])
                      request_id
                      ""
                      n)
                  ∷ [];
          }
    unfolding maybe_request_next_goods may_request request_pending request_goods make_goods
        publish_task_event put event_of make_request_id
    carry_completes status ready waiting kind task accepted online mapped named able pending =
        carry_ends ready waiting kind task accepted
        ∙ rw (online, mapped, named, able, first_pending_lem n.goods_status status pending) refl
