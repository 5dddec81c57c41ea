-- ===== src/Amr/Behavior/Carries.antt =====
-- The way of a carry through grasping, navigation and placing in
-- robot_ws/src/amr_behavior_manager/src/amr_behavior_manager_node.cpp, and how navigation_client.cpp
-- sends a goal. create_wall_timer makes a timer that fires again and again until it is cancelled,
-- and nothing cancels those of `m_one_shot_timers`.
use amr_warehouse_collaborat.Prelude.{
  ℕ, zero, suc, String, ◌==◌, Bool, Option, none, some, List, [], ◌∷◌, ◌++◌, if◌then◌else◌,
}
use amr_warehouse_collaborat.Amr.Messages.{TaskGoods}
use amr_warehouse_collaborat.Amr.GoodsPoints.{LocationInfo, ZoneStationLoader, resolve}
use amr_warehouse_collaborat.Amr.Behavior.State.{
  Doubles, Parameters, GoalPose, NavigationClient, OneShot, grasped, placed, send_goal, Node, put,
  publish_task_event, reset_task,
}
use amr_warehouse_collaborat.Amr.Behavior.Requests.{maybe_request_next_goods}

module _ {R : Type 0} where
  unfoldable pub on_navigation_result : ℕ → Bool → Node R → Node R
  unfolding publish_task_event
  on_navigation_result now success n =
      if n.task_state == "TRANSPORTING"
      then (if success
          then (let m =
                publish_task_event now "STATUS" "PLACING" n.current_goods "" ""
                  (record n { task_state = "PLACING" }) in
              record m { one_shot_timers = m.one_shot_timers ++ placed ∷ [] })
          else publish_task_event now "CARRY_ABORTED" "INTERRUPTED" n.current_goods ""
              "NAVIGATION_FAILED" (record n { task_state = "INTERRUPTED" }))
      else n

  -- `available` is what waitForActionServer returns.
  unfoldable pub send_when_ready : Bool → GoalPose R → Option (NavigationClient R) → Node R → Node R
  unfolding put
  send_when_ready available goal none n = n
  send_when_ready available goal (some client) n = if available then put (send_goal goal) n else n

module _ {R : Type 0} (d : Doubles R) (p : Parameters) where
  unfoldable pub default_goal : GoalPose R
  default_goal = record { x = d.nought; y = d.nought; z = d.nought; w = d.one }

  unfoldable pub goal_at : Option (LocationInfo R) → GoalPose R
  unfolding default_goal
  goal_at none = default_goal
  goal_at (some location) = record {
    x = location.x;
    y = location.y;
    z = d.sin (d.half location.yaw);
    w = d.cos (d.half location.yaw);
  }

  -- The goal for the first of the goods that are carried.
  unfoldable pub goal_for : List TaskGoods → Option (ZoneStationLoader R) → String → GoalPose R
  unfolding default_goal goal_at
  goal_for [] resolver task_type = default_goal
  goal_for (goods ∷ rest) resolver task_type = goal_at (resolve resolver goods.goods_id task_type)

  unfoldable pub navigate_to_goods_destination : Bool → Node R → Node R
  unfolding goal_for send_when_ready
  navigate_to_goods_destination available n =
      send_when_ready available
        (goal_for n.current_goods n.goods_point_resolver n.current_task_type) n.nav_client n

  unfoldable pub on_grasped : Bool → ℕ → Node R → Node R
  unfolding publish_task_event
  on_grasped available now n = navigate_to_goods_destination available (
      publish_task_event now "STATUS" "TRANSPORTING" n.current_goods "" ""
        (record n { task_state = "TRANSPORTING" }))

  unfoldable pub on_placed : ℕ → Node R → Node R
  unfolding publish_task_event reset_task maybe_request_next_goods
  on_placed now n =
      let m =
        record (publish_task_event now "CARRY_COMPLETED" "TRANSPORTING" n.current_goods "" "" n) {
          current_goods = [];
        } in
      if m.edge_online
      then maybe_request_next_goods p now (record m { task_state = "ACCEPTED" })
      else reset_task (record m { task_state = "IDLE" })

  unfoldable pub run_one_shot : Bool → ℕ → OneShot → Node R → Node R
  unfolding on_grasped on_placed
  run_one_shot available now grasped n = on_grasped available now n
  run_one_shot available now placed n = on_placed now n

  unfoldable pub fire_in : List OneShot → ℕ → Bool → ℕ → Node R → Node R
  unfolding run_one_shot
  fire_in [] i available now n = n
  fire_in (timer ∷ rest) zero available now n = run_one_shot available now timer n
  fire_in (timer ∷ rest) (suc i) available now n = fire_in rest i available now n

  -- The `i`-th of the timers fires, and stays.
  unfoldable pub fire_timer : ℕ → Bool → ℕ → Node R → Node R
  unfolding fire_in
  fire_timer i available now n = fire_in n.one_shot_timers i available now n
