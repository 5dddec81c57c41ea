-- ===== src/Amr/Behavior/Requests.antt =====
-- How the behaviour manager asks for the next goods: makeGoods, makeRequestId and
-- maybeRequestNextGoods of robot_ws/src/amr_behavior_manager/src/amr_behavior_manager_node.cpp.
use amr_warehouse_collaborat.Prelude.{
  ℕ, ℤ, pos, leb_ℤ, String, ◌==◌, is_blank, Bool, true, not, ◌&&◌, ◌||◌, Option, none, some, List,
  [], ◌∷◌, if◌then◌else◌,
}
use amr_warehouse_collaborat.Amr.Messages.{TaskGoods, TaskGoodsStatus}
use amr_warehouse_collaborat.Amr.Behavior.State.{
  Parameters, Node, publish_task_event, make_request_id,
}

unfoldable pub make_goods : String → String → ℤ → TaskGoods
make_goods goods_id goods_name quantity = record {
  goods_id = goods_id;
  goods_name = goods_name;
  total_quantity = quantity;
}

abbrev pub min_ℤ : ℤ → ℤ → ℤ
min_ℤ a b = if leb_ℤ a b then a else b

-- The loop of maybeRequestNextGoods: the first goods that are pending.
unfoldable pub first_pending : List TaskGoodsStatus → Option TaskGoodsStatus
first_pending [] = none
first_pending (status ∷ rest) =
    if leb_ℤ status.pending_quantity (pos 0) then first_pending rest else some status

module _ {R : Type 0} where
  unfoldable pub request_goods : ℕ → ℤ → TaskGoodsStatus → Node R → Node R
  unfolding publish_task_event make_goods
  request_goods now capacity status n =
      let request_id = make_request_id now n in
      let asked =
        publish_task_event now "GOODS_REQUEST" "ACCEPTED"
          (make_goods status.goods_id status.goods_name (min_ℤ status.pending_quantity capacity)
            ∷ [])
          request_id "" (record n { request_id = request_id }) in
      record asked { waiting_goods_response = true }

  unfoldable pub request_pending : ℕ → ℤ → Option TaskGoodsStatus → Node R → Node R
  unfolding request_goods
  request_pending now capacity none n = n
  request_pending now capacity (some status) n = request_goods now capacity status n

  unfoldable pub may_request : Node R → Bool
  may_request n =
      n.edge_online
      && n.map_ready
      && not
          (n.task_state == "CANCELLED" || n.task_state == "INTERRUPTED" || n.waiting_goods_response)
      && not (is_blank n.current_task_id)

  unfoldable pub maybe_request_next_goods : Parameters → ℕ → Node R → Node R
  unfolding may_request request_pending first_pending
  maybe_request_next_goods p now n =
      if may_request n
      then (if leb_ℤ p.carry_capacity (pos 0)
          then n
          else request_pending now p.carry_capacity (first_pending n.goods_status) n)
      else n
