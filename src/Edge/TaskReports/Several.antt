-- ===== src/Edge/TaskReports/Several.antt =====
-- The approvals of one application for goods, and what becomes of an application for several kinds
-- (handleGoodsApply of edge_server/src/service/task_service.cpp).
use amr_warehouse_collaborat.Edge.Sql.{quiet}
use amr_warehouse_collaborat.Prelude.{
  ◌≡◌, refl, ap, String, Bool, true, false, Option, List, ◌∷◌, arith,
}
use amr_warehouse_collaborat.Edge.Types.{TaskGoods, GoodsApplyRequest}
use amr_warehouse_collaborat.Edge.Schema.{Tables}
use amr_warehouse_collaborat.Edge.Sql.{Connection}
use amr_warehouse_collaborat.Edge.Sql.Transactions.{Atomic}
use amr_warehouse_collaborat.Edge.TaskStore.{get_task}
use amr_warehouse_collaborat.Edge.TaskStore.Ledger.{get_task-SameTables}
use amr_warehouse_collaborat.Edge.Allocations.{approve_goods_allocation, approve_tables}
use amr_warehouse_collaborat.Edge.Allocations.Atomicity.{approve-Atomic}
use amr_warehouse_collaborat.Edge.Allocations.Exclusion.{approve_once}
use amr_warehouse_collaborat.Edge.TaskReports.{
  approve_all, apply_to_task, handle_goods_apply, refused,
}

module _ (now : String) (request : GoodsApplyRequest) where
  abbrev pub approve_one : TaskGoods → Connection Tables → Bool × Connection Tables
  approve_one g =
      approve_goods_allocation request.request_id request.task_id g.goods_id request.robot_id
        g.total_quantity now

  abbrev pub one_tables : TaskGoods → Tables → Option Tables
  one_tables g =
      approve_tables request.request_id request.task_id g.goods_id request.robot_id g.total_quantity
        now

  pub one-Atomic : (g : TaskGoods) → Atomic (one_tables g) (approve_one g)
  one-Atomic g =
      approve-Atomic request.request_id request.task_id g.goods_id request.robot_id g.total_quantity
        now

  -- The second approval of a request meets UNIQUE(request_id, robot_id).
  second_fails :
      (g h : TaskGoods) (c : Connection Tables)
      → c.saved ≡ quiet
      → (approve_one g c).0 ≡ true
      → (approve_one h (approve_one g c).1).0 ≡ false
  second_fails g h c e k =
      approve_once request.request_id request.robot_id request.task_id g.goods_id request.task_id
        h.goods_id g.total_quantity h.total_quantity now now c (approve_one g c).1 e
        ((one-Atomic g).closed c e) k refl

  pub several_fail :
      (g h : TaskGoods) (rest : List TaskGoods) (c : Connection Tables)
      → c.saved ≡ quiet
      → (approve_all now request (g ∷ h ∷ rest) c).0 ≡ false
  unfolding approve_all
  several_fail g h rest c e = ground (arith, second_fails g h c e)

  pub several_tables :
      (g h : TaskGoods) (rest : List TaskGoods) (c : Connection Tables)
      → c.saved ≡ quiet
      → (approve_one g c).0 ≡ true
      → (approve_all now request (g ∷ h ∷ rest) c).1.tables ≡ (approve_one g c).1.tables
  unfolding approve_all
  several_tables g h rest c e k = ground (
    arith,
    second_fails g h c e k,
    (one-Atomic g).closed c e,
    (one-Atomic h).undone (approve_one g c).1,
  )

  -- An application for two or more kinds of goods is never accepted, whatever the tables hold and
  -- whichever calls fail: its second allocation has the key (request_id, robot_id) of its first.
  pub several_goods_refused :
      (g h : TaskGoods) (rest : List TaskGoods) (c : Connection Tables)
      → request.goods ≡ g ∷ h ∷ rest
      → c.saved ≡ quiet
      → (handle_goods_apply now request c).0.accepted ≡ false
  unfolding handle_goods_apply apply_to_task refused
  several_goods_refused g h rest c e f =
      let d = (get_task request.task_id c).1 in
      ground (
        arith,
        get_task-SameTables request.task_id c,
        several_fail g h rest d,
        ap (λ (l : List TaskGoods). (approve_all now request l d).0) e,
      )
