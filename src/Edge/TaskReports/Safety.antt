-- ===== src/Edge/TaskReports/Safety.antt =====
-- The handlers of AMR messages and stable properties of the tables
-- (edge_server/src/service/task_service.cpp).
use amr_warehouse_collaborat.Prelude.{String, List, [], ◌∷◌, arith}
use amr_warehouse_collaborat.Edge.Types.{TaskGoods, AmrTaskStatusEvent, GoodsApplyRequest}
use amr_warehouse_collaborat.Edge.Schema.{Tables}
use amr_warehouse_collaborat.Edge.Sql.{Connection}
use amr_warehouse_collaborat.Edge.Sql.Keeps.{IsSafe, Atomic-IsSafe, SameTables-IsSafe}
use amr_warehouse_collaborat.Edge.TaskStore.{
  get_task, update_task_state_with_event, set_state_with_event, insert_amr_task_status_event,
  record_amr_event, get_task_goods_status,
}
use amr_warehouse_collaborat.Edge.TaskStore.Ledger.{
  get_task-SameTables, set_state_with_event-Atomic, record_amr_event-Atomic,
  get_task_goods_status-SameTables,
}
use amr_warehouse_collaborat.Edge.Allocations.{approve_goods_allocation}
use amr_warehouse_collaborat.Edge.Allocations.Atomicity.{approve-Atomic, settle-Atomic}
use amr_warehouse_collaborat.Edge.Stable.{IsStable}
use amr_warehouse_collaborat.Edge.TaskReports.{
  approve_all, start_running, apply_to_task, handle_goods_apply, settle_state, settle_carry,
  accept_pending, accept_task, finish_when_done, finish_found, finish_task, handle_amr_task_status,
  mark_task_interrupted,
}

module _ (P : Tables → Type 0) (k : IsStable P) where
  abbrev Safe : Connection Tables → Type 0
  Safe = IsSafe P

  get_task-IsSafe :
      (task_id : String) (c : Connection Tables) → Safe c → Safe (get_task task_id c).1
  get_task-IsSafe task_id c = SameTables-IsSafe P c _ (get_task-SameTables task_id c)

  with_event-IsSafe :
      (task_id state reason source : String) (c : Connection Tables)
      → Safe c
      → Safe (update_task_state_with_event task_id state reason source c).1
  unfolding update_task_state_with_event
  with_event-IsSafe task_id state reason source c =
      Atomic-IsSafe P _ (set_state_with_event task_id state reason source c.clock)
        (set_state_with_event-Atomic task_id state reason source c.clock)
        (k.sets_state_with_event task_id state reason source c.clock) c

  approve_all-IsSafe :
      (now : String) (request : GoodsApplyRequest) (goods : List TaskGoods) (c : Connection Tables)
      → Safe c
      → Safe (approve_all now request goods c).1
  unfolding approve_all
  approve_all-IsSafe now request [] c v = v
  approve_all-IsSafe now request (g ∷ rest) c v = ground (
    arith,
    first,
    approve_all-IsSafe now request rest
        (approve_goods_allocation request.request_id request.task_id g.goods_id request.robot_id
          g.total_quantity now c).1,
  )
    where
      first :
          Safe
            (approve_goods_allocation request.request_id request.task_id g.goods_id request.robot_id
              g.total_quantity now c).1
      first =
          Atomic-IsSafe P _ _
            (approve-Atomic request.request_id request.task_id g.goods_id request.robot_id
              g.total_quantity now)
            (k.approves request.request_id request.task_id g.goods_id request.robot_id
              g.total_quantity now)
            c v

  pub handle_goods_apply-IsSafe :
      (now : String) (request : GoodsApplyRequest) (c : Connection Tables)
      → Safe c
      → Safe (handle_goods_apply now request c).1
  unfolding handle_goods_apply apply_to_task start_running
  handle_goods_apply-IsSafe now request c v =
      let c' = (get_task request.task_id c).1 in
      let approvals = approve_all now request request.goods c' in
      ground (
        arith,
        get_task-IsSafe request.task_id c,
        approve_all-IsSafe now request request.goods c',
        with_event-IsSafe request.task_id "RUNNING" "first goods approved" "EDGE" approvals.1,
      )

  settle_carry-IsSafe :
      (e : AmrTaskStatusEvent) (c : Connection Tables) → Safe c → Safe (settle_carry e c).1
  unfolding settle_carry
  settle_carry-IsSafe e c v = ground (
    arith,
    Atomic-IsSafe P _ _
        (settle-Atomic e.request_id e.robot_id (settle_state e.event_type) e.timestamp)
        (k.settles e.request_id e.robot_id (settle_state e.event_type) e.timestamp) c v,
  )

  accept_task-IsSafe :
      (e : AmrTaskStatusEvent) (c : Connection Tables) → Safe c → Safe (accept_task e c)
  unfolding accept_task accept_pending
  accept_task-IsSafe e c v = ground (
    arith,
    get_task-IsSafe e.task_id c,
    with_event-IsSafe e.task_id "ACCEPTED" "first AMR accepted" "AMR" (get_task e.task_id c).1,
  )

  finish_task-IsSafe :
      (e : AmrTaskStatusEvent) (c : Connection Tables) → Safe c → Safe (finish_task e c)
  unfolding finish_task finish_found finish_when_done
  finish_task-IsSafe e c v =
      let c' = (get_task e.task_id c).1 in
      let c'' = (get_task_goods_status e.task_id c').1 in
      ground (
        arith,
        get_task-IsSafe e.task_id c,
        SameTables-IsSafe P c' c'' (get_task_goods_status-SameTables e.task_id c'),
        with_event-IsSafe e.task_id "SUCCEEDED" "all goods completed" "AMR" c'',
      )

  insert_event-IsSafe :
      (e : AmrTaskStatusEvent) (c : Connection Tables)
      → Safe c
      → Safe (insert_amr_task_status_event e c).1
  unfolding insert_amr_task_status_event
  insert_event-IsSafe e c =
      Atomic-IsSafe P _ (record_amr_event e c.clock) (record_amr_event-Atomic e c.clock)
        (k.records_event e c.clock) c

  pub handle_amr_task_status-IsSafe :
      (e : AmrTaskStatusEvent) (c : Connection Tables)
      → Safe c
      → Safe (handle_amr_task_status e c).1
  unfolding handle_amr_task_status
  handle_amr_task_status-IsSafe e c v =
      let c₁ = (insert_amr_task_status_event e c).1 in
      let c₂ = (settle_carry e c₁).1 in
      ground (
        arith,
        insert_event-IsSafe e c,
        settle_carry-IsSafe e c₁,
        accept_task-IsSafe e c₂,
        finish_task-IsSafe e (accept_task e c₂),
      )

  pub mark_task_interrupted-IsSafe :
      (task_id reason : String) (c : Connection Tables)
      → Safe c
      → Safe (mark_task_interrupted task_id reason c).1
  unfolding mark_task_interrupted
  mark_task_interrupted-IsSafe task_id reason =
      with_event-IsSafe task_id "INTERRUPTED" reason "TIMEOUT"
