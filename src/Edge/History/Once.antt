-- ===== src/Edge/History/Once.antt =====
-- A goods application that is sent again (edge_server/src/service/task_service.cpp).
use amr_warehouse_collaborat.Edge.Sql.{quiet}
use amr_warehouse_collaborat.Prelude.{
  ◌≡◌, refl, ap, ◌∙◌, String, ◌==◌, Bool, true, false, ◌&&◌, List, [], ◌∷◌, any, any-append,
  is_empty, arith, Bool-cases, inl, inr,
}
use amr_warehouse_collaborat.Edge.Types.{TaskGoods, GoodsApplyRequest}
use amr_warehouse_collaborat.Edge.Rows.{change_rows}
use amr_warehouse_collaborat.Edge.Rows.Laws.{any-change_rows}
use amr_warehouse_collaborat.Edge.Schema.{Tables, AllocationRow, allocation_clash}
use amr_warehouse_collaborat.Edge.Sql.{Connection}
use amr_warehouse_collaborat.Edge.Sql.Keeps.{IsSafe, SameTables-IsSafe}
use amr_warehouse_collaborat.Edge.Stable.{IsStable}
use amr_warehouse_collaborat.Edge.Allocations.{
  is_active, settle, new_allocation, approve_goods_allocation,
}
use amr_warehouse_collaborat.Edge.Allocations.Atomicity.{approve-Atomic}
use amr_warehouse_collaborat.Edge.Allocations.Approval.{approve_tables-Approved}
use amr_warehouse_collaborat.Edge.Allocations.Settled.{settle_tables-Settled}
use amr_warehouse_collaborat.Edge.TaskCreation.Appends.{create_tables-AddsStatuses}
use amr_warehouse_collaborat.Edge.TaskStore.{get_task}
use amr_warehouse_collaborat.Edge.TaskStore.Ledger.{
  get_task-SameTables, set_state-inv, state_event-inv, insert_amr_event-inv,
}
use amr_warehouse_collaborat.Edge.TaskService.{Service}
use amr_warehouse_collaborat.Edge.TaskReports.{
  approve_all, apply_to_task, handle_goods_apply, refused,
}
use amr_warehouse_collaborat.Edge.History.{Call, run_history}
use amr_warehouse_collaborat.Edge.History.Safety.{run_history-IsSafe}

module _ (request_id robot_id : String) where
  abbrev is_of : AllocationRow → Bool
  is_of x = x.request_id == request_id && x.robot_id == robot_id

  -- There is an allocation for this request of this robot.
  abbrev pub IsTaken : Tables → Type 0
  IsTaken t = any is_of t.allocations ≡ true

  same-IsTaken : (t t' : Tables) → t'.allocations ≡ t.allocations → IsTaken t → IsTaken t'
  same-IsTaken t t' e h = ap (any is_of) e ∙ h

  still_taken :
      (request robot state now : String) (rows : List AllocationRow)
      → any is_of (change_rows (is_active request robot) (settle state now) rows) ≡ any is_of rows
  unfolding settle
  still_taken request robot state now rows =
      any-change_rows is_of (is_active request robot) (settle state now) rows (λ x. refl)

  IsTaken-IsStable : IsStable IsTaken
  IsTaken-IsStable = record {
    creates =
        λ task t t' v h. same-IsTaken t t' (create_tables-AddsStatuses task t t' h).allocations v;
    approves = λ request task goods robot quantity now t t' v h.
        let done = approve_tables-Approved request task goods robot quantity now t t' h in
        ground (
          arith,
          ap (any is_of) done.allocations,
          v,
          any-append is_of t.allocations
              (new_allocation request task goods robot quantity now ∷ []),
        );
    settles = λ request robot state now t t' v h.
        let (b, done) = settle_tables-Settled request robot state now t t' h in
        ap (any is_of) done.allocations ∙ still_taken request robot state now t.allocations ∙ v;
    sets_state = λ task state reason now t t' v h.
        same-IsTaken t t' (set_state-inv task state reason now t t' h).0.1 v;
    sets_state_with_event = λ task state reason source now t t' v h.
        same-IsTaken t t' (state_event-inv task state reason source now t t' h).0.1 v;
    records_event = λ e now t t' v h. same-IsTaken t t' (insert_amr_event-inv e now t t' h).0.1 v;
  }

module _ (now : String) (request : GoodsApplyRequest) where
  approval_fails :
      (g : TaskGoods) (c : Connection Tables)
      → IsSafe (IsTaken request.request_id request.robot_id) c
      → (approve_goods_allocation request.request_id request.task_id g.goods_id request.robot_id
          g.total_quantity now c).0
        ≡ false
  unfolding new_allocation allocation_clash
  approval_fails g c v =
      let m =
        approve_goods_allocation request.request_id request.task_id g.goods_id request.robot_id
          g.total_quantity now in
      elim (Bool-cases (m c).0) [
        | inr failed ↦ failed
        | inl good ↦ absurd (
            ground (
              arith,
              v.holds,
              (approve_tables-Approved request.request_id request.task_id g.goods_id
                  request.robot_id g.total_quantity now c.tables (m c).1.tables
                  ((approve-Atomic request.request_id request.task_id g.goods_id request.robot_id
                      g.total_quantity now).committed
                    c v.closed good)).unused,
            ))
      ]

  -- A failed approval changes no table.
  approval_keeps :
      (g : TaskGoods) (c : Connection Tables)
      → IsSafe (IsTaken request.request_id request.robot_id) c
      → (approve_goods_allocation request.request_id request.task_id g.goods_id request.robot_id
          g.total_quantity now c).1.tables
        ≡ c.tables
  approval_keeps g c v =
      (approve-Atomic request.request_id request.task_id g.goods_id request.robot_id
          g.total_quantity now).undone
        c v.closed (approval_fails g c v)

  none_reserved :
      (goods : List TaskGoods) (c : Connection Tables)
      → IsSafe (IsTaken request.request_id request.robot_id) c
      → (approve_all now request goods c).1.tables ≡ c.tables
  unfolding approve_all
  none_reserved [] c v = refl
  none_reserved (g ∷ rest) c v = ground (arith, approval_fails g c v, approval_keeps g c v)

  none_accepted :
      (goods : List TaskGoods) (c : Connection Tables)
      → IsSafe (IsTaken request.request_id request.robot_id) c
      → is_empty goods ≡ false
      → (approve_all now request goods c).0 ≡ false
  unfolding approve_all
  none_accepted [] c v h = absurd (ground arith)
  none_accepted (g ∷ rest) c v h = ground (arith, approval_fails g c v)

  not_accepted :
      (c : Connection Tables)
      → IsSafe (IsTaken request.request_id request.robot_id) c
      → ((handle_goods_apply now request c).0.accepted ≡ false)
        × ((handle_goods_apply now request c).1.tables ≡ c.tables)
  unfolding handle_goods_apply apply_to_task refused
  not_accepted c v =
      let d = (get_task request.task_id c).1 in
      let w = SameTables-IsSafe _ c d (get_task-SameTables request.task_id c) v in
      ground (
        arith,
        get_task-SameTables request.task_id c,
        none_accepted request.goods d w,
        none_reserved request.goods d w,
      )

  -- Once there is an allocation for the request id and the robot of a goods application, the
  -- application, it is not accepted and changes no table after any history of calls, whichever calls
  -- of prepare and step fail and whatever task and goods it names, from a quiet connection, where no
  -- transaction is open and no BEGIN, COMMIT or ROLLBACK fails: one that is sent again reserves
  -- nothing a second time.
  pub applied_once :
      (s : Service) (calls : List Call)
      → s.db.saved ≡ quiet
      → IsTaken request.request_id request.robot_id s.db.tables
      → let (answer, after) = handle_goods_apply now request (run_history s calls).db in
        (answer.accepted ≡ false) × (after.tables ≡ (run_history s calls).db.tables)
  applied_once s calls closed taken = not_accepted (run_history s calls).db (
      run_history-IsSafe _ (IsTaken-IsStable request.request_id request.robot_id) s calls
        (record { closed = closed; holds = taken }))
