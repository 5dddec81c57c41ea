-- ===== src/Edge/TaskReports/Apply.antt =====
-- What handleGoodsApply answers (edge_server/src/service/task_service.cpp).
use amr_warehouse_collaborat.Prelude.{
  ◌≡◌, refl, ap, ◌∙◌, String, ◌==◌, is_blank, Bool, true, false, ◌||◌, none, some, List, [], ◌∷◌,
  any, find, is_empty, All, arith, Bool-cases, inl, inr, if◌then◌else◌,
}
use amr_warehouse_collaborat.Edge.Types.{TaskGoods, TransportTask, GoodsApplyRequest}
use amr_warehouse_collaborat.Edge.Schema.{Tables, TaskRow, task_check}
use amr_warehouse_collaborat.Edge.TaskCreation.Balance.{SameLedger}
use amr_warehouse_collaborat.Edge.Sql.{Connection}
use amr_warehouse_collaborat.Edge.Sql.Transactions.{
  IsReady, Atomic-done, Atomic-refused, SameTables-IsReady,
}
use amr_warehouse_collaborat.Edge.TaskStore.{
  get_task, find_task, task_of_row, goods_of, set_state, is_task,
}
use amr_warehouse_collaborat.Edge.TaskStore.Reads.{get_task_ready, find_task-set_state}
use amr_warehouse_collaborat.Edge.TaskService.{bad_goods}
use amr_warehouse_collaborat.Edge.TaskStore.Ledger.{get_task-SameTables, with_event-IsReady}
use amr_warehouse_collaborat.Edge.Allocations.Approval.{approve_tables-Approved}
use amr_warehouse_collaborat.Edge.TaskReports.{
  approve_all, apply_to_task, start_running, handle_goods_apply, refused,
}
use amr_warehouse_collaborat.Edge.TaskReports.Several.{
  approve_one, one_tables, one-Atomic, several_fail, several_tables,
}

module _ (now : String) (request : GoodsApplyRequest) where
  -- A request that passes the checks made before the database is read.
  pub record IsWellFormed : Type 0 where
    pub named :
        (is_blank request.task_id || is_blank request.robot_id || is_empty request.goods) ≡ false
    pub sound : any bad_goods request.goods ≡ false

  module _ (c : Connection Tables) (r : TaskRow) (ready : IsReady c) (formed : IsWellFormed)
      (stored : find_task request.task_id c.tables ≡ some r)
      (member : any (λ id. id == request.robot_id) r.robot_ids ≡ true) where
    abbrev d : Connection Tables
    d = (get_task request.task_id c).1

    d-IsReady : IsReady d
    d-IsReady = SameTables-IsReady c d (get_task-SameTables request.task_id c) ready

    abbrev task : TransportTask
    task = task_of_row r (goods_of request.task_id c.tables)

    read_task : (get_task request.task_id c).0 ≡ some task
    read_task = get_task_ready request.task_id c r ready stored

    past_checks : handle_goods_apply now request c ≡ apply_to_task now request (some task) d
    unfolding handle_goods_apply
    past_checks = ground (arith, read_task, formed.named, formed.sound)

    is_member : any (λ id. id == request.robot_id) task.robot_ids ≡ true
    unfolding task_of_row
    is_member = member

    refusal :
        (approve_all now request request.goods d).0 ≡ false
        → apply_to_task now request (some task) d
          ≡ (refused "approve failed", (approve_all now request request.goods d).1)
    unfolding apply_to_task
    refusal h = ground (arith, is_member)

    acceptance :
        (approve_all now request request.goods d).0 ≡ true
        → apply_to_task now request (some task) d ≡ (
          record { accepted = true; reason = ""; goods = request.goods },
          start_running request.task_id task (approve_all now request request.goods d).1,
        )
    unfolding apply_to_task
    acceptance h = ground (arith, is_member)

    -- An application for two or more kinds of goods whose first approval is possible, on a database
    -- that works, answers "approve failed" and yet keeps the first reservation: the tables are those
    -- after approving the first goods alone.
    pub several_goods_half_done :
        (g h : TaskGoods) (rest : List TaskGoods) (t₁ : Tables)
        → request.goods ≡ g ∷ h ∷ rest
        → one_tables now request g c.tables ≡ some t₁
        → ((handle_goods_apply now request c).0 ≡ refused "approve failed")
          × ((handle_goods_apply now request c).1.tables ≡ t₁)
    several_goods_half_done g h rest t₁ e k =
        let tables = (get_task-SameTables request.task_id c).tables in
        let first =
          Atomic-done (one_tables now request g) (approve_one now request g) d t₁
            (one-Atomic now request g) d-IsReady (ap (one_tables now request g) tables ∙ k) in
        let failed = several_fail now request g h rest d d-IsReady.closed in
        let kept = several_tables now request g h rest d d-IsReady.closed first.0 in
        ground (
          arith,
          past_checks,
          refusal,
          first.1,
          ap (λ (l : List TaskGoods). (approve_all now request l d).0) e ∙ failed,
          ap (λ (l : List TaskGoods). (approve_all now request l d).1.tables) e ∙ kept,
        )

    abbrev starts : Bool
    starts = r.state == "PENDING" || r.state == "ACCEPTED"

    -- The state after the handler has tried to start the task.
    started :
        (c₁ : Connection Tables)
        → IsReady c₁
        → All (λ x. task_check x ≡ true) c₁.tables.tasks
        → find_task request.task_id c₁.tables ≡ some r
        → SameLedger c₁.tables (start_running request.task_id task c₁).tables
          × ((r' : TaskRow) × (find_task request.task_id
                  (start_running request.task_id task c₁).tables
                ≡ some r')
              × (r'.state ≡ (if starts then "RUNNING" else r.state)))
    unfolding start_running task_of_row find_task set_state
    started c₁ ready₁ typed found = elim (Bool-cases starts) [
      | inl e ↦
          let run =
            with_event-IsReady request.task_id "RUNNING" "first goods approved" "EDGE" c₁ ready₁
              typed in
          let row = set_state "RUNNING" "first goods approved" c₁.clock r in
          (
            rw e run.0,
            (
              row,
              rw e (
                  ap (find (is_task request.task_id)) run.1
                  ∙ find_task-set_state request.task_id "RUNNING" "first goods approved" c₁.clock
                      c₁.tables.tasks r found),
              rw e refl,
            ),
          )
      | inr e ↦ (rw e (refl, refl), (r, rw e found, rw e refl))
    ]

    module _ (g : TaskGoods) (single : request.goods ≡ g ∷ []) where
      one_of_one : approve_all now request request.goods d ≡ approve_all now request (g ∷ []) d
      one_of_one = ap (λ (l : List TaskGoods). approve_all now request l d) single

      approve_single : approve_all now request (g ∷ []) d ≡ approve_one now request g d
      unfolding approve_all
      approve_single = ground arith

      typed_after :
          (c₁ : Connection Tables) (t₁ : Tables)
          → c₁.tables ≡ t₁
          → t₁.tasks ≡ c.tables.tasks
          → All (λ x. task_check x ≡ true) c.tables.tasks
          → All (λ x. task_check x ≡ true) c₁.tables.tasks
      typed_after c₁ t₁ e f h = rw (e, f) h

      found_after :
          (c₁ : Connection Tables) (t₁ : Tables)
          → c₁.tables ≡ t₁
          → t₁.tasks ≡ c.tables.tasks
          → find_task request.task_id c₁.tables ≡ some r
      unfolding find_task
      found_after c₁ t₁ e f = rw (e, f) stored

      -- An application for one kind of goods, on a database that works: when its approval is
      -- possible it is accepted for the goods asked for, quantities and allocations are those after
      -- the approval, and the task is RUNNING if it was PENDING or ACCEPTED and else in its state.
      pub single_goods_accepted :
          (t₁ : Tables)
          → one_tables now request g c.tables ≡ some t₁
          → All (λ x. task_check x ≡ true) c.tables.tasks
          → let result = handle_goods_apply now request c in
            (result.0 ≡ record { accepted = true; reason = ""; goods = request.goods })
            × SameLedger t₁ result.1.tables
            × ((r' : TaskRow) × (find_task request.task_id result.1.tables ≡ some r')
                × (r'.state ≡ (if starts then "RUNNING" else r.state)))
      single_goods_accepted t₁ k typed =
          let c₁ = (approve_one now request g d).1 in
          let (approved, same, ready₁) =
            Atomic-done (one_tables now request g) (approve_one now request g) d t₁
              (one-Atomic now request g) d-IsReady
              (ap (one_tables now request g) (get_task-SameTables request.task_id c).tables ∙ k) in
          let tasks =
            (approve_tables-Approved request.request_id request.task_id g.goods_id request.robot_id
              g.total_quantity now c.tables t₁ k).tasks in
          let (ledger, row) =
            started c₁ ready₁ (typed_after c₁ t₁ same tasks typed) (found_after c₁ t₁ same tasks) in
          let whole : handle_goods_apply now request c ≡ (
            record { accepted = true; reason = ""; goods = request.goods },
            start_running request.task_id task c₁,
          ) =
            ground (arith, past_checks, acceptance, one_of_one, approve_single, approved) in
          rw whole (refl, rw (← same) ledger, row)

      -- When the approval is not possible, the answer is "approve failed" and no table changes.
      pub single_goods_refused :
          one_tables now request g c.tables ≡ none
          → let result = handle_goods_apply now request c in
            (result.0 ≡ refused "approve failed") × (result.1.tables ≡ c.tables)
      single_goods_refused k =
          let tables = (get_task-SameTables request.task_id c).tables in
          let first =
            Atomic-refused (one_tables now request g) (approve_one now request g) d
              (one-Atomic now request g) d-IsReady (ap (one_tables now request g) tables ∙ k) in
          ground (arith, past_checks, refusal, first, one_of_one, approve_single, tables)
