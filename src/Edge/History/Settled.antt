-- ===== src/Edge/History/Settled.antt =====
-- A settled allocation over histories of calls.
use amr_warehouse_collaborat.Edge.Sql.{quiet}
use amr_warehouse_collaborat.Prelude.{
  ◌≡◌, refl, ap, ◌∙◌, String, ◌==◌, false, ◌&&◌, Option, some, List, find, arith,
}
use amr_warehouse_collaborat.Edge.Rows.{change_rows}
use amr_warehouse_collaborat.Edge.Rows.Laws.{find-append_some, find-change_rows_same}
use amr_warehouse_collaborat.Edge.Schema.{Tables, AllocationRow}
use amr_warehouse_collaborat.Edge.Stable.{IsStable}
use amr_warehouse_collaborat.Edge.Allocations.{is_active, settle}
use amr_warehouse_collaborat.Edge.Allocations.Approval.{approve_tables-Approved}
use amr_warehouse_collaborat.Edge.Allocations.Settled.{settle_tables-Settled}
use amr_warehouse_collaborat.Edge.TaskCreation.Appends.{create_tables-AddsStatuses}
use amr_warehouse_collaborat.Edge.TaskStore.Ledger.{
  set_state-inv, state_event-inv, insert_amr_event-inv,
}
use amr_warehouse_collaborat.Edge.TaskService.{Service}
use amr_warehouse_collaborat.Edge.History.{Call, run_history}
use amr_warehouse_collaborat.Edge.History.Safety.{run_history-IsSafe}

abbrev pub allocation_of : String → String → Tables → Option AllocationRow
allocation_of request_id robot_id t =
    find (λ x. x.request_id == request_id && x.robot_id == robot_id) t.allocations

module _ (request_id robot_id : String) (a : AllocationRow)
    (final : (a.state == "IN_PROGRESS") ≡ false) where
  abbrev IsThere : Tables → Type 0
  IsThere t = allocation_of request_id robot_id t ≡ some a

  same_allocations : (t t' : Tables) → t'.allocations ≡ t.allocations → IsThere t → IsThere t'
  same_allocations t t' e h =
      ap (find (λ x. x.request_id == request_id && x.robot_id == robot_id)) e ∙ h

  settled_row :
      (request robot state now : String) (rows : List AllocationRow)
      → find (λ x. x.request_id == request_id && x.robot_id == robot_id) rows ≡ some a
      → find
          (λ x. x.request_id == request_id && x.robot_id == robot_id)
          (change_rows (is_active request robot) (settle state now) rows)
        ≡ some a
  unfolding is_active settle
  settled_row request robot state now rows h = ground (
    arith,
    final,
    find-change_rows_same (λ x. x.request_id == request_id && x.robot_id == robot_id)
        (is_active request robot) (settle state now) rows a (λ x. refl) h,
  )

  IsThere-IsStable : IsStable IsThere
  IsThere-IsStable = record {
    creates = λ task t t' v h.
        same_allocations t t' (create_tables-AddsStatuses task t t' h).allocations v;
    approves = λ request task goods robot quantity now t t' v h.
        let done = approve_tables-Approved request task goods robot quantity now t t' h in
        ap (find (λ x. x.request_id == request_id && x.robot_id == robot_id)) done.allocations
        ∙ find-append_some _ t.allocations _ a v;
    settles = λ request robot state now t t' v h.
        let (b, done) = settle_tables-Settled request robot state now t t' h in
        ap (find (λ x. x.request_id == request_id && x.robot_id == robot_id)) done.allocations
        ∙ settled_row request robot state now t.allocations v;
    sets_state = λ task state reason now t t' v h.
        same_allocations t t' (set_state-inv task state reason now t t' h).0.1 v;
    sets_state_with_event = λ task state reason source now t t' v h.
        same_allocations t t' (state_event-inv task state reason source now t t' h).0.1 v;
    records_event =
        λ e now t t' v h. same_allocations t t' (insert_amr_event-inv e now t t' h).0.1 v;
  }

  -- An allocation that is completed or aborted stays, with its quantity, state and times, through
  -- every history of calls, whichever calls of prepare and step fail in it, from a quiet connection:
  -- no transaction is open, and no BEGIN, COMMIT or ROLLBACK fails.
  pub settled_is_final :
      (s : Service) (calls : List Call)
      → s.db.saved ≡ quiet
      → allocation_of request_id robot_id s.db.tables ≡ some a
      → allocation_of request_id robot_id (run_history s calls).db.tables ≡ some a
  settled_is_final s calls closed there =
      (run_history-IsSafe IsThere IsThere-IsStable s calls
        (record { closed = closed; holds = there })).holds
