-- ===== src/Edge/TaskReports/Unnamed.antt =====
-- A carry event without a request id (handleAmrTaskStatus of
-- edge_server/src/service/task_service.cpp).
use amr_warehouse_collaborat.Edge.Sql.{quiet}
use amr_warehouse_collaborat.Prelude.{is_blank, true, false, ◌≡◌, refl, ◌∙◌, Bool-cases, inl, inr}
use amr_warehouse_collaborat.Edge.Types.{AmrTaskStatusEvent}
use amr_warehouse_collaborat.Edge.Schema.{Tables}
use amr_warehouse_collaborat.Edge.Sql.{Connection}
use amr_warehouse_collaborat.Edge.Sql.Keeps.{IsSafe, Atomic-IsSafe}
use amr_warehouse_collaborat.Edge.TaskStore.{insert_amr_task_status_event}
use amr_warehouse_collaborat.Edge.TaskStore.Ledger.{record_amr_event-Atomic, insert_amr_event-inv}
use amr_warehouse_collaborat.Edge.TaskReports.{is_carry, settle_carry, handle_amr_task_status}

-- The tasks, their quantities and the allocations are the same.
pub record SameWork (t t' : Tables) : Type 0 where
  pub tasks : t'.tasks ≡ t.tasks
  pub statuses : t'.statuses ≡ t.statuses
  pub allocations : t'.allocations ≡ t.allocations

record-IsSafe :
    (e : AmrTaskStatusEvent) (t : Tables) (c : Connection Tables)
    → IsSafe (SameWork t) c
    → IsSafe (SameWork t) (insert_amr_task_status_event e c).1
unfolding insert_amr_task_status_event
record-IsSafe e t c =
    Atomic-IsSafe (SameWork t) _ _ (record_amr_event-Atomic e c.clock)
      (λ t₁ t₂ v h.
        let (ledger, tasks) = insert_amr_event-inv e c.clock t₁ t₂ h in
        record {
          tasks = tasks ∙ v.tasks;
          statuses = ledger.0 ∙ v.statuses;
          allocations = ledger.1 ∙ v.allocations;
        })
      c

-- The handler refuses the event, and changes no task, quantity or allocation.
pub unnamed_carry :
    (e : AmrTaskStatusEvent) (c : Connection Tables)
    → c.saved ≡ quiet
    → is_carry e.event_type ≡ true
    → is_blank e.request_id ≡ true
    → ((handle_amr_task_status e c).0 ≡ false)
      × IsSafe (SameWork c.tables) (handle_amr_task_status e c).1
unfolding handle_amr_task_status settle_carry
unnamed_carry e c closed carry unnamed =
    let safe = record-IsSafe e c.tables c (record {
      closed = closed;
      holds = record { tasks = refl; statuses = refl; allocations = refl };
    }) in
    elim (Bool-cases (insert_amr_task_status_event e c).0) [
      | inl stored ↦ rw (stored, carry, unnamed) (refl, safe)
      | inr failed ↦ rw failed (refl, safe)
    ]
