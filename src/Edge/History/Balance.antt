-- ===== src/Edge/History/Balance.antt =====
-- The balance of quantities and allocations over histories of calls.
use amr_warehouse_collaborat.Prelude.{List}
use amr_warehouse_collaborat.Edge.Sql.Keeps.{IsSafe}
use amr_warehouse_collaborat.Edge.Stable.{IsStable}
use amr_warehouse_collaborat.Edge.Allocations.Balance.{IsBalanced}
use amr_warehouse_collaborat.Edge.Allocations.Approval.{approve-IsBalanced}
use amr_warehouse_collaborat.Edge.Allocations.Settlement.{settle-IsBalanced}
use amr_warehouse_collaborat.Edge.TaskCreation.Balance.{create-IsBalanced, SameLedger-IsBalanced}
use amr_warehouse_collaborat.Edge.TaskStore.Ledger.{
  set_state-inv, state_event-inv, insert_amr_event-inv,
}
use amr_warehouse_collaborat.Edge.TaskService.{Service}
use amr_warehouse_collaborat.Edge.History.Stored.{IsOfTasks, IsOfTasks-IsStable}
use amr_warehouse_collaborat.Edge.History.{Call, run_history}
use amr_warehouse_collaborat.Edge.History.Safety.{run_history-IsSafe}

IsBalanced-IsStable : IsStable IsBalanced
IsBalanced-IsStable = record {
  creates = create-IsBalanced;
  approves = approve-IsBalanced;
  settles = settle-IsBalanced;
  sets_state = λ task_id state reason now t t' b h.
      SameLedger-IsBalanced t t' (set_state-inv task_id state reason now t t' h).0 b;
  sets_state_with_event = λ task_id state reason source now t t' b h.
      SameLedger-IsBalanced t t' (state_event-inv task_id state reason source now t t' h).0 b;
  records_event =
      λ e now t t' b h. SameLedger-IsBalanced t t' (insert_amr_event-inv e now t t' h).0 b;
}

-- From a quiet connection (no transaction is open, and no BEGIN, COMMIT or ROLLBACK fails) to tables
-- that are in balance and whose rows of quantities are of stored tasks, every history of creations,
-- cancellations, goods applications, AMR reports and interruptions, whichever calls of prepare and
-- step fail in it, ends with a quiet connection and in balance: each row of goods is within its
-- CHECKs, its quantity in progress is the sum of its allocations in progress, its completed quantity
-- the sum of the completed ones, keys are unique, every allocation is for goods that have a row of
-- quantities, and every such row is of a task that is stored.
pub history-IsBalanced :
    (s : Service) (calls : List Call)
    → IsSafe IsBalanced s.db
    → IsOfTasks s.db.tables
    → IsSafe IsBalanced (run_history s calls).db × IsOfTasks (run_history s calls).db.tables
history-IsBalanced s calls v stored = (
  run_history-IsSafe IsBalanced IsBalanced-IsStable s calls v,
  (run_history-IsSafe IsOfTasks IsOfTasks-IsStable s calls
      (record { closed = v.closed; holds = stored })).holds,
)
