-- ===== src/Edge/History/Safety.antt =====
-- Stable properties of the tables over histories of calls.
use amr_warehouse_collaborat.Prelude.{List, [], ◌∷◌}
use amr_warehouse_collaborat.Edge.Schema.{Tables}
use amr_warehouse_collaborat.Edge.Sql.Keeps.{IsSafe}
use amr_warehouse_collaborat.Edge.Stable.{IsStable}
use amr_warehouse_collaborat.Edge.TaskService.{Service}
use amr_warehouse_collaborat.Edge.TaskService.Safety.{create-IsSafe, cancel-IsSafe}
use amr_warehouse_collaborat.Edge.TaskReports.Safety.{
  handle_goods_apply-IsSafe, handle_amr_task_status-IsSafe, mark_task_interrupted-IsSafe,
}
use amr_warehouse_collaborat.Edge.History.{
  Call, creates, cancels, applies, reports, interrupts, elapses, step, run_history,
}

module _ (P : Tables → Type 0) (k : IsStable P) where
  step-IsSafe : (s : Service) (call : Call) → IsSafe P s.db → IsSafe P (step s call).db
  unfolding step
  step-IsSafe s (creates now task) v = create-IsSafe P k now task s v
  step-IsSafe s (cancels task_id) v = cancel-IsSafe P k task_id s v
  step-IsSafe s (applies now request) v = handle_goods_apply-IsSafe P k now request s.db v
  step-IsSafe s (reports e) v = handle_amr_task_status-IsSafe P k e s.db v
  step-IsSafe s (interrupts task_id reason) v =
      mark_task_interrupted-IsSafe P k task_id reason s.db v
  step-IsSafe s (elapses faults clock) v = record { closed = v.closed; holds = v.holds }

  pub run_history-IsSafe :
      (s : Service) (calls : List Call) → IsSafe P s.db → IsSafe P (run_history s calls).db
  unfolding run_history
  run_history-IsSafe s [] v = v
  run_history-IsSafe s (call ∷ calls) v =
      run_history-IsSafe (step s call) calls (step-IsSafe s call v)
