-- ===== src/Tests/Histories.antt =====
-- Runs of histories of calls.
use amr_warehouse_collaborat.Edge.Allocations.{is_status_of}
use amr_warehouse_collaborat.Prelude.{pos, ◌≡◌, refl, true, false, some, List, [], ◌∷◌}
use amr_warehouse_collaborat.Edge.Schema.{empty_tables}
use amr_warehouse_collaborat.Edge.Sql.Keeps.{IsSafe}
use amr_warehouse_collaborat.Edge.Allocations.Balance.{IsBalanced}
use amr_warehouse_collaborat.Edge.TaskReports.{handle_goods_apply}
use amr_warehouse_collaborat.Edge.History.{
  Call, creates, cancels, applies, reports, interrupts, elapses, run_history,
}
use amr_warehouse_collaborat.Edge.History.Stored.{IsOfTasks}
use amr_warehouse_collaborat.Edge.History.Balance.{history-IsBalanced}
use amr_warehouse_collaborat.Edge.History.Settled.{allocation_of, settled_is_final}
use amr_warehouse_collaborat.Edge.History.Lasting.{Lasts, HasTotal, task-Lasts, total_lasts}
use amr_warehouse_collaborat.Edge.History.Once.{applied_once}
use amr_warehouse_collaborat.Edge.TaskStore.{find_task}
use amr_warehouse_collaborat.Tests.Samples.{
  some_boxes, task, task_stored, quantities, carried, stored, approved, settled, service, request,
  arrival,
}

abbrev calls : List Call
calls =
    creates "1" task
    ∷ applies "2" (request (some_boxes ∷ []))
    ∷ elapses (false ∷ true ∷ []) "3"
    ∷ reports arrival
    ∷ interrupts "t1" "late"
    ∷ cancels "t1"
    ∷ []

empty-IsSafe : IsSafe IsBalanced (service empty_tables).db
empty-IsSafe = record {
  closed = refl;
  holds = record { checked = tt; keyed = tt; identified = tt; tallied = tt; covered = tt };
}

history-IsBalanced_example :
    IsSafe IsBalanced (run_history (service empty_tables) calls).db
    × IsOfTasks (run_history (service empty_tables) calls).db.tables
history-IsBalanced_example = history-IsBalanced (service empty_tables) calls empty-IsSafe tt

found : find_task "t1" (service settled).db.tables ≡ some task_stored
unfolding find_task
found = refl

-- The row of the completed carry in the sample.
settled_is_final_example :
    allocation_of "q1" "r1" (run_history (service settled) calls).db.tables
    ≡ allocation_of "q1" "r1" settled
settled_is_final_example =
    settled_is_final "q1" "r1" (record carried { state = "COMPLETED"; settled_at = some "3" }) refl
      (service settled) calls refl refl

task-Lasts_example : Lasts "t1" task_stored (run_history (service settled) calls).db.tables
task-Lasts_example = task-Lasts "t1" task_stored (service settled) calls refl found

total_lasts_example : HasTotal "t1" "g1" (pos 10) (run_history (service stored) calls).db.tables
unfolding is_status_of
total_lasts_example =
    total_lasts "t1" "g1" (pos 10) (service stored) calls refl (quantities, refl, refl)

applied_once_example :
    let (answer, after) =
      handle_goods_apply "9"
        (request (some_boxes ∷ []))
        (run_history (service approved) calls).db in
    (answer.accepted ≡ false) × (after.tables ≡ (run_history (service approved) calls).db.tables)
applied_once_example =
    applied_once "9" (request (some_boxes ∷ [])) (service approved) calls refl refl
