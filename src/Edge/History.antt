-- ===== src/Edge/History.antt =====
-- Histories of calls of edge_server/src/service/task_service.cpp, one whole call after another, with
-- what the environment does between them.
pub mod Safety
pub mod Stored
pub mod Balance
pub mod Settled
pub mod Lasting
pub mod Once
use amr_warehouse_collaborat.Prelude.{String, Bool, List, [], ◌∷◌}
use amr_warehouse_collaborat.Edge.Types.{TransportTask, AmrTaskStatusEvent, GoodsApplyRequest}
use amr_warehouse_collaborat.Edge.TaskService.{Service, create, cancel}
use amr_warehouse_collaborat.Edge.TaskReports.{
  handle_goods_apply, handle_amr_task_status, mark_task_interrupted,
}

-- `elapses` is the environment: it moves the clock and settles which of the next library calls fail.
pub data Call : Type 0 where
  creates : String → TransportTask → Call
  cancels : String → Call
  applies : String → GoodsApplyRequest → Call
  reports : AmrTaskStatusEvent → Call
  interrupts : String → String → Call
  elapses : List Bool → String → Call

unfoldable pub step : Service → Call → Service
step s (creates now task) = (create now task s).1
step s (cancels task_id) = (cancel task_id s).1
step s (applies now request) = record s { db = (handle_goods_apply now request s.db).1 }
step s (reports e) = record s { db = (handle_amr_task_status e s.db).1 }
step s (interrupts task_id reason) = record s { db = (mark_task_interrupted task_id reason s.db).1 }
step s (elapses faults clock) = record s { db = record s.db { faults = faults; clock = clock } }

unfoldable pub run_history : Service → List Call → Service
unfolding step
run_history s [] = s
run_history s (call ∷ calls) = run_history (step s call) calls
