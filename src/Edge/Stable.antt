-- ===== src/Edge/Stable.antt =====
-- What a property of the tables has to survive: the transactions of
-- edge_server/src/database/sqlite_db.cpp that edge_server/src/service/task_service.cpp calls.
use amr_warehouse_collaborat.Prelude.{ℤ, String, ◌≡◌, some}
use amr_warehouse_collaborat.Edge.Types.{TransportTask, AmrTaskStatusEvent}
use amr_warehouse_collaborat.Edge.Schema.{Tables}
use amr_warehouse_collaborat.Edge.Sql.{done}
use amr_warehouse_collaborat.Edge.Allocations.{approve_tables, settle_tables}
use amr_warehouse_collaborat.Edge.TaskCreation.{create_tables}
use amr_warehouse_collaborat.Edge.TaskStore.{
  set_state_statement, state_event_tables, insert_amr_event,
}

-- Each of the six steps on the tables, when it is done, keeps `P`.
pub record IsStable (P : Tables → Type 0) : Type 0 where
  pub creates : (task : TransportTask) (t t' : Tables) → P t → create_tables task t ≡ some t' → P t'
  pub approves :
      (request_id task_id goods_id robot_id : String) (quantity : ℤ) (now : String) (t t' : Tables)
      → P t
      → approve_tables request_id task_id goods_id robot_id quantity now t ≡ some t'
      → P t'
  pub settles :
      (request_id robot_id state now : String) (t t' : Tables)
      → P t
      → settle_tables request_id robot_id state now t ≡ some t'
      → P t'
  pub sets_state :
      (task_id state reason now : String) (t t' : Tables)
      → P t
      → done (set_state_statement task_id state reason now) t ≡ some t'
      → P t'
  pub sets_state_with_event :
      (task_id state reason source now : String) (t t' : Tables)
      → P t
      → state_event_tables task_id state reason source now t ≡ some t'
      → P t'
  pub records_event :
      (e : AmrTaskStatusEvent) (now : String) (t t' : Tables)
      → P t
      → done (insert_amr_event e now) t ≡ some t'
      → P t'
