-- ===== src/Edge/TaskService/Safety.antt =====
-- createTask and cancelTask and stable properties of the tables
-- (edge_server/src/service/task_service.cpp).
use amr_warehouse_collaborat.Prelude.{String, arith}
use amr_warehouse_collaborat.Edge.Types.{TransportTask}
use amr_warehouse_collaborat.Edge.Schema.{Tables}
use amr_warehouse_collaborat.Edge.Sql.{Connection}
use amr_warehouse_collaborat.Edge.Sql.Keeps.{IsSafe, Atomic-IsSafe, SameTables-IsSafe}
use amr_warehouse_collaborat.Edge.TaskCreation.{create_task, create_tables}
use amr_warehouse_collaborat.Edge.TaskCreation.Balance.{create-Atomic}
use amr_warehouse_collaborat.Edge.TaskStore.{
  task_exists, get_task, update_task_state, set_task_state,
}
use amr_warehouse_collaborat.Edge.TaskStore.Ledger.{
  task_exists-SameTables, get_task-SameTables, set_task_state-Atomic,
}
use amr_warehouse_collaborat.Edge.Stable.{IsStable}
use amr_warehouse_collaborat.Edge.TaskService.{
  Service, publish_to, store_task, create_valid, create, get, cancel_stored, cancel_found, cancel,
  stamp,
}

module _ (P : Tables → Type 0) (k : IsStable P) where
  create_task-IsSafe :
      (task : TransportTask) (c : Connection Tables) → IsSafe P c → IsSafe P (create_task task c).1
  create_task-IsSafe task =
      Atomic-IsSafe P (create_tables task) (create_task task) (create-Atomic task) (k.creates task)

  update_task_state-IsSafe :
      (task_id state reason : String) (c : Connection Tables)
      → IsSafe P c
      → IsSafe P (update_task_state task_id state reason c).1
  unfolding update_task_state
  update_task_state-IsSafe task_id state reason c =
      Atomic-IsSafe P _ (set_task_state task_id state reason c.clock)
        (set_task_state-Atomic task_id state reason c.clock)
        (k.sets_state task_id state reason c.clock) c

  pub create-IsSafe :
      (now : String) (task : TransportTask) (s : Service)
      → IsSafe P s.db
      → IsSafe P (create now task s).1.db
  unfolding create create_valid store_task publish_to
  create-IsSafe now task s v = ground (
    arith,
    SameTables-IsSafe P s.db (task_exists task.task_id s.db).1
        (task_exists-SameTables task.task_id s.db) v,
    create_task-IsSafe (stamp s.warehouse_id now task) (task_exists task.task_id s.db).1,
  )

  pub cancel-IsSafe :
      (task_id : String) (s : Service) → IsSafe P s.db → IsSafe P (cancel task_id s).1.db
  unfolding cancel get cancel_found cancel_stored publish_to
  cancel-IsSafe task_id s v = ground (
    arith,
    SameTables-IsSafe P s.db (get_task task_id s.db).1 (get_task-SameTables task_id s.db) v,
    update_task_state-IsSafe task_id "CANCELLED" "canceled by API" (get_task task_id s.db).1,
  )
