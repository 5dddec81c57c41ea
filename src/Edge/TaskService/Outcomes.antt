-- ===== src/Edge/TaskService/Outcomes.antt =====
-- What createTask stores, publishes and answers (edge_server/src/service/task_service.cpp).
use amr_warehouse_collaborat.Edge.Sql.{quiet}
use Prim.Native.String.{◌++◌ as append}
use amr_warehouse_collaborat.Prelude.{
  pos, leb_ℤ, ◌==◌, is_blank, is_empty, not, ◌&&◌, ◌||◌, Bool, ◌⊎◌, ◌≡◌, sym, ap, ◌∙◌, String, true,
  false, none, some, List, [], ◌∷◌, ◌++◌, map, any, find, arith, Bool-cases, Option-cases, inl, inr,
  if◌then◌else◌,
}
use amr_warehouse_collaborat.Edge.Types.{TransportTask}
use amr_warehouse_collaborat.Edge.Schema.{Tables, TaskRow, task_clash}
use amr_warehouse_collaborat.Edge.Sql.{Connection}
use amr_warehouse_collaborat.Edge.TaskCreation.{create_task, task_row}
use amr_warehouse_collaborat.Edge.TaskCreation.Balance.{create-Atomic}
use amr_warehouse_collaborat.Edge.TaskCreation.Stored.{create_tables-tasks, find-created}
use amr_warehouse_collaborat.Edge.TaskStore.{task_exists, find_task, is_task}
use amr_warehouse_collaborat.Edge.TaskStore.Ledger.{task_exists-SameTables}
use amr_warehouse_collaborat.Edge.TaskService.{
  Message, task_assign, bad_goods, assign_message, Service, Reply, amr_task_topic, publish_to,
  validate_task, stamp, store_task, create_valid, create,
}

-- The messages after one more is sent to each of some robots.
abbrev pub sent_to : List String → Message → Service → List (String × Message)
sent_to robot_ids m s =
    if s.publishes
    then s.sent ++ map (λ robot_id. (append "amr/" (append robot_id "/task"), m)) robot_ids
    else s.sent

validate_task_fails :
    (task : TransportTask) (reply : Reply) → validate_task task ≡ some reply → reply.good ≡ false
unfolding validate_task
validate_task_fails task reply h = ground arith

module _ (now : String) (task : TransportTask) (s : Service) (closed : s.db.saved ≡ quiet) where
  abbrev stored : TransportTask
  stored = record task {
    warehouse_id = s.warehouse_id;
    state = "PENDING";
    created_at = now;
    updated_at = now;
  }

  -- What a task needs: an id, a type, robots, and goods with an id and a positive quantity.
  abbrev pub is_valid : Bool
  is_valid =
      not (is_blank task.task_id)
      && (task.task_type == "LOAD" || task.task_type == "UNLOAD")
      && not (is_empty task.robot_ids)
      && not (is_empty task.goods)
      && not (any (λ g. is_blank g.goods_id || leb_ℤ g.total_quantity (pos 0)) task.goods)

  -- The row of the task, column by column.
  abbrev pub new_row : TaskRow
  new_row = record {
    task_id = task.task_id;
    warehouse_id = s.warehouse_id;
    task_type = task.task_type;
    state = "PENDING";
    robot_ids = task.robot_ids;
    goal = task.goal;
    reason = task.reason;
    created_at = now;
    updated_at = now;
  }

  -- The command for each robot.
  abbrev pub new_command : Message
  new_command = task_assign (record {
    task_id = task.task_id;
    warehouse_id = s.warehouse_id;
    task_type = task.task_type;
    robot_ids = task.robot_ids;
    state = "PENDING";
    reason = task.reason;
    goods = task.goods;
  })

  valid : validate_task task ≡ none → is_valid ≡ true
  unfolding validate_task bad_goods
  valid h = ground arith

  abbrev d : Connection Tables
  d = (task_exists task.task_id s.db).1

  d-closed : d.saved ≡ quiet
  d-closed = (task_exists-SameTables task.task_id s.db).saved ∙ closed

  created :
      (create now task s).0.good ≡ true
      → (validate_task task ≡ none)
        × ((create_task stored d).0 ≡ true)
        × ((create now task s).1.db ≡ (create_task stored d).1)
        × ((create now task s).1.sent ≡ sent_to task.robot_ids new_command s)
  unfolding create create_valid store_task publish_to stamp assign_message amr_task_topic
  created h = elim (Option-cases (validate_task task)) [
    | inl e ↦ ground arith
    | inr (reply, e) ↦ absurd (ground (arith, validate_task_fails task reply e))
  ]

  not_created :
      (create now task s).0.good ≡ false
      → ((create now task s).1.db.tables ≡ s.db.tables) × ((create now task s).1.sent ≡ s.sent)
  unfolding create create_valid store_task publish_to stamp
  not_created h =
      ground
        (arith, task_exists-SameTables task.task_id s.db, (create-Atomic stored).undone d d-closed)

  stored_row :
      (create_task stored d).0 ≡ true
      → (any (λ r. r.task_id == task.task_id) s.db.tables.tasks ≡ false)
        × (find_task task.task_id (create_task stored d).1.tables ≡ some new_row)
  unfolding find_task task_clash task_row
  stored_row h =
      let same = ap (λ (t : Tables). t.tasks) (task_exists-SameTables task.task_id s.db).tables in
      let rows =
        create_tables-tasks stored d.tables (create_task stored d).1.tables
          ((create-Atomic stored).committed d d-closed h) in
      let free : any (task_clash (task_row stored)) s.db.tables.tasks ≡ false =
        ap (any (task_clash (task_row stored))) (sym same) ∙ rows.1 in
      (
        free,
        ap (find (is_task task.task_id)) (rows.0 ∙ ap (λ l. l ++ task_row stored ∷ []) same)
            ∙ find-created stored s.db.tables.tasks free,
      )

  -- createTask on a quiet connection, where no transaction is open and no BEGIN, COMMIT or ROLLBACK
  -- fails, whichever calls of prepare and step fail.
  -- When it succeeds, the task has an id, the type LOAD or UNLOAD, robots, and goods with ids and
  -- positive quantities, no row had its id before, its row now has the columns of the task, with
  -- the service's warehouse, the state PENDING and both times of the call, and one TASK_ASSIGN with
  -- these values went to each of its robots, in order, if a callback is set. When it fails, no
  -- table changed and nothing was sent.
  pub create_outcome :
      let (reply, s') = create now task s in
      ((reply.good ≡ true)
        × (is_valid ≡ true)
        × (any (λ r. r.task_id == task.task_id) s.db.tables.tasks ≡ false)
        × (find_task task.task_id s'.db.tables ≡ some new_row)
        × (s'.sent ≡ sent_to task.robot_ids new_command s))
      ⊎ ((reply.good ≡ false) × (s'.db.tables ≡ s.db.tables) × (s'.sent ≡ s.sent))
  create_outcome = elim (Bool-cases (create now task s).0.good) [
    | inl h ↦ let (checked, free, row, sent) = good h in inl (h, checked, free, row, sent)
    | inr h ↦ let (same, sent) = not_created h in inr (h, same, sent)
  ]
    where
      good :
          (create now task s).0.good ≡ true
          → (is_valid ≡ true)
            × (any (λ r. r.task_id == task.task_id) s.db.tables.tasks ≡ false)
            × (find_task task.task_id (create now task s).1.db.tables ≡ some new_row)
            × ((create now task s).1.sent ≡ sent_to task.robot_ids new_command s)
      good h =
          let (checked, fine, db, sent) = created h in
          let (free, row) = stored_row fine in
          (
            valid checked,
            free,
            ap (λ (c : Connection Tables). find_task task.task_id c.tables) db ∙ row,
            sent,
          )
