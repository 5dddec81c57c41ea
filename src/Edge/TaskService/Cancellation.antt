-- ===== src/Edge/TaskService/Cancellation.antt =====
-- What cancelTask stores, publishes and answers (edge_server/src/service/task_service.cpp).
use amr_warehouse_collaborat.Edge.Sql.{quiet}
use amr_warehouse_collaborat.Prelude.{
  ◌==◌, ◌||◌, ◌⊎◌, ◌≡◌, ap, ◌∙◌, String, Bool, true, false, none, some, find, arith, Bool-cases,
  Option-cases, inl, inr,
}
use amr_warehouse_collaborat.Edge.Types.{TransportTask}
use amr_warehouse_collaborat.Edge.Schema.{Tables, TaskRow}
use amr_warehouse_collaborat.Edge.Sql.{Connection}
use amr_warehouse_collaborat.Edge.TaskStore.{
  get_task, find_task, is_task, set_state, set_task_state, update_task_state,
}
use amr_warehouse_collaborat.Edge.TaskStore.Ledger.{
  get_task-SameTables, set_task_state-Atomic, set_state-inv,
}
use amr_warehouse_collaborat.Edge.TaskStore.Reads.{get_task-ReadFrom, find_task-set_state}
use amr_warehouse_collaborat.Edge.TaskService.{
  task_cancel, amr_task_topic, Service, publish_to, get, is_terminal, cancel_stored, cancel_found,
  cancel,
}
use amr_warehouse_collaborat.Edge.TaskService.Outcomes.{sent_to}

module _ (task_id : String) (s : Service) (closed : s.db.saved ≡ quiet) where
  abbrev c : Connection Tables
  c = (get_task task_id s.db).1

  c-closed : c.saved ≡ quiet
  c-closed = (get_task-SameTables task_id s.db).saved ∙ closed

  abbrev reason : String
  reason = "canceled by API"

  abbrev update : Bool × Connection Tables
  update = set_task_state task_id "CANCELLED" reason c.clock c

  canceled :
      (task : TransportTask)
      → (get_task task_id s.db).0 ≡ some task
      → (cancel task_id s).0.good ≡ true
      → (is_terminal task.state ≡ false)
        × (update.0 ≡ true)
        × ((cancel task_id s).1.db ≡ update.1)
        × ((cancel task_id s).1.sent
            ≡ sent_to task.robot_ids (task_cancel task_id task.warehouse_id reason) s)
  unfolding cancel get cancel_found cancel_stored publish_to update_task_state amr_task_topic
  canceled task e h = ground arith

  not_found : (get_task task_id s.db).0 ≡ none → (cancel task_id s).0.good ≡ true → ⊥
  unfolding cancel get cancel_found
  not_found e h = ground arith

  not_canceled :
      (cancel task_id s).0.good ≡ false
      → ((cancel task_id s).1.db.tables ≡ s.db.tables) × ((cancel task_id s).1.sent ≡ s.sent)
  unfolding cancel get cancel_found cancel_stored publish_to update_task_state
  not_canceled h = ground (
    arith,
    get_task-SameTables task_id s.db,
    (set_task_state-Atomic task_id "CANCELLED" reason c.clock).undone c c-closed,
  )

  canceled_row :
      (r : TaskRow)
      → find_task task_id s.db.tables ≡ some r
      → update.0 ≡ true
      → find_task task_id update.1.tables ≡ some (set_state "CANCELLED" reason c.clock r)
  unfolding find_task
  canceled_row r found h =
      let rows =
        set_state-inv task_id "CANCELLED" reason c.clock c.tables update.1.tables
          ((set_task_state-Atomic task_id "CANCELLED" reason c.clock).committed c c-closed h) in
      let same =
        ap (λ (t : Tables). find (is_task task_id) t.tasks)
          (get_task-SameTables task_id s.db).tables in
      ap (find (is_task task_id)) rows.1
      ∙ find_task-set_state task_id "CANCELLED" reason c.clock c.tables.tasks r (same ∙ found)

  -- cancelTask on a quiet connection, where no transaction is open and no BEGIN, COMMIT or ROLLBACK
  -- fails, whichever calls of prepare and step fail.
  -- When it succeeds, the task was stored in a state other than SUCCEEDED, FAILED, CANCELLED and
  -- INTERRUPTED, its row now has the state CANCELLED and the other columns but reason and time as
  -- before, and one TASK_CANCEL went to each of its robots, in order, if a callback is set.
  -- When it fails, no table changed and nothing was sent.
  pub cancel_outcome :
      let (reply, s') = cancel task_id s in
      ((reply.good ≡ true)
        × ((r : TaskRow) × (find_task task_id s.db.tables ≡ some r)
            × ((r.state == "SUCCEEDED"
                  || r.state == "FAILED"
                  || r.state == "CANCELLED"
                  || r.state == "INTERRUPTED")
                ≡ false)
            × ((clock : String) × (find_task task_id s'.db.tables
                  ≡ some (record r {
                    state = "CANCELLED";
                    reason = "canceled by API";
                    updated_at = clock;
                  })))
            × (s'.sent
                ≡ sent_to r.robot_ids (task_cancel task_id r.warehouse_id "canceled by API") s)))
      ⊎ ((reply.good ≡ false) × (s'.db.tables ≡ s.db.tables) × (s'.sent ≡ s.sent))
  unfolding set_state
  cancel_outcome = elim (Bool-cases (cancel task_id s).0.good) [
    | inl h ↦ inl (h, good h)
    | inr h ↦ let (same, sent) = not_canceled h in inr (h, same, sent)
  ]
    where
      good :
          (cancel task_id s).0.good ≡ true
          → (r : TaskRow) × (find_task task_id s.db.tables ≡ some r)
            × (is_terminal r.state ≡ false)
            × ((clock : String) × (find_task task_id (cancel task_id s).1.db.tables
                  ≡ some (set_state "CANCELLED" reason clock r)))
            × ((cancel task_id s).1.sent
                ≡ sent_to r.robot_ids (task_cancel task_id r.warehouse_id reason) s)
      good h = elim (Option-cases (get_task task_id s.db).0) [
        | inl e ↦ absurd (not_found e h)
        | inr (task, e) ↦
            let (r, found, fields) = get_task-ReadFrom task_id s.db task e in
            let (live, fine, db, sent) = canceled task e h in
            (
              r,
              found,
              rw (← fields.state) live,
              (
                c.clock,
                ap (λ (x : Connection Tables). find_task task_id x.tables) db
                    ∙ canceled_row r found fine,
              ),
              rw (← fields.robot_ids, ← fields.warehouse_id) sent,
            )
      ]
