-- ===== src/Edge/TaskReports/Completion.antt =====
-- What handleAmrTaskStatus does to the state of a task (edge_server/src/service/task_service.cpp).
use amr_warehouse_collaborat.Prelude.{
  ◌⊎◌, pos, leb_ℤ, not, ◌||◌, map, filter, sym, ◌==◌, ◌≡◌, refl, ap, ◌∙◌, String, Bool, true, false,
  some, List, [], ◌∷◌, any, find, is_empty, All, arith, Bool-cases, inl, inr,
}
use amr_warehouse_collaborat.Edge.Types.{TaskGoodsStatus, AmrTaskStatusEvent}
use amr_warehouse_collaborat.Edge.Rows.{insert_row}
use amr_warehouse_collaborat.Edge.Schema.{Tables, TaskRow, StatusRow, task_check, amr_event_clash}
use amr_warehouse_collaborat.Edge.Sql.{Connection, done}
use amr_warehouse_collaborat.Edge.Sql.Transactions.{IsReady, Atomic-done, SameTables-IsReady}
use amr_warehouse_collaborat.Edge.TaskCreation.Balance.{SameLedger}
use amr_warehouse_collaborat.Edge.TaskStore.{
  find_task, is_task, set_state, status_of_row, statuses_of, some_rows, get_task,
  get_task_goods_status, update_task_state_with_event, amr_event_row, insert_amr_event,
  record_amr_event, insert_amr_task_status_event,
}
use amr_warehouse_collaborat.Edge.TaskStore.Reads.{
  get_task_ready, get_task_goods_status_ready, find_task-set_state,
}
use amr_warehouse_collaborat.Edge.TaskStore.Ledger.{
  get_task-SameTables, get_task_goods_status-SameTables, with_event-IsReady,
  record_amr_event-Atomic,
}
use amr_warehouse_collaborat.Edge.TaskReports.{
  is_unfinished, finish_when_done, finish_found, finish_task, accept_task, settle_carry,
  handle_amr_task_status,
}

some_rows_nonempty :
    (rows : List TaskGoodsStatus) → is_empty rows ≡ false → some_rows (some rows) ≡ some rows
unfolding some_rows
some_rows_nonempty [] h = cc
some_rows_nonempty (x ∷ rows) h = refl

-- A completed carry, on a database that works, with the task stored in row `r` and some goods of
-- its own.
module _ (e : AmrTaskStatusEvent) (c : Connection Tables) (r : TaskRow)
    (completed : e.event_type ≡ "CARRY_COMPLETED") (ready : IsReady c)
    (typed : All (λ x. task_check x ≡ true) c.tables.tasks)
    (stored : find_task e.task_id c.tables ≡ some r)
    (listed : is_empty (statuses_of e.task_id c.tables) ≡ false) where
  abbrev c₁ : Connection Tables
  c₁ = (get_task e.task_id c).1

  abbrev c₂ : Connection Tables
  c₂ = (get_task_goods_status e.task_id c₁).1

  c₁-IsReady : IsReady c₁
  c₁-IsReady = SameTables-IsReady c c₁ (get_task-SameTables e.task_id c) ready

  c₂-IsReady : IsReady c₂
  c₂-IsReady = SameTables-IsReady c₁ c₂ (get_task_goods_status-SameTables e.task_id c₁) c₁-IsReady

  same₂ : c₂.tables ≡ c.tables
  same₂ =
      (get_task_goods_status-SameTables e.task_id c₁).tables
      ∙ (get_task-SameTables e.task_id c).tables

  read_statuses : (get_task_goods_status e.task_id c₁).0 ≡ some (statuses_of e.task_id c.tables)
  read_statuses =
      get_task_goods_status_ready e.task_id c₁ c₁-IsReady
      ∙ rw (get_task-SameTables e.task_id c).tables
          (some_rows_nonempty (statuses_of e.task_id c.tables) listed)

  finishing :
      finish_task e c ≡ finish_when_done e.task_id (some (statuses_of e.task_id c.tables)) c₂
  unfolding finish_task finish_found
  finishing =
      rw completed (ground (arith, get_task_ready e.task_id c r ready stored, read_statuses))

  abbrev unfinished : Bool
  unfinished = any is_unfinished (statuses_of e.task_id c.tables)

  kept : unfinished ≡ true → (finish_task e c).tables ≡ c.tables
  unfolding finish_when_done
  kept h = ap (λ (x : Connection Tables). x.tables) finishing ∙ rw h same₂

  finished :
      unfinished ≡ false
      → (SameLedger c.tables (finish_task e c).tables)
        × ((r' : TaskRow) × (find_task e.task_id (finish_task e c).tables ≡ some r')
            × (r'.state ≡ "SUCCEEDED"))
  unfolding finish_when_done find_task set_state
  finished h =
      let last =
        with_event-IsReady e.task_id "SUCCEEDED" "all goods completed" "AMR" c₂ c₂-IsReady
          (rw same₂ typed) in
      let row = set_state "SUCCEEDED" "all goods completed" c₂.clock r in
      let whole : finish_task e c
          ≡ (update_task_state_with_event e.task_id "SUCCEEDED" "all goods completed" "AMR" c₂).1 =
        finishing ∙ rw h refl in
      (
        rw whole (
          last.0.0 ∙ ap (λ (t : Tables). t.statuses) same₂,
          last.0.1 ∙ ap (λ (t : Tables). t.allocations) same₂,
        ),
        (
          row,
          rw whole (
              ap (find (is_task e.task_id)) last.1
              ∙ find_task-set_state e.task_id "SUCCEEDED" "all goods completed" c₂.clock
                  c₂.tables.tasks r (rw same₂ stored)),
          refl,
        ),
      )

-- Something of the goods is pending or in progress.
abbrev is_open : StatusRow → Bool
is_open x = not (leb_ℤ x.pending_quantity (pos 0)) || not (leb_ℤ x.in_progress_quantity (pos 0))

any-is_unfinished :
    (rows : List StatusRow) → any is_unfinished (map status_of_row rows) ≡ any is_open rows
unfolding is_unfinished status_of_row
any-is_unfinished [] = refl
any-is_unfinished (x ∷ rows) = ground (arith, any-is_unfinished rows)

-- The handler, for a completed carry whose event was recorded and whose allocation was settled.
module _ (e : AmrTaskStatusEvent) (c : Connection Tables)
    (completed : e.event_type ≡ "CARRY_COMPLETED")
    (recorded : (insert_amr_task_status_event e c).0 ≡ true)
    (settled : (settle_carry e (insert_amr_task_status_event e c).1).0 ≡ true) where
  abbrev after : Connection Tables
  after = (settle_carry e (insert_amr_task_status_event e c).1).1

  handled : handle_amr_task_status e c ≡ (true, finish_task e after)
  unfolding handle_amr_task_status accept_task
  handled = rw (recorded, settled, completed) (ground arith)

  -- handleAmrTaskStatus for a CARRY_COMPLETED event that was recorded and settled, on a database
  -- that works afterwards, of a stored task with goods: it returns true; while a quantity of
  -- the task that is pending or in progress is positive, no table changes any more; otherwise quantities and allocations
  -- stay and the task becomes SUCCEEDED, whatever its state was, also a terminal one.
  pub completed_report :
      (r : TaskRow)
      → IsReady after
      → All (λ x. task_check x ≡ true) after.tables.tasks
      → find_task e.task_id after.tables ≡ some r
      → is_empty (statuses_of e.task_id after.tables) ≡ false
      → let result = handle_amr_task_status e c in
        let rows = filter (λ x. x.task_id == e.task_id) after.tables.statuses in
        (result.0 ≡ true)
        × ((any
                  (λ x.
                    not (leb_ℤ x.pending_quantity (pos 0))
                    || not (leb_ℤ x.in_progress_quantity (pos 0)))
                  rows
                ≡ true)
              × (result.1.tables ≡ after.tables)
            ⊎ ((any
                    (λ x.
                      not (leb_ℤ x.pending_quantity (pos 0))
                      || not (leb_ℤ x.in_progress_quantity (pos 0)))
                    rows
                  ≡ false)
                × (SameLedger after.tables result.1.tables)
                × ((r' : TaskRow) × (find_task e.task_id result.1.tables ≡ some r')
                    × (r'.state ≡ "SUCCEEDED"))))
  unfolding statuses_of
  completed_report r ready typed stored listed = rw handled (
    refl,
    elim (Bool-cases (any is_unfinished (statuses_of e.task_id after.tables))) [
      | inl u ↦ inl (
        sym (any-is_unfinished (filter (λ x. x.task_id == e.task_id) after.tables.statuses)) ∙ u,
        kept e after r completed ready typed stored listed u,
      )
      | inr u ↦
          let (ledger, row) = finished e after r completed ready typed stored listed u in
          inr (
            sym (any-is_unfinished (filter (λ x. x.task_id == e.task_id) after.tables.statuses))
                ∙ u,
            ledger,
            row,
          )
    ],
  )

ignored :
    (e : AmrTaskStatusEvent) (now : String) (t : Tables)
    → any (amr_event_clash (amr_event_row e now)) t.amr_events ≡ true
    → done (insert_amr_event e now) t ≡ some t
unfolding done insert_amr_event insert_row
ignored e now t h = ground arith

-- InsertAmrTaskStatusEvent on a database that works reports success also for an event that is
-- already recorded, and changes no table then: INSERT OR IGNORE is no error, so the handler goes on
-- with a duplicate.
pub duplicate_accepted :
    (e : AmrTaskStatusEvent) (c : Connection Tables)
    → IsReady c
    → any (amr_event_clash (amr_event_row e c.clock)) c.tables.amr_events ≡ true
    → ((insert_amr_task_status_event e c).0 ≡ true)
      × ((insert_amr_task_status_event e c).1.tables ≡ c.tables)
unfolding insert_amr_task_status_event
duplicate_accepted e c ready h =
    let fin =
      Atomic-done (done (insert_amr_event e c.clock)) (record_amr_event e c.clock) c c.tables
        (record_amr_event-Atomic e c.clock) ready (ignored e c.clock c.tables h) in
    (fin.0, fin.1)
