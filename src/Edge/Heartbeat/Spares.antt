-- ===== src/Edge/Heartbeat/Spares.antt =====
-- Which tasks checkAmrHeartbeat leaves alone (edge_server/src/edge_server_app.cpp).
use amr_warehouse_collaborat.Edge.Sql.{quiet}
use amr_warehouse_collaborat.Prelude.{
  sym, subst, ◌≤◌, ◌+◌, ◌⊎◌, ◌≢◌, some, any, ==→eq, ℕ, ◌≡◌, refl, ap, ◌∙◌, String, ◌==◌, eq_iff,
  Bool, true, false, not, ◌||◌, Option, List, [], ◌∷◌, map, filter, find, All, is_empty, arith,
  Bool-cases, Option-cases, inl, inr,
}
use amr_warehouse_collaborat.Edge.Types.{TransportTask}
use amr_warehouse_collaborat.Edge.Rows.Laws.{find-change_rows_apart}
use amr_warehouse_collaborat.Edge.Schema.{Tables, TaskRow}
use amr_warehouse_collaborat.Edge.Sql.{Connection, query}
use amr_warehouse_collaborat.Edge.Sql.Keeps.{IsSafe, Atomic-IsSafe, SameTables-IsSafe, query-IsSafe}
use amr_warehouse_collaborat.Edge.Sql.Transactions.{query-All}
use amr_warehouse_collaborat.Edge.TaskStore.{
  find_task, is_task, set_state, update_task_state_with_event, active_tasks, get_active_tasks,
  task_of_row,
}
use amr_warehouse_collaborat.Edge.TaskStore.Ledger.{set_state_with_event-Atomic, state_event-inv}
use amr_warehouse_collaborat.Edge.TaskReports.{mark_task_interrupted, build_task_state_message}
use amr_warehouse_collaborat.Edge.TaskReports.Message.{build_task_state_message-SameTables}
use amr_warehouse_collaborat.Edge.RobotTypes.{RobotEntity, offline, error}
use amr_warehouse_collaborat.Edge.Robots.{RobotManager, find_robot, get_robot_status, status_of}
use amr_warehouse_collaborat.Edge.Heartbeat.{
  Board, is_down, is_abnormal, none_well, all_abnormal, publish_state, check_task, check_tasks,
  check_found, check_amr_heartbeat,
}

module _ {P B : Type 0} (now : ℕ) (robots : RobotManager P B) (task_id : String) where
  -- Another task, or one that has a robot that is well.
  abbrev pub IsWell : TransportTask → Type 0
  IsWell task = (not (task.task_id == task_id) || not (all_abnormal now robots task)) ≡ true

  module _ (r : Option TaskRow) where
    abbrev IsSpared : Connection Tables → Type 0
    IsSpared = IsSafe (λ t. find_task task_id t ≡ r)

    mark_other :
        (other reason : String) (c : Connection Tables)
        → (other == task_id) ≡ false
        → IsSpared c
        → IsSpared (mark_task_interrupted other reason c).1
    unfolding mark_task_interrupted update_task_state_with_event find_task set_state
    mark_other other reason c apart =
        Atomic-IsSafe _ _ _
          (set_state_with_event-Atomic other "INTERRUPTED" reason "TIMEOUT" c.clock)
          (λ t t' v h.
            ap (find (is_task task_id))
              (state_event-inv other "INTERRUPTED" reason "TIMEOUT" c.clock t t' h).1
            ∙ find-change_rows_apart (is_task task_id) (is_task other)
                (set_state "INTERRUPTED" reason c.clock) t.tasks (λ x. refl)
                (λ x e.
                  ground
                    (arith, eq_iff x.task_id task_id, eq_iff x.task_id other, eq_iff other task_id))
            ∙ v)
          c

    check_task-IsSpared :
        (task : TransportTask) (b : Board)
        → IsWell task
        → IsSpared b.db
        → IsSpared (check_task now robots task b).db
    unfolding check_task publish_state
    check_task-IsSpared task b well v =
        let marked = (mark_task_interrupted task.task_id "ALL_AMRS_ABNORMAL" b.db).1 in
        ground (
          arith,
          mark_other task.task_id "ALL_AMRS_ABNORMAL" b.db,
          SameTables-IsSafe (λ t. find_task task_id t ≡ r) marked
              (build_task_state_message task.task_id marked).1
              (build_task_state_message-SameTables task.task_id marked),
        )

    check_tasks-IsSpared :
        (tasks : List TransportTask) (b : Board)
        → All IsWell tasks
        → IsSpared b.db
        → IsSpared (check_tasks now robots tasks b).db
    unfolding check_tasks
    check_tasks-IsSpared [] b well v = v
    check_tasks-IsSpared (task ∷ rest) b well v =
        check_tasks-IsSpared rest (check_task now robots task b) well.1
          (check_task-IsSpared task b well.0 v)

  -- The manager knows the robot, which is online, neither OFFLINE nor in ERROR, and was heard of at
  -- most 300 seconds ago.
  pub record IsWellRobot (robot_id : String) : Type 0 where
    pub entity : RobotEntity P B
    pub known : find_robot robot_id robots.robots ≡ some entity
    pub online : entity.status.online ≡ true
    pub not_offline : entity.status.state ≢ offline
    pub no_error : entity.status.state ≢ error
    pub recent : now ≤ entity.status.timestamp + 300

  -- The row is of another task, or has no robots, or has one that is well.
  abbrev pub HasWell : TaskRow → Type 0
  HasWell x =
      (is_task task_id x ≡ false)
      ⊎ ((x.robot_ids ≡ [])
          ⊎ ((robot_id : String) × (any (λ id. id == robot_id) x.robot_ids ≡ true)
              × IsWellRobot robot_id))

  well-is_abnormal :
      (robot_id : String) (w : IsWellRobot robot_id)
      → is_abnormal now robots w.entity.status ≡ false
  unfolding is_abnormal is_down
  well-is_abnormal robot_id w = ground (arith, w.online, w.not_offline, w.no_error, w.recent)

  known_status :
      (robot_id : String) (w : IsWellRobot robot_id)
      → get_robot_status robot_id robots ≡ some w.entity.status
  unfolding get_robot_status status_of
  known_status robot_id w = rw w.known refl

  first_well :
      (robot_id : String) (ids : List String)
      → IsWellRobot robot_id
      → none_well now robots (robot_id ∷ ids) ≡ false
  unfolding none_well
  first_well robot_id ids w = ground (arith, known_status robot_id w, well-is_abnormal robot_id w)

  some_well :
      (robot_id : String) (ids : List String)
      → IsWellRobot robot_id
      → any (λ id. id == robot_id) ids ≡ true
      → none_well now robots ids ≡ false
  unfolding none_well
  some_well robot_id [] w h = absurd (ground arith)
  some_well robot_id (id ∷ ids) w h = elim (Bool-cases (id == robot_id)) [
    | inl e ↦
        subst (λ i. none_well now robots (i ∷ ids) ≡ false) (sym (==→eq id robot_id e))
          (first_well robot_id ids w)
    | inr e ↦ ground (arith, some_well robot_id ids w (ground (arith, h, e)))
  ]

  spared_row :
      (x : TaskRow)
      → HasWell x
      → (not (is_task task_id x) || is_empty x.robot_ids || not (none_well now robots x.robot_ids))
        ≡ true
  spared_row x (inl other) = ground arith
  spared_row x (inr (inl e)) = ground (arith, ap is_empty e)
  spared_row x (inr (inr (robot_id, listed, w))) =
      ground (arith, some_well robot_id x.robot_ids w listed)

  listed-IsWell :
      (chosen : TaskRow → Bool) (listed : TaskRow → TransportTask) (rows : List TaskRow)
      → ((x : TaskRow) → HasWell x → IsWell (listed x))
      → All HasWell rows
      → All IsWell (map listed (filter chosen rows))
  listed-IsWell chosen listed [] f h = tt
  listed-IsWell chosen listed (x ∷ rows) f h = elim (Bool-cases (chosen x)) [
    | inl e ↦ rw e (f x h.0, listed-IsWell chosen listed rows f h.1)
    | inr e ↦ rw e (listed-IsWell chosen listed rows f h.1)
  ]

  active-IsWell : (t : Tables) → All HasWell t.tasks → All IsWell (active_tasks t)
  unfolding active_tasks task_of_row all_abnormal
  active-IsWell t h = listed-IsWell _ _ t.tasks (λ x w. ground (arith, spared_row x w)) h

  -- checkAmrHeartbeat leaves the row of a task as it is when no robot is named there or one of the
  -- named robots is known and well: online, neither OFFLINE nor in ERROR, and heard of at most 300
  -- seconds ago. This holds on a quiet connection, where no transaction is open and
  -- no BEGIN, COMMIT or ROLLBACK fails, whichever calls of prepare and step fail and whatever happens
  -- to the other tasks.
  pub heartbeat_spares :
      (b : Board)
      → b.db.saved ≡ quiet
      → All HasWell b.db.tables.tasks
      → find_task task_id (check_amr_heartbeat now robots b).db.tables
        ≡ find_task task_id b.db.tables
  unfolding check_amr_heartbeat check_found get_active_tasks
  heartbeat_spares b closed well =
      let r = find_task task_id b.db.tables in
      let start : IsSpared r b.db = record { closed = closed; holds = refl } in
      let read = query-IsSafe (λ t. find_task task_id t ≡ r) active_tasks b.db start in
      let d = (query active_tasks b.db).1 in
      elim (Option-cases (query active_tasks b.db).0) [
        | inl n ↦ ground (arith, n, start.holds, read.holds)
        | inr (tasks, n) ↦
            let good =
              query-All IsWell active_tasks b.db tasks (active-IsWell b.db.tables well) n in
            let done = check_tasks-IsSpared r tasks (record b { db = d }) good read in
            ground (arith, n, start.holds, done.holds)
      ]
