-- ===== src/Edge/RobotStore/RoundTrip.antt =====
-- UpsertRobot as a transaction, and LoadRobots after it
-- (edge_server/src/database/sqlite_db.cpp).
use amr_warehouse_collaborat.Prelude.{
  ℕ, ◌≡◌, refl, ap, ◌∙◌, String, ◌==◌, eq_iff, eq_refl, ==→eq, is_blank, Bool, true, false, not,
  ◌&&◌, some, List, [], ◌∷◌, map, any, find, arith, Bool-cases, Option-cases, inl, inr,
}
use amr_warehouse_collaborat.Edge.Rows.{upsert_row}
use amr_warehouse_collaborat.Edge.RobotTypes.{offline, RobotBaseInfo, RobotRunningStatus}
use amr_warehouse_collaborat.Edge.Sql.{Connection, done}
use amr_warehouse_collaborat.Edge.Sql.Transactions.{
  Atomic, Implements, IsReady, run-Implements, and_then-Implements, if-Implements,
  transaction-Atomic, when_open-Atomic, query_all,
}
use amr_warehouse_collaborat.Edge.RobotStore.{
  RobotRow, InstanceRow, RobotStatusRow, RobotTables, instance_clash, merge_instance, last_instance,
  robot_clash, merge_robot, robot_row, instance_row, robot_status_clash, merge_status, status_row,
  put_base, put_instance, put_status, upsert_rest, upsert_robot, rest_tables, upsert_tables,
  loaded_base, loaded_status, loaded_row, load_robots,
}

module _ {P B : Type 0} (now : String) (robot : RobotBaseInfo P)
    (status : RobotRunningStatus P B) where
  rest-Implements : Implements (rest_tables now robot status) (upsert_rest now robot status)
  unfolding upsert_rest
  rest-Implements =
      if-Implements (is_blank robot.instance_id) _ _ _ _ (run-Implements _)
        (and_then-Implements _ _ _ _ (run-Implements _) (run-Implements _))

  -- UpsertRobot under any schedule of failing calls either writes the rows of the robot, of its
  -- instance, if it has an instance id, and of its status, and reports success; or changes no table
  -- and reports failure.
  pub upsert-Atomic : Atomic (upsert_tables now robot status) (upsert_robot now robot status)
  unfolding upsert_robot
  upsert-Atomic =
      when_open-Atomic _ _
        (transaction-Atomic _ _ (and_then-Implements _ _ _ _ (run-Implements _) rest-Implements))

  -- The rows after an upsert that is done.
  record Upserted (t t' : RobotTables P B) : Type 0 where
    robots : t'.robots ≡ upsert_row robot_clash merge_robot (robot_row now robot) t.robots
    instances :
        t'.instances ≡ upsert_row instance_clash merge_instance (instance_row now robot) t.instances
    statuses :
        t'.statuses
        ≡ upsert_row robot_status_clash merge_status
            (status_row now robot.robot_id status)
            t.statuses

  upsert_tables-Upserted :
      (t t' : RobotTables P B)
      → is_blank robot.instance_id ≡ false
      → upsert_tables now robot status t ≡ some t'
      → Upserted t t'
  unfolding done put_base put_instance put_status
  upsert_tables-Upserted t t' e h = ground arith

  -- The row of a robot after its upsert.
  record IsRowOf (r : RobotRow P) : Type 0 where
    robot_id : r.robot_id ≡ robot.robot_id
    warehouse_id : r.warehouse_id ≡ robot.warehouse_id
    register_timestamp : r.register_timestamp ≡ robot.register_timestamp
    initial_pose : r.initial_pose ≡ robot.initial_pose

  find-upserted_robot :
      (rows : List (RobotRow P))
      → (r : RobotRow P) × (find
            (λ x. x.robot_id == robot.robot_id)
            (upsert_row robot_clash merge_robot (robot_row now robot) rows)
          ≡ some r)
        × IsRowOf r
  unfolding upsert_row robot_clash merge_robot robot_row
  find-upserted_robot [] = (
    robot_row now robot,
    rw (eq_refl robot.robot_id) refl,
    record { robot_id = refl; warehouse_id = refl; register_timestamp = refl; initial_pose = refl },
  )
  find-upserted_robot (x ∷ rows) = elim (Bool-cases (x.robot_id == robot.robot_id)) [
    | inl e ↦ (
      merge_robot x (robot_row now robot),
      rw e (rw e refl),
      record {
        robot_id = ==→eq x.robot_id robot.robot_id e;
        warehouse_id = refl;
        register_timestamp = refl;
        initial_pose = refl;
      },
    )
    | inr e ↦ let (r, found, same) = find-upserted_robot rows in (r, rw e (rw e found), same)
  ]

  record IsStatusOf (s : RobotStatusRow P B) : Type 0 where
    battery : s.battery ≡ status.battery
    pose : s.pose ≡ status.pose
    task_id : s.current_task_id ≡ status.task_id

  find-upserted_status :
      (rows : List (RobotStatusRow P B))
      → (s : RobotStatusRow P B) × (find
            (λ x. x.robot_id == robot.robot_id)
            (upsert_row robot_status_clash merge_status (status_row now robot.robot_id status) rows)
          ≡ some s)
        × IsStatusOf s
  unfolding upsert_row robot_status_clash merge_status status_row
  find-upserted_status [] = (
    status_row now robot.robot_id status,
    rw (eq_refl robot.robot_id) refl,
    record { battery = refl; pose = refl; task_id = refl },
  )
  find-upserted_status (x ∷ rows) = elim (Bool-cases (x.robot_id == robot.robot_id)) [
    | inl e ↦ (
      merge_status x (status_row now robot.robot_id status),
      rw e (rw e refl),
      record { battery = refl; pose = refl; task_id = refl },
    )
    | inr e ↦ let (s, found, same) = find-upserted_status rows in (s, rw e (rw e found), same)
  ]

  -- No row is of another instance of the robot.
  abbrev pub other_instance : InstanceRow → Bool
  other_instance x = x.robot_id == robot.robot_id && not (x.instance_id == robot.instance_id)

  last_instance_known :
      (rows : List InstanceRow) (id : String)
      → any other_instance rows ≡ false
      → last_instance robot.robot_id rows ≡ some id
      → id ≡ robot.instance_id
  unfolding last_instance
  last_instance_known [] id h e = absurd (ground arith)
  last_instance_known (x ∷ rows) id h e = elim (Option-cases (last_instance robot.robot_id rows)) [
    | inl n ↦ ground (arith, eq_iff x.instance_id robot.instance_id)
    | inr (j, n) ↦ ground (arith, last_instance_known rows j)
  ]

  last-upserted :
      (rows : List InstanceRow)
      → any other_instance rows ≡ false
      → last_instance robot.robot_id
          (upsert_row instance_clash merge_instance (instance_row now robot) rows)
        ≡ some robot.instance_id
  unfolding last_instance upsert_row instance_clash merge_instance instance_row
  last-upserted [] h = rw (eq_refl robot.robot_id) refl
  last-upserted (x ∷ rows) h =
      elim (Bool-cases (x.robot_id == robot.robot_id && x.instance_id == robot.instance_id)) [
        | inr e ↦ ground (arith, last-upserted rows)
        | inl e ↦ elim (Option-cases (last_instance robot.robot_id rows)) [
          | inl n ↦ ground (arith, eq_iff x.instance_id robot.instance_id)
          | inr (j, n) ↦ ground (arith, last_instance_known rows j)
        ]
      ]

module _ {P B : Type 0} (no_battery : B) (unset : P) (unset_time : ℕ) where
  find-loaded :
      (robot_id : String) (t : RobotTables P B) (rows : List (RobotRow P)) (r : RobotRow P)
      → find (λ x. x.robot_id == robot_id) rows ≡ some r
      → find (λ y. y.0.robot_id == robot_id) (map (loaded_row no_battery unset unset_time t) rows)
        ≡ some (loaded_row no_battery unset unset_time t r)
  unfolding loaded_row loaded_base
  find-loaded robot_id t [] r h = absurd (ground arith)
  find-loaded robot_id t (x ∷ rows) r h = elim (Bool-cases (x.robot_id == robot_id)) [
    | inl e ↦
        let one : x ≡ r = ground arith in
        rw e (ap (λ z. some (loaded_row no_battery unset unset_time t z)) one)
    | inr e ↦ rw e (find-loaded robot_id t rows r (ground arith))
  ]

  loaded-Upserted :
      (now : String) (robot : RobotBaseInfo P) (status : RobotRunningStatus P B)
      (t t' : RobotTables P B) (r : RobotRow P)
      → any (other_instance now robot status) t.instances ≡ false
      → Upserted now robot status t t'
      → IsRowOf now robot status r
      → loaded_row no_battery unset unset_time t' r ≡ (
        record robot { map_version = "" },
        record status {
          robot_id = robot.robot_id;
          state = offline;
          online = false;
          timestamp = unset_time;
        },
      )
  unfolding loaded_row loaded_base loaded_status
  loaded-Upserted now robot status t t' r known done row =
      let (s, found, same) = find-upserted_status now robot status t.statuses in
      let instance =
        ap (last_instance robot.robot_id) done.instances
        ∙ last-upserted now robot status t.instances known in
      let state = ap (find (λ x. x.robot_id == robot.robot_id)) done.statuses ∙ found in
      rw
        (
          loaded_row, loaded_base, row.robot_id, row.warehouse_id, row.register_timestamp,
          row.initial_pose, instance, state, same.battery, same.pose, same.task_id,
        )
        refl

  -- After an UpsertRobot that succeeded, on a database that works, of a robot with an instance id
  -- and no other instance in the tables, LoadRobots returns the robot as it was given, without its
  -- map version, and its status with battery, pose and task as given, but OFFLINE and not online.
  pub upsert_then_load :
      (now : String) (robot : RobotBaseInfo P) (status : RobotRunningStatus P B)
      (c : Connection (RobotTables P B))
      → IsReady c
      → is_blank robot.instance_id ≡ false
      → any (other_instance now robot status) c.tables.instances ≡ false
      → (upsert_robot now robot status c).0 ≡ true
      → (robots : List (RobotBaseInfo P × RobotRunningStatus P B)) × ((load_robots no_battery unset
            unset_time
            (upsert_robot now robot status c).1).0
          ≡ some robots)
        × (find (λ y. y.0.robot_id == robot.robot_id) robots
            ≡ some (
              record robot { map_version = "" },
              record status {
                robot_id = robot.robot_id;
                state = offline;
                online = false;
                timestamp = unset_time;
              },
            ))
  unfolding load_robots
  upsert_then_load now robot status c ready named known h =
      let d = (upsert_robot now robot status c).1 in
      let atomic = upsert-Atomic now robot status in
      let done =
        upsert_tables-Upserted now robot status c.tables d.tables named
          (atomic.committed c ready.closed h) in
      let (r, found, row) = find-upserted_robot now robot status c.tables.robots in
      let there = ap (find (λ x. x.robot_id == robot.robot_id)) done.robots ∙ found in
      let read =
        query_all (λ t. map (loaded_row no_battery unset unset_time t) t.robots) d
          (atomic.reliable c ready.reliable) in
      (
        map (loaded_row no_battery unset unset_time d.tables) d.tables.robots,
        ground (arith, atomic.opened c, ready.opened, read),
        find-loaded robot.robot_id d.tables d.tables.robots r there
            ∙ ap some (loaded-Upserted now robot status c.tables d.tables r known done row),
      )
