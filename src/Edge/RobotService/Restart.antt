-- ===== src/Edge/RobotService/Restart.antt =====
-- What a restart of the edge server keeps of a robot: LoadRobots, restoreRobot and the next
-- registration (edge_server/src/edge_server_app.cpp, robot/robot_manager.cpp).
use amr_warehouse_collaborat.Prelude.{
  ℕ, String, ◌==◌, ==→eq, is_blank, Bool, true, false, ◌≡◌, refl, ap, ◌∙◌, subst, none, some, List,
  [], ◌∷◌, find, any, arith, Bool-cases, inl, inr,
}
use amr_warehouse_collaborat.Edge.Sql.{Connection}
use amr_warehouse_collaborat.Edge.RobotTypes.{
  offline, RobotBaseInfo, RobotRunningStatus, RobotEntity,
}
use amr_warehouse_collaborat.Edge.Robots.{RobotManager, find_robot, register_robot, restore_robot}
use amr_warehouse_collaborat.Edge.Robots.Registry.{
  IsKept, restore-IsKept, register-IsKept, find-put_robot, find-put_robot_other,
}
use amr_warehouse_collaborat.Edge.RobotStore.{RobotTables, upsert_robot, load_robots}
use amr_warehouse_collaborat.Edge.RobotStore.RoundTrip.{other_instance, upsert_then_load}
use amr_warehouse_collaborat.Edge.Sql.Transactions.{IsReady}
use amr_warehouse_collaborat.Edge.RobotService.{occupy, restore_one, restore_all, restore_loaded}

module _ {P B : Type 0} (origin : P) (unset : B) (near : P → P → Bool) (id : String) where
  restore_all-IsKept :
      (robots : List (RobotBaseInfo P × RobotRunningStatus P B)) (m : RobotManager P B)
      (e : RobotEntity P B)
      → find_robot id m.robots ≡ some e
      → IsKept id e (restore_all near robots m).robots
  unfolding restore_all restore_one
  restore_all-IsKept [] m e known = (e, known, record { instance_id = refl; initial_pose = refl })
  restore_all-IsKept ((robot, status) ∷ rest) m e known =
      let m' = record m { allocator = occupy near robot.initial_pose m.allocator } in
      let (e', known', same) = restore-IsKept origin unset robot status m' id e known in
      let (e'', known'', same') =
        restore_all-IsKept rest (restore_one near robot status m) e' known' in
      (
        e'',
        known'',
        record {
          instance_id = same'.instance_id ∙ same.instance_id;
          initial_pose = same'.initial_pose ∙ same.initial_pose;
        },
      )

  abbrev restored : RobotBaseInfo P → RobotRunningStatus P B → RobotEntity P B
  restored robot status = record {
    info = robot;
    status = record status { robot_id = robot.robot_id; online = false; state = offline };
  }

  restore_one-unknown :
      (robot : RobotBaseInfo P) (status : RobotRunningStatus P B) (m : RobotManager P B)
      → (robot.robot_id == id) ≡ false
      → find_robot id m.robots ≡ none
      → find_robot id (restore_one near robot status m).robots ≡ none
  unfolding restore_one restore_robot
  restore_one-unknown robot status m other unknown =
      ground (arith, find-put_robot_other robot.robot_id id (restored robot status) m.robots other)

  -- The robot of the tables, as far as the manager keeps it.
  abbrev pub IsRestored : RobotBaseInfo P → List (String × RobotEntity P B) → Type 0
  IsRestored robot robots =
      (e : RobotEntity P B) × (find_robot id robots ≡ some e)
      × (e.info.instance_id ≡ robot.instance_id)
      × (e.info.initial_pose ≡ robot.initial_pose)

  restore_one-new :
      (robot : RobotBaseInfo P) (status : RobotRunningStatus P B) (m : RobotManager P B)
      → is_blank robot.robot_id ≡ false
      → find_robot robot.robot_id m.robots ≡ none
      → find_robot robot.robot_id (restore_one near robot status m).robots
        ≡ some (restored robot status)
  unfolding restore_one restore_robot
  restore_one-new robot status m named unknown =
      rw (named, unknown) (find-put_robot robot.robot_id (restored robot status) m.robots)

  restore_all-IsRestored :
      (robots : List (RobotBaseInfo P × RobotRunningStatus P B)) (m : RobotManager P B)
      (robot : RobotBaseInfo P) (status : RobotRunningStatus P B)
      → is_blank id ≡ false
      → find_robot id m.robots ≡ none
      → find (λ y. y.0.robot_id == id) robots ≡ some (robot, status)
      → IsRestored robot (restore_all near robots m).robots
  unfolding restore_all
  restore_all-IsRestored [] m robot status named unknown there = cc
  restore_all-IsRestored ((r, s) ∷ rest) m robot status named unknown there =
      elim (Bool-cases (r.robot_id == id)) [
        | inl same ↦
            let at : r.robot_id ≡ id = ==→eq r.robot_id id same in
            let known =
              subst (λ i. find_robot i (restore_one near r s m).robots ≡ some (restored r s)) at
                (restore_one-new r s m (ap is_blank at ∙ named)
                  (ap (λ i. find_robot i m.robots) at ∙ unknown)) in
            let (e, kept, instance) =
              restore_all-IsKept rest (restore_one near r s m) (restored r s) known in
            let first : r ≡ robot = ground arith in
            (
              e,
              kept,
              instance.instance_id ∙ ap (λ (x : RobotBaseInfo P). x.instance_id) first,
              instance.initial_pose ∙ ap (λ (x : RobotBaseInfo P). x.initial_pose) first,
            )
        | inr other ↦
            restore_all-IsRestored rest (restore_one near r s m) robot status named
              (restore_one-unknown r s m other unknown) (ground arith)
      ]

module _ {P B : Type 0} (origin : P) (unset no_battery : B) (unset_time : ℕ)
    (near : P → P → Bool) where
  -- A robot keeps its instance id and its initial pose through a restart of the edge server: after
  -- an UpsertRobot that succeeded, on a database that works, of a robot with an id, an instance id
  -- and no other instance in the tables, a manager that knows no robot yet and restores what
  -- LoadRobots gives knows the robot with this instance id and initial pose, also when the robot
  -- then registers again.
  pub restart_keeps_robot :
      (stamp : String) (robot : RobotBaseInfo P) (status : RobotRunningStatus P B)
      (c : Connection (RobotTables P B)) (m : RobotManager P B) (now : ℕ) (instance_id : String)
      (again : RobotBaseInfo P)
      → IsReady c
      → is_blank robot.robot_id ≡ false
      → is_blank robot.instance_id ≡ false
      → any (other_instance stamp robot status) c.tables.instances ≡ false
      → (upsert_robot stamp robot status c).0 ≡ true
      → m.robots ≡ []
      → let started =
          restore_loaded near
            (load_robots no_battery origin unset_time (upsert_robot stamp robot status c).1).0
            m in
        IsRestored origin unset near robot.robot_id robot started.robots
        × IsRestored origin unset near robot.robot_id robot
            (register_robot origin unset now instance_id again started).1.robots
  unfolding find_robot
  restart_keeps_robot stamp robot status c m now instance_id again ready named instance alone done
        fresh =
      let (robots, loaded, found) =
        upsert_then_load no_battery origin unset_time stamp robot status c ready instance alone
          done in
      let (e, known, same_instance, same_pose) =
        restore_all-IsRestored origin unset near robot.robot_id robots m
          (record robot { map_version = "" })
          (record status {
            robot_id = robot.robot_id;
            state = offline;
            online = false;
            timestamp = unset_time;
          })
          named (ap (find_robot robot.robot_id) fresh) found in
      let started = restore_all near robots m in
      let (e', known', kept) =
        register-IsKept origin unset now instance_id again started robot.robot_id e known in
      rw loaded (
        unfold restore_loaded in (e, known, same_instance, same_pose),
        unfold restore_loaded in
            (e', known', kept.instance_id ∙ same_instance, kept.initial_pose ∙ same_pose),
      )
