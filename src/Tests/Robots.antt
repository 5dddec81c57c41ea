-- ===== src/Tests/Robots.antt =====
-- Runs of the robot tables; a number stands for a pose and for a battery.
use amr_warehouse_collaborat.Edge.Sql.{quiet}
use amr_warehouse_collaborat.Edge.Rows.{upsert_row}
use amr_warehouse_collaborat.Prelude.{ℕ, ◌≡◌, refl, true, false, some, List, [], ◌∷◌, find, ◌==◌}
use amr_warehouse_collaborat.Edge.RobotTypes.{offline, working, RobotBaseInfo, RobotRunningStatus}
use amr_warehouse_collaborat.Edge.Sql.{Connection, done}
use amr_warehouse_collaborat.Edge.Sql.Transactions.{Atomic-done, IsReady}
use amr_warehouse_collaborat.Edge.RobotStore.{
  RobotTables, upsert_robot, upsert_tables, load_robots, robot_row, instance_row, status_row,
  put_base, put_instance, put_status,
}
use amr_warehouse_collaborat.Edge.RobotStore.RoundTrip.{upsert-Atomic, upsert_then_load}

abbrev pub robot : RobotBaseInfo ℕ
robot = record {
  robot_id = "r1";
  instance_id = "i1";
  warehouse_id = "w1";
  map_version = "v1";
  register_timestamp = 5;
  initial_pose = 11;
}

abbrev pub status : RobotRunningStatus ℕ ℕ
status = record {
  robot_id = "r1";
  state = working;
  online = true;
  timestamp = 7;
  battery = 80;
  pose = 12;
  task_id = "t1";
}

abbrev pub no_robots : Connection (RobotTables ℕ ℕ)
no_robots = record {
  is_open = true;
  tables = record { robots = []; instances = []; statuses = [] };
  saved = quiet;
  faults = [];
  clock = "9";
}

pub no_robots-IsReady : IsReady no_robots
no_robots-IsReady = record { opened = refl; closed = refl; reliable = refl }

abbrev one_robot : RobotTables ℕ ℕ
one_robot = record {
  robots = robot_row "8" robot ∷ [];
  instances = instance_row "8" robot ∷ [];
  statuses = status_row "8" "r1" status ∷ [];
}

upserts : upsert_tables "8" robot status no_robots.tables ≡ some one_robot
unfolding done put_base put_instance put_status upsert_row
upserts = refl

pub upsert_succeeds : (upsert_robot "8" robot status no_robots).0 ≡ true
upsert_succeeds =
    (Atomic-done (upsert_tables "8" robot status) (upsert_robot "8" robot status) no_robots
      one_robot (upsert-Atomic "8" robot status) no_robots-IsReady upserts).0

upsert_then_load_example :
    (robots : List (RobotBaseInfo ℕ × RobotRunningStatus ℕ ℕ)) × ((load_robots 0 0 0
        (upsert_robot "8" robot status no_robots).1).0
      ≡ some robots)
    × (find (λ y. y.0.robot_id == "r1") robots
        ≡ some (
          record robot { map_version = "" },
          record status { state = offline; online = false; timestamp = 0 },
        ))
upsert_then_load_example =
    upsert_then_load 0 0 0 "8" robot status no_robots no_robots-IsReady refl refl upsert_succeeds
