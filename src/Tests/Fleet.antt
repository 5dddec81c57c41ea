-- ===== src/Tests/Fleet.antt =====
-- Runs of the idle points and of the robot manager; a number stands for a pose and for a battery.
use amr_warehouse_collaborat.Prelude.{
  arith, inr, ℕ, ◌≡◌, refl, String, true, false, none, some, [], ◌∷◌,
}
use amr_warehouse_collaborat.Edge.IdlePoints.{
  Allocator, IdlePoint, Station, Package, Document, nodes, load,
}
use amr_warehouse_collaborat.Edge.IdlePoints.Order.{
  free_poses, first, others, allocate_times, first_of,
}
use amr_warehouse_collaborat.Edge.IdlePoints.Loading.{hands_out_after_load}
use amr_warehouse_collaborat.Edge.IdlePoints.Poses.{document_poses}
use amr_warehouse_collaborat.Edge.RobotTypes.{working, RobotBaseInfo, RobotEntity}
use amr_warehouse_collaborat.Edge.Robots.{
  RobotManager, registers, marks_offline, find_robot, first_status, register_robot, operate_all,
}
use amr_warehouse_collaborat.Edge.TaskStore.{find_task}
use amr_warehouse_collaborat.Edge.Heartbeat.{Board, check_amr_heartbeat}
use amr_warehouse_collaborat.Edge.Heartbeat.Spares.{HasWell, heartbeat_spares}
use amr_warehouse_collaborat.Tests.Samples.{connection, stored, task_stored}
use amr_warehouse_collaborat.Edge.Robots.Registry.{IsKept, instance-IsKept}
use amr_warehouse_collaborat.Edge.Robots.Points.{new_robot_outcome}

abbrev point : String → ℕ → IdlePoint ℕ
point id pose = record { station_id = "s1"; location_id = id; pose = pose }

-- Two points, the first one taken.
abbrev points : Allocator ℕ
points = record {
  points = point "a" 11 ∷ point "b" 12 ∷ [];
  occupied = true ∷ false ∷ [];
  zone_ids = [];
}

abbrev stations : Document (Station ℕ)
stations = nodes (
    record {
      id = some "s1";
      locations = some (
          record { kind = some "IDLE"; id = "a"; pose = some 11 }
          ∷ record { kind = some "LOAD"; id = "c"; pose = none }
          ∷ record { kind = some "IDLE"; id = "b"; pose = some 12 }
          ∷ []);
    }
    ∷ [])

abbrev files : Package ℕ
files = record { zones = none; stations = some stations }

loads : (load files points).0 ≡ true
unfolding load
loads = refl

-- The point that was taken before the load is handed out again.
hands_out_after_load_example :
    (allocate_times 3 (load files points).1).0 ≡ some 11 ∷ some 12 ∷ none ∷ []
unfolding first_of document_poses
hands_out_after_load_example = hands_out_after_load files stations points 3 refl loads

abbrev robot : RobotBaseInfo ℕ
robot = record {
  robot_id = "r1";
  instance_id = "";
  warehouse_id = "w1";
  map_version = "v1";
  register_timestamp = 5;
  initial_pose = 0;
}

abbrev entity : RobotEntity ℕ ℕ
entity = record {
  info = record robot { instance_id = "i1"; initial_pose = 11 };
  status = first_status 11 0 5;
}

abbrev fleet : RobotManager ℕ ℕ
fleet = record {
  robots = ("r1", entity) ∷ [];
  allocator = some points;
  notifies = true;
  events = [];
}

knows : find_robot "r1" fleet.robots ≡ some entity
unfolding find_robot
knows = refl

instance-IsKept_example :
    IsKept "r1" entity
      (operate_all 0 0 (registers 7 "i2" robot ∷ marks_offline 9 "r1" ∷ []) fleet).robots
instance-IsKept_example =
    instance-IsKept 0 0 (registers 7 "i2" robot ∷ marks_offline 9 "r1" ∷ []) fleet "r1" entity knows

abbrev newcomer : RobotBaseInfo ℕ
newcomer = record robot { robot_id = "r2" }

unknown : find_robot "r2" fleet.robots ≡ none
unfolding find_robot
unknown = refl

new_robot_outcome_example :
    let (good, m') = register_robot 0 0 7 "i2" newcomer fleet in
    (good ≡ true)
    × ((e : RobotEntity ℕ ℕ) × (find_robot "r2" m'.robots ≡ some e)
        × (e.info.instance_id ≡ "i2")
        × (e.info.initial_pose ≡ 12)
        × (e.status.pose ≡ 12))
    × ((a' : Allocator ℕ) × (m'.allocator ≡ some a') × (free_poses a' ≡ []))
unfolding first others free_poses
new_robot_outcome_example =
    new_robot_outcome 0 0 7 "i2" newcomer fleet points refl unknown refl refl

-- The robot of the stored task was heard of ten seconds ago.
abbrev well_fleet : RobotManager ℕ ℕ
well_fleet = record fleet {
  robots =
      (
        "r1",
        record entity {
          status = record (first_status 11 0 5) { robot_id = "r1"; state = working };
        },
      )
      ∷ [];
}

abbrev board : Board
board = record { db = connection stored; published = [] }

has_well : HasWell 15 well_fleet "t1" task_stored
unfolding find_robot first_status
has_well = inr (
    inr (
      "r1",
      refl,
      record {
        entity = _;
        known = refl;
        online = refl;
        not_offline = ground arith;
        no_error = ground arith;
        recent = omega arith;
      },
    ))

heartbeat_spares_example :
    find_task "t1" (check_amr_heartbeat 15 well_fleet board).db.tables ≡ find_task "t1" stored
heartbeat_spares_example = heartbeat_spares 15 well_fleet "t1" board refl (has_well, tt)
