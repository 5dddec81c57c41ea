-- ===== src/Edge/RobotStore.antt =====
-- SQLiteDB::UpsertRobot and SQLiteDB::LoadRobots (edge_server/src/database/sqlite_db.cpp) with the
-- three robot tables, which no other statement reads. A column of JSON text that holds a pose is
-- kept as the pose, and the text of a registration time as the number that it writes down. The
-- clock reading is an argument.
pub mod RoundTrip
use Prim.Native.String.{◌++◌ as append}
use amr_warehouse_collaborat.Prelude.{
  ℕ, String, ◌==◌, is_blank, Bool, true, false, not, ◌&&◌, Option, none, some, List, [], ◌∷◌, map,
  find, if◌then◌else◌,
}
use amr_warehouse_collaborat.Edge.Rows.{upsert_row}
use amr_warehouse_collaborat.Edge.RobotTypes.{
  offline, robot_state_to_string, RobotBaseInfo, RobotRunningStatus,
}
use amr_warehouse_collaborat.Edge.Sql.{
  Connection, run, done, ◌and_then◌, transaction, when_open, query,
}
use amr_warehouse_collaborat.Edge.Sql.Transactions.{◌then_do◌}

pub record RobotRow (P : Type 0) : Type 0 where
  pub robot_id : String
  pub warehouse_id : String
  pub robot_name : String
  pub register_timestamp : ℕ
  pub updated_at : String
  pub initial_pose : P

pub record InstanceRow : Type 0 where
  pub robot_id : String
  pub instance_id : String
  pub model_name : String
  pub lifecycle_state : String
  pub created_at : ℕ
  pub updated_at : String

pub record RobotStatusRow (P B : Type 0) : Type 0 where
  pub robot_id : String
  pub state : String
  pub online : Bool
  pub battery : B
  pub pose : P
  pub current_task_id : String
  pub updated_at : String

pub record RobotTables (P B : Type 0) : Type 0 where
  pub robots : List (RobotRow P)
  pub instances : List InstanceRow
  pub statuses : List (RobotStatusRow P B)

-- UNIQUE(robot_id, instance_id).
unfoldable pub instance_clash : InstanceRow → InstanceRow → Bool
instance_clash r x = x.robot_id == r.robot_id && x.instance_id == r.instance_id

unfoldable pub merge_instance : InstanceRow → InstanceRow → InstanceRow
merge_instance old new = record old {
  model_name = new.model_name;
  lifecycle_state = new.lifecycle_state;
  updated_at = new.updated_at;
}

-- ORDER BY i.id DESC LIMIT 1: the last row of the robot.
unfoldable pub last_instance : String → List InstanceRow → Option String
last_instance robot_id [] = none
last_instance robot_id (x ∷ rows) = elim (last_instance robot_id rows) [
  | none ↦ if x.robot_id == robot_id then some x.instance_id else none
  | some id ↦ some id
]

module _ {P : Type 0} where
  unfoldable pub robot_clash : RobotRow P → RobotRow P → Bool
  robot_clash r x = x.robot_id == r.robot_id

  unfoldable pub merge_robot : RobotRow P → RobotRow P → RobotRow P
  merge_robot old new = record old {
    warehouse_id = new.warehouse_id;
    robot_name = new.robot_name;
    register_timestamp = new.register_timestamp;
    updated_at = new.updated_at;
    initial_pose = new.initial_pose;
  }

  unfoldable pub robot_row : String → RobotBaseInfo P → RobotRow P
  robot_row now robot = record {
    robot_id = robot.robot_id;
    warehouse_id = robot.warehouse_id;
    robot_name = "";
    register_timestamp = robot.register_timestamp;
    updated_at = now;
    initial_pose = robot.initial_pose;
  }

  unfoldable pub instance_row : String → RobotBaseInfo P → InstanceRow
  instance_row now robot = record {
    robot_id = robot.robot_id;
    instance_id = robot.instance_id;
    model_name = append "amr_" (append robot.robot_id (append "_" robot.instance_id));
    lifecycle_state = "REGISTERED";
    created_at = robot.register_timestamp;
    updated_at = now;
  }

module _ {P B : Type 0} where
  unfoldable pub robot_status_clash : RobotStatusRow P B → RobotStatusRow P B → Bool
  robot_status_clash r x = x.robot_id == r.robot_id

  unfoldable pub merge_status : RobotStatusRow P B → RobotStatusRow P B → RobotStatusRow P B
  merge_status old new = record old {
    state = new.state;
    online = new.online;
    battery = new.battery;
    pose = new.pose;
    current_task_id = new.current_task_id;
    updated_at = new.updated_at;
  }

  unfoldable pub status_row : String → String → RobotRunningStatus P B → RobotStatusRow P B
  status_row now robot_id status = record {
    robot_id = robot_id;
    state = robot_state_to_string status.state;
    online = status.online;
    battery = status.battery;
    pose = status.pose;
    current_task_id = status.task_id;
    updated_at = now;
  }

  unfoldable pub put_base :
      String → RobotBaseInfo P → RobotTables P B → Option (ℕ × RobotTables P B)
  put_base now robot t =
      some
        (1, record t { robots = upsert_row robot_clash merge_robot (robot_row now robot) t.robots })

  unfoldable pub put_instance :
      String → RobotBaseInfo P → RobotTables P B → Option (ℕ × RobotTables P B)
  put_instance now robot t = some (
    1,
    record t {
      instances = upsert_row instance_clash merge_instance (instance_row now robot) t.instances;
    },
  )

  unfoldable pub put_status :
      String → String → RobotRunningStatus P B → RobotTables P B → Option (ℕ × RobotTables P B)
  put_status now robot_id status t = some (
    1,
    record t {
      statuses =
          upsert_row robot_status_clash merge_status (status_row now robot_id status) t.statuses;
    },
  )

  -- The second and the third statement; without an instance id the second is left out.
  unfoldable pub upsert_rest :
      String
      → RobotBaseInfo P
      → RobotRunningStatus P B
      → Connection (RobotTables P B)
      → Bool × Connection (RobotTables P B)
  upsert_rest now robot status =
      if is_blank robot.instance_id
      then run (done (put_status now robot.robot_id status))
      else run (done (put_instance now robot))
        and_then run (done (put_status now robot.robot_id status))

  unfoldable pub upsert_robot :
      String
      → RobotBaseInfo P
      → RobotRunningStatus P B
      → Connection (RobotTables P B)
      → Bool × Connection (RobotTables P B)
  upsert_robot now robot status =
      when_open
        (transaction (run (done (put_base now robot)) and_then upsert_rest now robot status))

  -- What an upsert does to the tables, failing calls apart.
  abbrev pub rest_tables :
      String → RobotBaseInfo P → RobotRunningStatus P B → RobotTables P B → Option (RobotTables P B)
  rest_tables now robot status t =
      if is_blank robot.instance_id
      then done (put_status now robot.robot_id status) t
      else (done (put_instance now robot) then_do done (put_status now robot.robot_id status)) t

  abbrev pub upsert_tables :
      String → RobotBaseInfo P → RobotRunningStatus P B → RobotTables P B → Option (RobotTables P B)
  upsert_tables now robot status = done (put_base now robot) then_do rest_tables now robot status

-- `no_battery` is 0.0, which SQLite gives for NULL; `unset` and `unset_time` are fields that the
-- function does not assign.
module _ {P B : Type 0} (no_battery : B) (unset : P) (unset_time : ℕ) where
  text_or_empty : Option String → String
  text_or_empty none = ""
  text_or_empty (some s) = s

  unfoldable pub loaded_base : RobotTables P B → RobotRow P → RobotBaseInfo P
  unfolding text_or_empty
  loaded_base t r = record {
    robot_id = r.robot_id;
    instance_id = text_or_empty (last_instance r.robot_id t.instances);
    warehouse_id = r.warehouse_id;
    map_version = "";
    register_timestamp = r.register_timestamp;
    initial_pose = r.initial_pose;
  }

  -- LEFT JOIN: a robot without a row of status has NULL in its columns.
  unfoldable pub loaded_status : String → Option (RobotStatusRow P B) → RobotRunningStatus P B
  loaded_status robot_id none = record {
    robot_id = robot_id;
    state = offline;
    online = false;
    timestamp = unset_time;
    battery = no_battery;
    pose = unset;
    task_id = "";
  }
  loaded_status robot_id (some s) = record {
    robot_id = robot_id;
    state = offline;
    online = false;
    timestamp = unset_time;
    battery = s.battery;
    pose = s.pose;
    task_id = s.current_task_id;
  }

  unfoldable pub loaded_row :
      RobotTables P B → RobotRow P → RobotBaseInfo P × RobotRunningStatus P B
  unfolding loaded_base loaded_status
  loaded_row t r =
      (loaded_base t r, loaded_status r.robot_id (find (λ s. s.robot_id == r.robot_id) t.statuses))

  unfoldable pub load_robots :
      Connection (RobotTables P B)
      → Option (List (RobotBaseInfo P × RobotRunningStatus P B)) × Connection (RobotTables P B)
  unfolding loaded_row
  load_robots c = if c.is_open then query (λ t. map (loaded_row t) t.robots) c else (none, c)
