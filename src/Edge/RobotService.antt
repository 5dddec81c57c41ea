-- ===== src/Edge/RobotService.antt =====
-- edge_server/src/service/robot_service.cpp, and the restoration of robots at the start of
-- edge_server/src/edge_server_app.cpp. The robot manager, the robot tables and the map service are
-- the parts of one state. `origin` is a Pose2D and `unset` a battery that nothing has set.
pub mod Answers
pub mod Restart
use amr_warehouse_collaborat.Prelude.{
  ℕ, ℤ, pos, negsuc, String, Bool, true, false, Option, none, some, List, [], ◌∷◌, if◌then◌else◌,
}
use amr_warehouse_collaborat.Edge.Types.{MapUpdateInfo}
use amr_warehouse_collaborat.Edge.Sql.{Connection}
use amr_warehouse_collaborat.Edge.MapService.{MapService, check_map_update}
use amr_warehouse_collaborat.Edge.IdlePoints.{Allocator, mark_occupied}
use amr_warehouse_collaborat.Edge.RobotTypes.{RobotBaseInfo, RobotRunningStatus}
use amr_warehouse_collaborat.Edge.Robots.{
  RobotManager, register_robot, restore_robot, get_robot_base_info, get_robot_status, mark_offline,
  update_robot_status,
}
use amr_warehouse_collaborat.Edge.RobotStore.{RobotTables, upsert_robot}

pub record RobotRegisterRequest : Type 0 where
  pub robot_id : String
  pub instance_id : String
  pub warehouse_id : String
  pub map_version : String
  pub request_id : String
  pub register_timestamp : ℕ

pub record RobotRegisterResponse (P : Type 0) : Type 0 where
  pub code : ℤ
  pub message : String
  pub robot_id : String
  pub request_id : String
  pub map_version : String
  pub map_download_url : String
  pub map_update : Bool
  pub initial_pose : P
  pub has_initial_pose : Bool

pub record RobotService (P B : Type 0) : Type 0 where
  pub manager : RobotManager P B
  pub store : Connection (RobotTables P B)
  pub maps : MapService

-- The readings of a registration: the manager's clock, its instance id, and CURRENT_TIMESTAMP.
pub record Readings : Type 0 where
  pub now : ℕ
  pub instance_id : String
  pub stamp : String

module _ {P : Type 0} where
  unfoldable pub answer_map :
      Option MapUpdateInfo → RobotRegisterResponse P → RobotRegisterResponse P
  answer_map none resp = record resp { code = negsuc 0; message = "check map failed" }
  answer_map (some info) resp = record resp {
    map_update = info.need_update;
    map_version = info.version;
    map_download_url = info.download_url;
    code = pos 0;
  }

module _ {P B : Type 0} where
  -- The robot is read back, written to the tables (whether this fails is not looked at), and its
  -- initial pose goes into the response.
  unfoldable pub persist :
      String
      → Option (RobotBaseInfo P)
      → Option (RobotRunningStatus P B)
      → RobotRegisterResponse P
      → RobotService P B
      → RobotRegisterResponse P × RobotService P B
  persist stamp none status resp s = (resp, s)
  persist stamp (some robot) none resp s = (resp, s)
  persist stamp (some robot) (some status) resp s = (
    record resp { initial_pose = robot.initial_pose; has_initial_pose = true },
    record s { store = (upsert_robot stamp robot status s.store).1 },
  )

  -- What follows a registration that succeeded.
  unfoldable pub answer_registered :
      String
      → RobotRegisterRequest
      → RobotRegisterResponse P
      → RobotService P B
      → RobotRegisterResponse P × RobotService P B
  unfolding persist answer_map
  answer_registered stamp req blank s =
      let (resp, s') =
        persist stamp (get_robot_base_info req.robot_id s.manager)
          (get_robot_status req.robot_id s.manager) blank s in
      let (info, maps) = check_map_update req.warehouse_id req.map_version s'.maps in
      (answer_map info resp, record s' { maps = maps })

  unfoldable pub handle_status : RobotRunningStatus P B → RobotService P B → RobotService P B
  handle_status status s = record s {
    manager = (update_robot_status status.robot_id status s.manager).1;
  }

  unfoldable pub handle_will : ℕ → String → RobotService P B → RobotService P B
  handle_will now robot_id s = record s { manager = (mark_offline now robot_id s.manager).1 }

module _ {P : Type 0} (origin : P) where
  unfoldable pub requested_robot : RobotRegisterRequest → RobotBaseInfo P
  requested_robot req = record {
    robot_id = req.robot_id;
    instance_id = "";
    warehouse_id = req.warehouse_id;
    map_version = req.map_version;
    register_timestamp = req.register_timestamp;
    initial_pose = origin;
  }

  unfoldable pub blank_response : RobotRegisterRequest → RobotRegisterResponse P
  blank_response req = record {
    code = negsuc 0;
    message = "";
    robot_id = req.robot_id;
    request_id = req.request_id;
    map_version = "";
    map_download_url = "";
    map_update = false;
    initial_pose = origin;
    has_initial_pose = false;
  }

module _ {P B : Type 0} (origin : P) (unset : B) where
  unfoldable pub handle_register :
      Readings
      → RobotRegisterRequest
      → RobotService P B
      → Bool × RobotRegisterResponse P × RobotService P B
  unfolding requested_robot blank_response
  handle_register r req s =
      let (registered, manager) =
        register_robot origin unset r.now r.instance_id (requested_robot origin req) s.manager in
      if registered
      then (let (resp, s') =
            answer_registered r.stamp req (blank_response origin req)
              (record s { manager = manager }) in
          (true, resp, s'))
      else (
        false,
        record (blank_response origin req) { code = negsuc 0; message = "register failed" },
        record s { manager = manager },
      )

unfoldable pub occupy :
    {P : Type 0} → (P → P → Bool) → P → Option (Allocator P) → Option (Allocator P)
occupy near pose none = none
occupy near pose (some a) = some (mark_occupied near pose a)

module _ {P B : Type 0} (near : P → P → Bool) where
  -- One robot of the loop at the start: its initial pose is taken, and it is restored.
  unfoldable pub restore_one :
      RobotBaseInfo P → RobotRunningStatus P B → RobotManager P B → RobotManager P B
  unfolding occupy
  restore_one robot status m =
      restore_robot robot status
        (record m { allocator = occupy near robot.initial_pose m.allocator })

  unfoldable pub restore_all :
      List (RobotBaseInfo P × RobotRunningStatus P B) → RobotManager P B → RobotManager P B
  restore_all [] m = m
  restore_all ((robot, status) ∷ rest) m = restore_all rest (restore_one robot status m)

  unfoldable pub restore_loaded :
      Option (List (RobotBaseInfo P × RobotRunningStatus P B)) → RobotManager P B → RobotManager P B
  restore_loaded none m = m
  restore_loaded (some robots) m = restore_all robots m
