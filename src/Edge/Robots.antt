-- ===== src/Edge/Robots.antt =====
-- edge_server/src/robot/robot_manager.cpp. `P` is Pose2D and `B` is double; `origin` is Pose2D{} and `unset` the
-- battery of a status that was never assigned. Clock readings and the text that ms_to_md_hms makes
-- of the registration time are arguments.
pub mod Registry
pub mod Points
use amr_warehouse_collaborat.Prelude.{
  ℕ, String, ◌==◌, is_blank, Bool, true, false, ◌||◌, Option, none, some, List, [], ◌∷◌, ◌++◌, map,
  is_some, if◌then◌else◌,
}
use amr_warehouse_collaborat.Edge.RobotTypes.{
  RobotState, offline, initializing, idle, working, charging, paused, error, robot_state_to_string,
  robot_state_from_string, RobotBaseInfo, RobotRunningStatus, RobotInstanceInfo, RobotEntity,
  RobotEvent, register, status_changed, pose_changed, robot_offline,
}
use amr_warehouse_collaborat.Edge.IdlePoints.{Allocator, allocate}

-- `robots` has one entry for each key; the order of an unordered_map is not specified, here it is
-- that of the insertions. `allocator` is what the function m_poseAllocator draws from, `none` when
-- it is not set; `notifies` is `m_callback != nullptr`.
pub record RobotManager (P B : Type 0) : Type 0 where
  pub robots : List (String × RobotEntity P B)
  pub allocator : Option (Allocator P)
  pub notifies : Bool
  pub events : List RobotEvent

-- `m_poseAllocator(robotStatus.pose)` on a pose that was the origin.
unfoldable pub draw_pose : {P : Type 0} → P → Option (Allocator P) → P × Option (Allocator P)
draw_pose origin none = (origin, none)
draw_pose origin (some a) =
    let (pose, a') = allocate a in elim pose [ none ↦ (origin, some a') | some p ↦ (p, some a') ]

module _ {P B : Type 0} where
  unfoldable pub find_robot : String → List (String × RobotEntity P B) → Option (RobotEntity P B)
  find_robot robot_id [] = none
  find_robot robot_id ((key, entity) ∷ rest) =
      if key == robot_id then some entity else find_robot robot_id rest

  -- `m_robots[robot_id] = entity`, and an assignment through the iterator of a key that is there.
  unfoldable pub put_robot :
      String → RobotEntity P B → List (String × RobotEntity P B) → List (String × RobotEntity P B)
  put_robot robot_id entity [] = (robot_id, entity) ∷ []
  put_robot robot_id entity ((key, old) ∷ rest) =
      let others = put_robot robot_id entity rest in
      if key == robot_id then (key, entity) ∷ rest else (key, old) ∷ others

  unfoldable pub signal : RobotEvent → RobotManager P B → RobotManager P B
  signal event m = if m.notifies then record m { events = m.events ++ event ∷ [] } else m

  unfoldable pub instance_info : RobotEntity P B → RobotInstanceInfo P
  instance_info entity = record {
    robot_id = entity.info.robot_id;
    instance_id = entity.info.instance_id;
    pose = entity.info.initial_pose;
  }

  unfoldable pub first_status : P → B → ℕ → RobotRunningStatus P B
  first_status pose unset now = record {
    robot_id = "";
    state = initializing;
    online = true;
    timestamp = now;
    battery = unset;
    pose = pose;
    task_id = "";
  }

  -- A robot that is known keeps its instance id and its initial pose.
  unfoldable pub refresh : RobotBaseInfo P → RobotEntity P B → RobotEntity P B
  refresh robot entity = record entity {
    info = record robot {
      instance_id = entity.info.instance_id;
      initial_pose = entity.info.initial_pose;
    };
  }

  unfoldable pub register_new :
      P → B → ℕ → String → RobotBaseInfo P → RobotManager P B → RobotManager P B
  unfolding draw_pose first_status
  register_new origin unset now instance_id robot m =
      let (pose, allocator) = draw_pose origin m.allocator in
      record m {
        robots =
            put_robot robot.robot_id
              (record {
                info = record robot { instance_id = instance_id; initial_pose = pose };
                status = first_status pose unset now;
              })
              m.robots;
        allocator = allocator;
      }

  unfoldable pub register_robot :
      P → B → ℕ → String → RobotBaseInfo P → RobotManager P B → Bool × RobotManager P B
  unfolding signal refresh register_new
  register_robot origin unset now instance_id robot m =
      if is_blank robot.robot_id then (false, m) else (elim (find_robot robot.robot_id m.robots) [
        | some entity ↦ (
          true,
          signal register
              (record m { robots = put_robot robot.robot_id (refresh robot entity) m.robots }),
        )
        | none ↦ (true, signal register (register_new origin unset now instance_id robot m))
      ])

  unfoldable pub restore_robot :
      RobotBaseInfo P → RobotRunningStatus P B → RobotManager P B → RobotManager P B
  restore_robot robot status m =
      if is_blank robot.robot_id || is_some (find_robot robot.robot_id m.robots)
      then m
      else record m {
        robots =
            put_robot robot.robot_id
              (record {
                info = robot;
                status = record status {
                  robot_id = robot.robot_id;
                  online = false;
                  state = offline;
                };
              })
              m.robots;
      }

  unfoldable pub base_info_of : Option (RobotEntity P B) → Option (RobotBaseInfo P)
  base_info_of none = none
  base_info_of (some entity) = some entity.info

  unfoldable pub get_robot_base_info : String → RobotManager P B → Option (RobotBaseInfo P)
  unfolding base_info_of
  get_robot_base_info robot_id m = base_info_of (find_robot robot_id m.robots)

  -- It does nothing.
  unfoldable pub unregister_robot : String → RobotManager P B → Bool × RobotManager P B
  unregister_robot robot_id m = (true, m)

  unfoldable pub set_status :
      String
      → (RobotRunningStatus P B → RobotRunningStatus P B)
      → RobotManager P B
      → Bool × RobotManager P B
  set_status robot_id change m = elim (find_robot robot_id m.robots) [
    | none ↦ (false, m)
    | some entity ↦ (
      true,
      record m {
        robots = put_robot robot_id (record entity { status = change entity.status }) m.robots;
      },
    )
  ]

  unfoldable pub mark_offline : ℕ → String → RobotManager P B → Bool × RobotManager P B
  unfolding set_status
  mark_offline now robot_id =
      set_status robot_id
        (λ status. record status { online = false; state = offline; timestamp = now })

  unfoldable pub update_robot_status :
      String → RobotRunningStatus P B → RobotManager P B → Bool × RobotManager P B
  unfolding set_status
  update_robot_status robot_id status = set_status robot_id (λ _. status)

  unfoldable pub status_of : Option (RobotEntity P B) → Option (RobotRunningStatus P B)
  status_of none = none
  status_of (some entity) = some entity.status

  unfoldable pub get_robot_status : String → RobotManager P B → Option (RobotRunningStatus P B)
  unfolding status_of
  get_robot_status robot_id m = status_of (find_robot robot_id m.robots)

  unfoldable pub get_robot_list : RobotManager P B → List (RobotInstanceInfo P)
  unfolding instance_info
  get_robot_list m = map (λ item. instance_info item.1) m.robots

-- A call of the manager, with the clock reading and the instance id that it would give.
pub data Operation (P B : Type 0) : Type 0 where
  registers : (now : ℕ) (instance_id : String) → RobotBaseInfo P → Operation P B
  restores : RobotBaseInfo P → RobotRunningStatus P B → Operation P B
  marks_offline : (now : ℕ) (robot_id : String) → Operation P B
  updates : (robot_id : String) → RobotRunningStatus P B → Operation P B

module _ {P B : Type 0} (origin : P) (unset : B) where
  unfoldable pub operate : Operation P B → RobotManager P B → RobotManager P B
  operate (registers now instance_id robot) m =
      (register_robot origin unset now instance_id robot m).1
  operate (restores robot status) m = restore_robot robot status m
  operate (marks_offline now robot_id) m = (mark_offline now robot_id m).1
  operate (updates robot_id status) m = (update_robot_status robot_id status m).1

  unfoldable pub operate_all : List (Operation P B) → RobotManager P B → RobotManager P B
  unfolding operate
  operate_all [] m = m
  operate_all (o ∷ os) m = operate_all os (operate o m)
