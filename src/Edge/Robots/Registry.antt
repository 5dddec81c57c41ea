-- ===== src/Edge/Robots/Registry.antt =====
-- What RobotManager keeps of the robots it knows.
use amr_warehouse_collaborat.Prelude.{
  ℕ, ◌≡◌, refl, ap, sym, ◌∙◌, subst, String, ◌==◌, eq_iff, eq_refl, ==→eq, is_blank, false, none,
  some, List, [], ◌∷◌, arith, Bool-cases, Option-cases, inl, inr,
}
use amr_warehouse_collaborat.Edge.RobotTypes.{
  RobotState, offline, initializing, idle, working, charging, paused, error, robot_state_to_string,
  robot_state_from_string, RobotBaseInfo, RobotRunningStatus, RobotEntity, register,
}
use amr_warehouse_collaborat.Edge.Robots.{
  RobotManager, find_robot, put_robot, signal, refresh, register_new, register_robot, restore_robot,
  set_status, mark_offline, update_robot_status, Operation, registers, restores, marks_offline,
  updates, operate, operate_all,
}

-- The name of a robot state is read back as that state.
pub robot_state_round_trip :
    (s : RobotState) → robot_state_from_string (robot_state_to_string s) ≡ s
unfolding robot_state_from_string robot_state_to_string
robot_state_round_trip offline = refl
robot_state_round_trip initializing = refl
robot_state_round_trip idle = refl
robot_state_round_trip working = refl
robot_state_round_trip charging = refl
robot_state_round_trip paused = refl
robot_state_round_trip error = refl

module _ {P B : Type 0} where
  pub find-put_robot :
      (robot_id : String) (entity : RobotEntity P B) (robots : List (String × RobotEntity P B))
      → find_robot robot_id (put_robot robot_id entity robots) ≡ some entity
  unfolding find_robot put_robot
  find-put_robot robot_id entity [] = rw (eq_refl robot_id) refl
  find-put_robot robot_id entity ((key, old) ∷ rest) =
      ground (arith, find-put_robot robot_id entity rest)

  pub find-put_robot_other :
      (robot_id other : String) (entity : RobotEntity P B)
      (robots : List (String × RobotEntity P B))
      → (robot_id == other) ≡ false
      → find_robot other (put_robot robot_id entity robots) ≡ find_robot other robots
  unfolding find_robot put_robot
  find-put_robot_other robot_id other entity [] h = rw h refl
  find-put_robot_other robot_id other entity ((key, old) ∷ rest) h =
      ground (arith, find-put_robot_other robot_id other entity rest h, eq_iff key robot_id)

  -- Two entities with one instance id and one initial pose.
  pub record SameInstance (x y : RobotEntity P B) : Type 0 where
    pub instance_id : x.info.instance_id ≡ y.info.instance_id
    pub initial_pose : x.info.initial_pose ≡ y.info.initial_pose

  -- The robot is known, as the same instance.
  abbrev pub IsKept : String → RobotEntity P B → List (String × RobotEntity P B) → Type 0
  IsKept robot_id e robots =
      (e' : RobotEntity P B) × (find_robot robot_id robots ≡ some e') × SameInstance e' e

  unchanged-IsKept :
      (robot_id : String) (e : RobotEntity P B) (robots : List (String × RobotEntity P B))
      → find_robot robot_id robots ≡ some e
      → IsKept robot_id e robots
  unchanged-IsKept robot_id e robots h = (e, h, record { instance_id = refl; initial_pose = refl })

  put_known-IsKept :
      (key robot_id : String) (new old e : RobotEntity P B)
      (robots : List (String × RobotEntity P B))
      → find_robot key robots ≡ some old
      → SameInstance new old
      → find_robot robot_id robots ≡ some e
      → IsKept robot_id e (put_robot key new robots)
  put_known-IsKept key robot_id new old e robots h same k = elim (Bool-cases (key == robot_id)) [
    | inr n ↦ unchanged-IsKept robot_id e _ (find-put_robot_other key robot_id new robots n ∙ k)
    | inl y ↦
        let one : some old ≡ some e =
          sym h ∙ ap (λ i. find_robot i robots) (==→eq key robot_id y) ∙ k in
        let equal : old ≡ e = cc in
        (
          new,
          ap (λ i. find_robot i (put_robot key new robots)) (sym (==→eq key robot_id y))
              ∙ find-put_robot key new robots,
          subst (SameInstance new) equal same,
        )
  ]

  put_unknown-IsKept :
      (key robot_id : String) (new e : RobotEntity P B) (robots : List (String × RobotEntity P B))
      → find_robot key robots ≡ none
      → find_robot robot_id robots ≡ some e
      → IsKept robot_id e (put_robot key new robots)
  put_unknown-IsKept key robot_id new e robots h k = elim (Bool-cases (key == robot_id)) [
    | inr n ↦ unchanged-IsKept robot_id e _ (find-put_robot_other key robot_id new robots n ∙ k)
    | inl y ↦
        absurd (ground (arith, sym h ∙ ap (λ i. find_robot i robots) (==→eq key robot_id y) ∙ k))
  ]

  pub signal_robots : (m : RobotManager P B) → (signal register m).robots ≡ m.robots
  unfolding signal
  signal_robots m = ground arith

  module _ (origin : P) (unset : B) where
    pub register-IsKept :
        (now : ℕ) (instance_id : String) (robot : RobotBaseInfo P) (m : RobotManager P B)
        (robot_id : String) (e : RobotEntity P B)
        → find_robot robot_id m.robots ≡ some e
        → IsKept robot_id e (register_robot origin unset now instance_id robot m).1.robots
    unfolding register_robot refresh register_new
    register-IsKept now instance_id robot m robot_id e h =
        elim (Bool-cases (is_blank robot.robot_id)) [
          | inl b ↦ rw b (unchanged-IsKept robot_id e m.robots h)
          | inr b ↦ elim (Option-cases (find_robot robot.robot_id m.robots)) [
            | inl n ↦
                rw (b, n)
                  (subst (IsKept robot_id e)
                    (sym (signal_robots (register_new origin unset now instance_id robot m)))
                    (put_unknown-IsKept robot.robot_id robot_id _ e m.robots n h))
            | inr (old, n) ↦
                rw (b, n)
                  (subst (IsKept robot_id e)
                    (sym (
                      signal_robots (record m {
                        robots = put_robot robot.robot_id (refresh robot old) m.robots;
                      })))
                    (put_known-IsKept robot.robot_id robot_id (refresh robot old) old e m.robots n
                      (record { instance_id = refl; initial_pose = refl }) h))
          ]
        ]

    set_status-IsKept :
        (key : String) (change : RobotRunningStatus P B → RobotRunningStatus P B)
        (m : RobotManager P B) (robot_id : String) (e : RobotEntity P B)
        → find_robot robot_id m.robots ≡ some e
        → IsKept robot_id e (set_status key change m).1.robots
    unfolding set_status
    set_status-IsKept key change m robot_id e h = elim (Option-cases (find_robot key m.robots)) [
      | inl n ↦ rw (set_status, n) (unchanged-IsKept robot_id e m.robots h)
      | inr (old, n) ↦
          rw (set_status, n)
            (put_known-IsKept key robot_id (record old { status = change old.status }) old e
              m.robots n (record { instance_id = refl; initial_pose = refl }) h)
    ]

    pub restore-IsKept :
        (robot : RobotBaseInfo P) (status : RobotRunningStatus P B) (m : RobotManager P B)
        (robot_id : String) (e : RobotEntity P B)
        → find_robot robot_id m.robots ≡ some e
        → IsKept robot_id e (restore_robot robot status m).robots
    unfolding restore_robot
    restore-IsKept robot status m robot_id e h =
        elim (Option-cases (find_robot robot.robot_id m.robots)) [
          | inr (old, n) ↦ elim (Bool-cases (is_blank robot.robot_id)) [
            | inl b ↦ rw (n, b) (unchanged-IsKept robot_id e m.robots h)
            | inr b ↦ rw (n, b) (unchanged-IsKept robot_id e m.robots h)
          ]
          | inl n ↦ elim (Bool-cases (is_blank robot.robot_id)) [
            | inl b ↦ rw (n, b) (unchanged-IsKept robot_id e m.robots h)
            | inr b ↦ rw (n, b) (put_unknown-IsKept robot.robot_id robot_id _ e m.robots n h)
          ]
        ]

    operate-IsKept :
        (o : Operation P B) (m : RobotManager P B) (robot_id : String) (e : RobotEntity P B)
        → find_robot robot_id m.robots ≡ some e
        → IsKept robot_id e (operate origin unset o m).robots
    unfolding operate mark_offline update_robot_status
    operate-IsKept (registers now instance_id robot) m robot_id e h =
        register-IsKept now instance_id robot m robot_id e h
    operate-IsKept (restores robot status) m robot_id e h =
        restore-IsKept robot status m robot_id e h
    operate-IsKept (marks_offline now key) m robot_id e h = set_status-IsKept key _ m robot_id e h
    operate-IsKept (updates key status) m robot_id e h = set_status-IsKept key _ m robot_id e h

    -- A robot that the manager knows stays known, with its instance id and its initial pose, through
    -- every sequence of registrations (its own repeated ones too), restorations and changes of state.
    pub instance-IsKept :
        (os : List (Operation P B)) (m : RobotManager P B) (robot_id : String) (e : RobotEntity P B)
        → find_robot robot_id m.robots ≡ some e
        → IsKept robot_id e (operate_all origin unset os m).robots
    unfolding operate_all
    instance-IsKept [] m robot_id e h = unchanged-IsKept robot_id e m.robots h
    instance-IsKept (o ∷ os) m robot_id e h =
        let (e', found, same) = operate-IsKept o m robot_id e h in
        let (e'', found', same') =
          instance-IsKept os (operate origin unset o m) robot_id e' found in
        (
          e'',
          found',
          record {
            instance_id = same'.instance_id ∙ same.instance_id;
            initial_pose = same'.initial_pose ∙ same.initial_pose;
          },
        )
