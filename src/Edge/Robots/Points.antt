-- ===== src/Edge/Robots/Points.antt =====
-- Which initial pose RobotManager::registerRobot gives to a new robot.
use amr_warehouse_collaborat.Prelude.{
  ℕ, ◌≡◌, refl, ap, ◌∙◌, String, is_blank, true, false, Option, none, some, arith, Option-cases,
  inl, inr,
}
use amr_warehouse_collaborat.Edge.IdlePoints.{Allocator, allocate}
use amr_warehouse_collaborat.Edge.IdlePoints.Order.{
  IsAligned, free_poses, first, others, allocate_lem,
}
use amr_warehouse_collaborat.Edge.RobotTypes.{RobotBaseInfo, RobotEntity, register}
use amr_warehouse_collaborat.Edge.Robots.{
  RobotManager, find_robot, signal, draw_pose, first_status, register_new, register_robot,
}
use amr_warehouse_collaborat.Edge.Robots.Registry.{find-put_robot, signal_robots}

abbrev pub or_else : {P : Type 0} → P → Option P → P
or_else origin none = origin
or_else origin (some p) = p

draw_pose_lem :
    {P : Type 0} (origin : P) (a : Allocator P)
    → draw_pose origin (some a) ≡ (or_else origin (allocate a).0, some (allocate a).1)
unfolding draw_pose
draw_pose_lem origin a = elim (Option-cases (allocate a).0) [
  | inl n ↦ rw (draw_pose, n) refl
  | inr (p, n) ↦ rw (draw_pose, n) refl
]

module _ {P B : Type 0} (origin : P) (unset : B) where
  signal_allocator : (m : RobotManager P B) → (signal register m).allocator ≡ m.allocator
  unfolding signal
  signal_allocator m = ground arith

  -- A robot that is registered for the first time is known afterwards under the new instance id; its
  -- initial pose and its pose are the first free idle point, or the origin when none is free; and
  -- that point is no longer free.
  pub new_robot_outcome :
      (now : ℕ) (instance_id : String) (robot : RobotBaseInfo P) (m : RobotManager P B)
      (a : Allocator P)
      → is_blank robot.robot_id ≡ false
      → find_robot robot.robot_id m.robots ≡ none
      → m.allocator ≡ some a
      → IsAligned a
      → let (good, m') = register_robot origin unset now instance_id robot m in
        (good ≡ true)
        × ((e : RobotEntity P B) × (find_robot robot.robot_id m'.robots ≡ some e)
            × (e.info.instance_id ≡ instance_id)
            × (e.info.initial_pose ≡ or_else origin (first (free_poses a)))
            × (e.status.pose ≡ or_else origin (first (free_poses a))))
        × ((a' : Allocator P) × (m'.allocator ≡ some a') × (free_poses a' ≡ others (free_poses a)))
  unfolding register_robot register_new first_status
  new_robot_outcome now instance_id robot m a named unknown set aligned =
      let m₁ = register_new origin unset now instance_id robot m in
      let drawn = ap (draw_pose origin) set ∙ draw_pose_lem origin a in
      let (pose, free, points, aligned') = allocate_lem a aligned in
      let given = ap (λ x. x.0) drawn ∙ ap (or_else origin) pose in
      rw (named, unknown)
        (
          refl,
          (
            _,
            ap (find_robot robot.robot_id) (signal_robots m₁)
                ∙ find-put_robot robot.robot_id _ m.robots,
            refl,
            given,
            given,
          ),
          ((allocate a).1, signal_allocator m₁ ∙ ap (λ x. x.1) drawn, free),
        )
