-- ===== src/Edge/RobotService/Answers.antt =====
-- What RobotService::handleRegister answers (edge_server/src/service/robot_service.cpp).
use Prim.Native.String.{◌++◌ as append}
use amr_warehouse_collaborat.Prelude.{
  ◌==◌, not, subst, arith, Bool-cases, if◌then◌else◌, ℕ, pos, negsuc, String, is_blank, Bool, true,
  false, ◌≡◌, refl, ap, ◌∙◌, Option, none, some, Option-cases, inl, inr,
}
use amr_warehouse_collaborat.Edge.Types.{MapPackage}
use amr_warehouse_collaborat.Edge.MapStore.{get_active_map}
use amr_warehouse_collaborat.Edge.MapService.{
  MapService, active_map, update_info, update_found, check_map_update,
}
use amr_warehouse_collaborat.Edge.RobotTypes.{RobotBaseInfo, RobotEntity}
use amr_warehouse_collaborat.Edge.Robots.{
  RobotManager, find_robot, put_robot, refresh, register_new, register_robot, get_robot_base_info,
  get_robot_status, base_info_of, status_of,
}
use amr_warehouse_collaborat.Edge.Robots.Registry.{find-put_robot, signal_robots}
use amr_warehouse_collaborat.Edge.RobotStore.{upsert_robot}
use amr_warehouse_collaborat.Edge.RobotService.{
  RobotRegisterRequest, RobotRegisterResponse, RobotService, Readings, requested_robot,
  blank_response, persist, answer_map, answer_registered, handle_register,
}

module _ {P : Type 0} where
  -- The code and the map of a response, by the active map of the warehouse, for a robot that has a
  -- map of this version: its version, and where to fetch it when the robot has another.
  abbrev pub AnswersMap : String → String → Option MapPackage → RobotRegisterResponse P → Type 0
  AnswersMap warehouse_id version none resp =
      (resp.code ≡ negsuc 0) × (resp.message ≡ "check map failed")
  AnswersMap warehouse_id version (some p) resp =
      (resp.code ≡ pos 0)
      × (resp.map_version ≡ p.version)
      × (resp.map_update ≡ not (p.version == version))
      × (resp.map_download_url ≡ (
          if p.version == version
          then ""
          else append "/api/maps/download?warehouse_id=" warehouse_id))

  answer_map-AnswersMap :
      (warehouse_id version : String) (p : Option MapPackage) (resp : RobotRegisterResponse P)
      → let told = answer_map (update_found warehouse_id version p) resp in
        AnswersMap warehouse_id version p told
        × (told.initial_pose ≡ resp.initial_pose)
        × (told.has_initial_pose ≡ resp.has_initial_pose)
  unfolding answer_map update_found update_info
  answer_map-AnswersMap warehouse_id version none resp = ((refl, refl), refl, refl)
  answer_map-AnswersMap warehouse_id version (some p) resp =
      elim (Bool-cases (p.version == version)) [
        | inl e ↦ rw e ((refl, refl, refl, refl), refl, refl)
        | inr e ↦ rw e ((refl, refl, refl, refl), refl, refl)
      ]

active_map_lem :
    (warehouse_id : String) (m : MapService)
    → (active_map warehouse_id m).0
      ≡ (if warehouse_id == m.warehouse_id then (get_active_map warehouse_id m.db).0 else none)
unfolding active_map
active_map_lem warehouse_id m = ground arith

module _ {P B : Type 0} where
  answer_registered_lem :
      (stamp : String) (req : RobotRegisterRequest) (blank : RobotRegisterResponse P)
      (s : RobotService P B) (e : RobotEntity P B)
      → find_robot req.robot_id s.manager.robots ≡ some e
      → let (resp, s') = answer_registered stamp req blank s in
        ((e' : RobotEntity P B) × (find_robot req.robot_id s'.manager.robots ≡ some e')
          × (resp.has_initial_pose ≡ true)
          × (resp.initial_pose ≡ e'.info.initial_pose)
          × (s'.store ≡ (upsert_robot stamp e'.info e'.status s.store).1))
        × AnswersMap req.warehouse_id req.map_version
            (if req.warehouse_id == s.maps.warehouse_id
              then (get_active_map req.warehouse_id s.maps.db).0
              else none)
            resp
  unfolding check_map_update answer_registered get_robot_base_info get_robot_status base_info_of
      status_of persist
  answer_registered_lem stamp req blank s e known =
      let told = record blank { initial_pose = e.info.initial_pose; has_initial_pose = true } in
      let (map_told, pose, has) =
        answer_map-AnswersMap req.warehouse_id req.map_version
          (active_map req.warehouse_id s.maps).0 told in
      let answered =
        answer_map
          (update_found req.warehouse_id req.map_version (active_map req.warehouse_id s.maps).0)
          told in
      rw known (
        (e, known, has, pose, refl),
        subst (λ o. AnswersMap req.warehouse_id req.map_version o answered)
            (active_map_lem req.warehouse_id s.maps) map_told,
      )

module _ {P B : Type 0} (origin : P) (unset : B) where
  -- A registration with a robot id succeeds, and the robot is known afterwards.
  pub register_robot-known :
      (now : ℕ) (instance_id : String) (robot : RobotBaseInfo P) (m : RobotManager P B)
      → is_blank robot.robot_id ≡ false
      → ((register_robot origin unset now instance_id robot m).0 ≡ true)
        × (e : RobotEntity P B) × (find_robot robot.robot_id
              (register_robot origin unset now instance_id robot m).1.robots
            ≡ some e)
  unfolding register_robot
  register_robot-known now instance_id robot m named =
      elim (Option-cases (find_robot robot.robot_id m.robots)) [
        | inl unknown ↦
            rw (named, unknown)
              (
                refl,
                _,
                unfold register_new in
                    (ap (find_robot robot.robot_id)
                        (signal_robots (register_new origin unset now instance_id robot m))
                      ∙ find-put_robot robot.robot_id _ m.robots),
              )
        | inr (old, known) ↦
            rw (named, known)
              (
                refl,
                refresh robot old,
                ap (find_robot robot.robot_id) (
                      signal_robots (record m {
                        robots = put_robot robot.robot_id (refresh robot old) m.robots;
                      }))
                    ∙ find-put_robot robot.robot_id (refresh robot old) m.robots,
              )
      ]

  module _ (r : Readings) (req : RobotRegisterRequest) (s : RobotService P B) where
    abbrev result : Bool × RobotRegisterResponse P × RobotService P B
    result = handle_register origin unset r req s

    -- handleRegister of a request with a robot id returns true. The robot is known afterwards, the
    -- response has its initial pose, and the robot and its status were given to UpsertRobot. When
    -- the request is for the warehouse of the server and GetActiveMap gives a map, the code is 0
    -- with the version of that map; if the version of the request is another, an update is asked
    -- for with the address of the download, and else there is no update and no address. Without
    -- such a map the code is -1.
    pub register_answer :
        is_blank req.robot_id ≡ false
        → (result.0 ≡ true)
          × ((e : RobotEntity P B) × (find_robot req.robot_id result.2.manager.robots ≡ some e)
              × (result.1.has_initial_pose ≡ true)
              × (result.1.initial_pose ≡ e.info.initial_pose)
              × (result.2.store ≡ (upsert_robot r.stamp e.info e.status s.store).1))
          × AnswersMap req.warehouse_id req.map_version
              (if req.warehouse_id == s.maps.warehouse_id
                then (get_active_map req.warehouse_id s.maps.db).0
                else none)
              result.1
    unfolding handle_register requested_robot
    register_answer named =
        let (registered, e, known) =
          register_robot-known r.now r.instance_id (requested_robot origin req) s.manager named in
        let m =
          (register_robot origin unset r.now r.instance_id (requested_robot origin req)
            s.manager).1 in
        let (there, map_told) =
          answer_registered_lem r.stamp req (blank_response origin req) (record s { manager = m }) e
            known in
        rw registered (refl, there, map_told)
