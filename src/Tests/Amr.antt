-- ===== src/Tests/Amr.antt =====
-- Runs of the behaviour manager of a robot; numbers stand for doubles.
use amr_warehouse_collaborat.Prelude.{
  ℕ, pos, String, true, ◌≡◌, refl, none, some, List, [], ◌∷◌, length, map, All, ◌++◌,
}
use amr_warehouse_collaborat.Amr.Messages.{TaskCommand, TaskGoodsStatus}
use amr_warehouse_collaborat.Amr.GoodsPoints.{StationInfo, ZoneInfo, nodes, load_files, resolve}
use amr_warehouse_collaborat.Amr.GoodsPoints.Resolving.{Resolves, resolve_outcome}
use amr_warehouse_collaborat.Amr.Behavior.State.{
  Doubles, Parameters, result_succeeded, Node, constructed, init, task_event, event_of, decimal,
}
use amr_warehouse_collaborat.Amr.Behavior.Commands.{handle_task_command}
use amr_warehouse_collaborat.Amr.Behavior.Carries.{
  fire_timer, on_navigation_result, navigate_to_goods_destination,
}
use amr_warehouse_collaborat.Amr.Behavior.Callbacks.{
  Event, task_command, map_info, navigation_result, one_shot_timer, step, run_from, run_node,
}
use amr_warehouse_collaborat.Amr.Behavior.Promises.{
  events_where, is_request, IsBounded, requests-IsBounded,
}
use amr_warehouse_collaborat.Amr.Behavior.Cycle.{carried, carry_completes}
use amr_warehouse_collaborat.Amr.Behavior.Timers.{grasp_timer_stays}

abbrev pub doubles : Doubles ℕ
doubles = record { nought = 0; one = 1; half = λ x. x; sin = λ x. x; cos = λ x. x }

abbrev pub three_at_once : Parameters
three_at_once = record { robot_id = "r1"; carry_capacity = pos 3 }

abbrev pub command : String → TaskCommand
command kind = record {
  command_type = kind;
  task_id = "t1";
  warehouse_id = "w1";
  task_type = "LOAD";
  robot_ids = [];
  goods = record { goods_id = "g1"; goods_name = "box"; total_quantity = pos 3 } ∷ [];
  goods_status =
      record {
        goods_id = "g1";
        goods_name = "box";
        total_quantity = pos 5;
        in_progress_quantity = pos 0;
        completed_quantity = pos 0;
        pending_quantity = pos 5;
      }
      ∷ [];
  state = "RUNNING";
  reason = "";
  request_id = "";
  accepted = true;
  stamp = 0;
}

abbrev zones : List ZoneInfo
zones = record { id = "z1"; name = "in"; kind = "load"; goods_ids = "g1" ∷ [] } ∷ []

abbrev stations : List (StationInfo ℕ)
stations =
    record {
      id = "s1";
      name = "in";
      zone_id = "z1";
      locations =
          record { id = "l1"; kind = "WAIT"; x = 1; y = 2; yaw = 0 }
          ∷ record { id = "l2"; kind = "WORK"; x = 3; y = 4; yaw = 0 }
          ∷ [];
    }
    ∷ []

resolve_outcome_example :
    Resolves
      (record { zones = zones; stations = stations })
      "g1"
      "LOAD"
      (resolve (some (record { zones = zones; stations = stations })) "g1" "LOAD")
resolve_outcome_example =
    resolve_outcome (record { zones = zones; stations = stations }) "g1" "LOAD"

-- A zone of the type "load" serves tasks of the type "LOAD", at its WORK location.
resolves_at_work :
    resolve (some (record { zones = zones; stations = stations })) "g1" "LOAD"
    ≡ some (record { id = "l2"; kind = "WORK"; x = 3; y = 4; yaw = 0 })
unfolding resolve
resolves_at_work = refl

-- A carry that is interrupted when the task is cancelled.
abbrev pub day : List (ℕ × Event ℕ)
day =
    (1, map_info true (nodes (map some zones)) (nodes []))
    ∷ (2, task_command (command "TASK_ASSIGN"))
    ∷ (3, task_command (command "TASK_STATE_UPDATE"))
    ∷ (4, task_command (command "GOODS_RESPONSE"))
    ∷ (5, one_shot_timer 0 true)
    ∷ (6, navigation_result result_succeeded)
    ∷ (7, one_shot_timer 1 true)
    ∷ (8, task_command (command "TASK_CANCEL"))
    ∷ []

requests-IsBounded_example :
    All
      (IsBounded three_at_once)
      (events_where is_request (run_node doubles three_at_once day).outputs)
requests-IsBounded_example = requests-IsBounded doubles three_at_once day

day_requests : length (events_where is_request (run_node doubles three_at_once day).outputs) ≡ 2
unfolding run_node run_from step init constructed handle_task_command fire_timer
    on_navigation_result load_files navigate_to_goods_destination
day_requests = refl

-- The task is over, and the grasp timer sends the robot off again.
after_the_day :
    (run_from doubles three_at_once
      (run_node doubles three_at_once day)
      ((9, one_shot_timer 0 true) ∷ [])).task_state
    ≡ "TRANSPORTING"
unfolding run_node run_from step init constructed handle_task_command fire_timer
    on_navigation_result load_files navigate_to_goods_destination
after_the_day = refl

abbrev five_left : TaskGoodsStatus
five_left = record {
  goods_id = "g1";
  goods_name = "box";
  total_quantity = pos 5;
  in_progress_quantity = pos 0;
  completed_quantity = pos 0;
  pending_quantity = pos 5;
}

abbrev waiting : Node ℕ
waiting = record {
  nav_client = some (record { current_goal_handle = none; latest_pose = none });
  goods_point_resolver = some (record { zones = zones; stations = stations });
  one_shot_timers = [];
  current_task_id = "t1";
  current_warehouse_id = "w1";
  current_task_type = "LOAD";
  task_state = "ACCEPTED";
  request_id = "t1_3";
  waiting_goods_response = true;
  map_ready = true;
  edge_online = true;
  goods_status = five_left ∷ [];
  current_goods = [];
  outputs = [];
}

carry_completes_example :
    run_from doubles three_at_once waiting (
      (4, task_command (command "GOODS_RESPONSE"))
      ∷ (5, one_shot_timer 0 true)
      ∷ (6, navigation_result result_succeeded)
      ∷ (7, one_shot_timer 1 true)
      ∷ [])
    ≡ (let done = carried doubles three_at_once waiting (command "GOODS_RESPONSE") 4 5 6 7 in
        record done {
          task_state = "ACCEPTED";
          request_id = "t1_7";
          waiting_goods_response = true;
          outputs =
              done.outputs
              ++ task_event (
                  event_of 7 "GOODS_REQUEST" "ACCEPTED"
                    (record { goods_id = "g1"; goods_name = "box"; total_quantity = pos 3 } ∷ [])
                    "t1_7"
                    ""
                    waiting)
                ∷ [];
        })
unfolding event_of decimal
carry_completes_example =
    carry_completes doubles three_at_once waiting (command "GOODS_RESPONSE") 4 5 6 7 five_left refl
      refl refl refl refl refl refl refl refl refl

grasp_timer_stays_example :
    (step doubles three_at_once 9 (one_shot_timer 0 true) (
      run_from doubles three_at_once
        (step doubles three_at_once 4 (task_command (command "GOODS_RESPONSE")) waiting)
        ((8, task_command (command "TASK_CANCEL")) ∷ []))).task_state
    ≡ "TRANSPORTING"
grasp_timer_stays_example =
    grasp_timer_stays doubles three_at_once 4 (command "GOODS_RESPONSE") waiting
      ((8, task_command (command "TASK_CANCEL")) ∷ []) 9 true refl refl refl refl
