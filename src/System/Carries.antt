-- ===== src/System/Carries.antt =====
-- A carry event on its way from the behaviour manager of a robot
-- (robot_ws/src/amr_behavior_manager/src/amr_behavior_manager_node.cpp) over the task bridge
-- (robot_ws/src/amr_agent/src/bridge/task_bridge.cpp) to the edge server
-- (edge_server/src/communication/amr_communication.cpp), and the acknowledgement on its way back.
use amr_warehouse_collaborat.Edge.Sql.{quiet}
use amr_warehouse_collaborat.Prelude.{
  ℕ, String, eq_iff, is_blank, true, false, not, ◌≡◌, refl, sym, subst, ap, ◌∙◌, Option, none, some,
  List, [], ◌∷◌, ◌++◌, any, filter, All, All-map, arith,
}
use amr_warehouse_collaborat.Amr.Messages.{TaskGoods, TaskEvent}
use amr_warehouse_collaborat.Amr.Behavior.State.{Doubles, Parameters}
use amr_warehouse_collaborat.Amr.Behavior.Callbacks.{Event, run_node}
use amr_warehouse_collaborat.Amr.Behavior.Promises.{
  events_where, is_carry_event, IsUnnamed, carries-IsUnnamed,
}
use amr_warehouse_collaborat.Amr.TaskBridge.Reports.{
  StatusPayload, status, PendingReport, ReportFile, load_reports, has_id, is_acked,
  remove_by_message_ids, Instant, task_status_topic, status_payload, build_mqtt_message,
}
use amr_warehouse_collaborat.Amr.TaskBridge.Stored.{load-remove}
use amr_warehouse_collaborat.Edge.Sql.Keeps.{IsSafe, SameTables-IsSafe}
use amr_warehouse_collaborat.Edge.TaskReports.{
  StateMessage, handle_amr_task_status, build_task_state_message,
}
use amr_warehouse_collaborat.Edge.TaskReports.Message.{build_task_state_message-SameTables}
use amr_warehouse_collaborat.Edge.TaskReports.Unnamed.{SameWork, unnamed_carry}
use amr_warehouse_collaborat.Edge.Heartbeat.{task_state_topic}
use amr_warehouse_collaborat.Edge.AmrCommunication.{
  TaskStatusJson, StatusAck, Publication, status_ack, AmrCommunication, publish, publish_built,
  publish_state, event_of_json, ack_of, status_ack_topic, robot_task_status_handler,
}

-- The keys that buildMqttMessage sets; `dump` is what nlohmann's dump() makes of the goods.
unfoldable pub json_of_status : (List TaskGoods → String) → StatusPayload → TaskStatusJson
json_of_status dump p = record {
  message_id = some p.message_id;
  warehouse_id = some p.warehouse_id;
  task_id = some p.task_id;
  robot_id = some p.robot_id;
  event_type = some p.event_type;
  task_state = some p.task_state;
  request_id = some p.request_id;
  reason = some p.reason;
  timestamp = some p.timestamp;
  goods = some (dump p.goods);
}

publish_built-db :
    (topic : String) (message : Option StateMessage) (c : AmrCommunication)
    → (publish_built topic message c).db ≡ c.db
unfolding publish_built publish
publish_built-db topic none c = refl
publish_built-db topic (some message) c = refl

module _ (dump : List TaskGoods → String) (robot_id warehouse_id : String) (now : Instant)
    (c : AmrCommunication) where
  abbrev payload : TaskEvent → StatusPayload
  payload e = status_payload robot_id warehouse_id now e

  -- The edge server after the message of the event.
  abbrev pub after : TaskEvent → AmrCommunication
  after e = robot_task_status_handler (some (json_of_status dump (payload e))) c

  -- The event is sent as a status message; the edge server changes no task, quantity or allocation
  -- for it; and yet the last that it publishes is an acknowledgement of the message, upon which
  -- the agent removes the report of the event from its file.
  pub record IsLost (e : TaskEvent) : Type 0 where
    pub sent :
        build_mqtt_message robot_id warehouse_id now e
        ≡ (task_status_topic robot_id, status (payload e))
    pub unsettled : SameWork c.db.tables (after e).db.tables
    pub acked :
        (front : List (String × Publication)) × (ack : StatusAck) × ((after e).published
          ≡ front ++ (status_ack_topic robot_id, status_ack ack) ∷ [])
        × ((file : ReportFile)
            → any
                (has_id (payload e).message_id)
                (load_reports (remove_by_message_ids true ack.acked_message_ids file))
              ≡ false)

  acked_gone :
      (id : String) (rs : List PendingReport)
      → any (has_id id) (filter (λ r. not (is_acked (id ∷ []) r)) rs) ≡ false
  unfolding has_id is_acked
  acked_gone id [] = refl
  acked_gone id (r ∷ rs) =
      ground (arith, eq_iff id r.message_id, eq_iff r.message_id id, acked_gone id rs)

  after-IsSafe :
      (e : TaskEvent)
      → c.db.saved ≡ quiet
      → IsUnnamed e
      → IsSafe (SameWork c.db.tables) (after e).db
  unfolding robot_task_status_handler publish_state publish json_of_status event_of_json
      status_payload
  after-IsSafe e closed (carry, other, unnamed) =
      let event = event_of_json (json_of_status dump (payload e)) in
      let db' = (handle_amr_task_status event c.db).1 in
      let handled = (unnamed_carry event c.db closed carry (ap is_blank unnamed)).1 in
      subst (IsSafe (SameWork c.db.tables))
        (sym (
          publish_built-db (task_state_topic event.warehouse_id event.task_id)
            (build_task_state_message event.task_id db').0
            (record {
              db = (build_task_state_message event.task_id db').1;
              published = c.published;
            })))
        (SameTables-IsSafe (SameWork c.db.tables) db' (build_task_state_message event.task_id db').1
          (build_task_state_message-SameTables event.task_id db') handled)

  unnamed-IsLost : (e : TaskEvent) → c.db.saved ≡ quiet → IsUnnamed e → IsLost e
  unfolding robot_task_status_handler publish build_mqtt_message ack_of event_of_json json_of_status
      status_payload
  unnamed-IsLost e closed (carry, other, unnamed) =
      let event = event_of_json (json_of_status dump (payload e)) in
      let told =
        publish_state event.warehouse_id event.task_id
          (record c { db = (handle_amr_task_status event c.db).1 }) in
      let safe = after-IsSafe e closed (carry, other, unnamed) in
      record {
        sent = rw other;
        unsettled = safe.holds;
        acked = (
          told.published,
          ack_of event,
          refl,
          λ file.
              ap (any (has_id event.message_id)) (load-remove true (event.message_id ∷ []) file)
              ∙ acked_gone event.message_id (load_reports file),
        );
      }

  module _ {R : Type 0} (d : Doubles R) (p : Parameters) (events : List (ℕ × Event R)) where
    -- Every CARRY_COMPLETED and CARRY_ABORTED that the behaviour manager publishes, in any history
    -- of callbacks, is lost, whatever the tables of the edge server hold and whichever calls of
    -- prepare and step fail on a quiet connection (no transaction is open, and no BEGIN, COMMIT or
    -- ROLLBACK fails): it is sent as a status message with an empty request id, the edge server changes
    -- no task, quantity or allocation for it, so that the reservation of the goods stays in
    -- progress, and it acknowledges the message all the same, upon which the agent keeps no report
    -- of it.
    pub carry_events-IsLost :
        c.db.saved ≡ quiet → All IsLost (events_where is_carry_event (run_node d p events).outputs)
    carry_events-IsLost closed =
        All-map IsUnnamed IsLost (λ e. unnamed-IsLost e closed)
          (events_where is_carry_event (run_node d p events).outputs) (carries-IsUnnamed d p events)
