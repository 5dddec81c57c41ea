-- ===== src/Amr/TaskBridge/Waiting.antt =====
-- Which reports wait in the file of the agent
-- (robot_ws/src/amr_agent/src/bridge/task_bridge.cpp, persist/pending_report_store.cpp).
use Prim.Native.String.{◌++◌ as append}
use mathlib.Core.List.{append_assoc}
use amr_warehouse_collaborat.Prelude.{
  find, ◌++◌, Bool-cases, inl, inr, String, ◌==◌, is_blank, is_blank-append, is_blank-append_left,
  Bool, true, false, not, ◌&&◌, ◌≡◌, refl, ap, ◌∙◌, Option, none, some, List, [], ◌∷◌, any, all,
  arith,
}
use amr_warehouse_collaborat.Amr.Messages.{TaskCommand, TaskEvent}
use amr_warehouse_collaborat.Amr.Behavior.State.{decimal}
use amr_warehouse_collaborat.Amr.TaskBridge.Reports.{
  Payload, message_id_of, PendingReport, is_complete, load_reports, has_id, add, Instant,
  make_message_id, goods_request_topic, task_status_topic, build_mqtt_message,
}
use amr_warehouse_collaborat.Amr.TaskBridge.Stored.{Holds, Holds-remove, Holds-add, Holds-add_self}
use amr_warehouse_collaborat.Amr.TaskBridge.{
  TaskBridge, CommandJson, forward, on_amr_task_message, on_task_state_message,
  on_goods_response_message, on_status_ack_message, keep_report, Conditions,
  publish_task_event_to_mqtt, flush_each, flush_pending_reports, Callback, task_message_arrives,
  state_message_arrives, goods_response_arrives, ack_arrives, internal_event, flush_timer, call,
  calls,
}

-- None of the acknowledgements among the callbacks names the message.
abbrev pub spares : String → Callback → Bool
spares id (ack_arrives writable (some acked)) = not (any (λ m. m == id) acked)
spares id (ack_arrives writable none) = true
spares id (task_message_arrives now root) = true
spares id (state_message_arrives now root) = true
spares id (goods_response_arrives now root) = true
spares id (internal_event now_is now event) = true
spares id (flush_timer connected answers) = true

forward-pending :
    (command : CommandJson → TaskCommand) (root : Option CommandJson) (b : TaskBridge)
    → (forward command root b).pending_reports ≡ b.pending_reports
unfolding forward
forward-pending command none b = refl
forward-pending command (some root) b = refl

publish-Holds :
    (now_is : Conditions) (now : Instant) (event : TaskEvent) (b : TaskBridge) (r : PendingReport)
    → Holds r b.pending_reports
    → Holds r (publish_task_event_to_mqtt now_is now event b).pending_reports
unfolding publish_task_event_to_mqtt keep_report
publish-Holds now_is now event b r h =
    let m = build_mqtt_message b.robot_id b.warehouse_id now event in
    ground (
      arith,
      Holds-add now_is.writable
          (record { message_id = message_id_of m.1; topic = m.0; payload = m.1 }) r
          b.pending_reports h,
    )

call-Holds :
    (c : Callback) (b : TaskBridge) (r : PendingReport)
    → spares r.message_id c ≡ true
    → Holds r b.pending_reports
    → Holds r (call c b).pending_reports
unfolding call on_amr_task_message on_task_state_message on_goods_response_message
    on_status_ack_message flush_pending_reports
call-Holds (task_message_arrives now root) b r s h =
    ap (find (has_id r.message_id)) (ap load_reports (forward-pending _ root b)) ∙ h
call-Holds (state_message_arrives now root) b r s h =
    ap (find (has_id r.message_id)) (ap load_reports (forward-pending _ root b)) ∙ h
call-Holds (goods_response_arrives now root) b r s h =
    ap (find (has_id r.message_id)) (ap load_reports (forward-pending _ root b)) ∙ h
call-Holds (ack_arrives writable none) b r s h = h
call-Holds (ack_arrives writable (some acked)) b r s h =
    Holds-remove writable acked r b.pending_reports (ground arith) h
call-Holds (internal_event now_is now event) b r s h = publish-Holds now_is now event b r h
call-Holds (flush_timer connected answers) b r s h = ground arith

calls-Holds :
    (cs : List Callback) (b : TaskBridge) (r : PendingReport)
    → all (spares r.message_id) cs ≡ true
    → Holds r b.pending_reports
    → Holds r (calls cs b).pending_reports
unfolding calls
calls-Holds [] b r s h = h
calls-Holds (c ∷ rest) b r s h =
    calls-Holds rest (call c b) r (ground arith) (call-Holds c b r (ground arith) h)

-- A message among those that were sent.
pub record IsSent (message : String × Payload) (sent : List (String × Payload)) : Type 0 where
  pub before : List (String × Payload)
  pub after : List (String × Payload)
  pub splits : sent ≡ before ++ message ∷ after

-- A flush of which every message is taken sends what is in the file.
flush_each-kept :
    (rs : List PendingReport) (sent : List (String × Payload)) (message : String × Payload)
    → IsSent message sent
    → IsSent message (flush_each rs [] sent)
unfolding flush_each
flush_each-kept [] sent message h = h
flush_each-kept (r ∷ rs) sent message h =
    flush_each-kept rs (sent ++ (r.topic, r.payload) ∷ []) message (record {
      before = h.before;
      after = h.after ++ (r.topic, r.payload) ∷ [];
      splits =
          ap (λ l. l ++ (r.topic, r.payload) ∷ []) h.splits
          ∙ append_assoc h.before (message ∷ h.after) ((r.topic, r.payload) ∷ []);
    })

flush_each-found :
    (rs : List PendingReport) (sent : List (String × Payload)) (r : PendingReport)
    → find (has_id r.message_id) rs ≡ some r
    → IsSent (r.topic, r.payload) (flush_each rs [] sent)
unfolding flush_each
flush_each-found [] sent r h = absurd (ground (arith, h))
flush_each-found (x ∷ rs) sent r h = elim (Bool-cases (has_id r.message_id x)) [
  | inl e ↦
      flush_each-kept rs (sent ++ (x.topic, x.payload) ∷ []) (r.topic, r.payload)
        (record { before = sent; after = []; splits = ground (arith, h, e) })
  | inr e ↦ flush_each-found rs (sent ++ (x.topic, x.payload) ∷ []) r (ground (arith, h, e))
]

module _ (now_is : Conditions) (now : Instant) (event : TaskEvent) (b : TaskBridge) where
  -- The id of the message that is built for the event.
  abbrev pub event_id : String
  event_id = make_message_id b.robot_id now.ms event.event_type

  built : message_id_of (build_mqtt_message b.robot_id b.warehouse_id now event).1 ≡ event_id
  unfolding build_mqtt_message message_id_of
  built = ground arith

  topic_given : is_blank (build_mqtt_message b.robot_id b.warehouse_id now event).0 ≡ false
  unfolding build_mqtt_message goods_request_topic task_status_topic
  topic_given = ground (
    arith,
    is_blank-append "amr/" (append b.robot_id "/task/goods/request")
        (is_blank-append b.robot_id "/task/goods/request" refl),
    is_blank-append "amr/" (append b.robot_id "/task/status")
        (is_blank-append b.robot_id "/task/status" refl),
  )

  id_given : is_blank event_id ≡ false
  unfolding make_message_id
  id_given =
      is_blank-append b.robot_id
        (append "_" (append (decimal now.ms) (append "_" event.event_type)))
        (is_blank-append_left "_" (append (decimal now.ms) (append "_" event.event_type)) refl)

  -- What is kept of the event.
  abbrev pub report : PendingReport
  report = record {
    message_id = event_id;
    topic = (build_mqtt_message b.robot_id b.warehouse_id now event).0;
    payload = (build_mqtt_message b.robot_id b.warehouse_id now event).1;
  }

  report-is_complete : is_complete report ≡ true
  unfolding is_complete
  report-is_complete = rw (id_given, topic_given)

  publish_unsent :
      (now_is.connected && now_is.delivers) ≡ false
      → now_is.writable ≡ true
      → (publish_task_event_to_mqtt now_is now event b).pending_reports
        ≡ add true report b.pending_reports
  unfolding publish_task_event_to_mqtt keep_report
  publish_unsent unsent writable = ground (arith, topic_given, built)

  -- A task event that could not be sent, because the client was not connected or did not take it, is
  -- kept when the file can be written and holds no report with its message id: after any further
  -- callbacks of the bridge of which no acknowledgement names that id, its report, with its topic
  -- and its message, is in the file, and a flush that is connected and of which every message is
  -- taken sends it.
  pub unsent_report-Holds :
      (cs : List Callback)
      → (now_is.connected && now_is.delivers) ≡ false
      → now_is.writable ≡ true
      → any (has_id event_id) (load_reports b.pending_reports) ≡ false
      → all (spares event_id) cs ≡ true
      → let later = calls cs (publish_task_event_to_mqtt now_is now event b) in
        Holds report later.pending_reports
        × IsSent
            (build_mqtt_message b.robot_id b.warehouse_id now event)
            (flush_pending_reports true [] later).sent
  unfolding flush_pending_reports
  unsent_report-Holds cs unsent writable new spared =
      let later = calls cs (publish_task_event_to_mqtt now_is now event b) in
      let held = calls-Holds cs (publish_task_event_to_mqtt now_is now event b) report spared (
        ap (λ file. find (has_id event_id) (load_reports file)) (publish_unsent unsent writable)
        ∙ Holds-add_self report b.pending_reports report-is_complete new) in
      (held, flush_each-found (load_reports later.pending_reports) later.sent report held)
