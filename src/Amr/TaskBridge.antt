-- ===== src/Amr/TaskBridge.antt =====
-- robot_ws/src/amr_agent/src/bridge/task_bridge.cpp: the agent passes the commands of the edge
-- server to the behaviour manager, and its task events to the edge server; what could not be sent
-- is kept in a file. JSON text stands as the value that it encodes, a JSON object as the values of
-- its keys, `none` where the key is missing.
pub mod Reports
pub mod Stored
pub mod Waiting
use amr_warehouse_collaborat.Prelude.{
  ℕ, ℤ, pos, String, is_blank, Bool, true, false, ◌&&◌, Option, none, some, List, [], ◌∷◌, ◌++◌,
  map, if◌then◌else◌,
}
use amr_warehouse_collaborat.Amr.Messages.{TaskGoods, TaskGoodsStatus, TaskCommand, TaskEvent}
use amr_warehouse_collaborat.Amr.TaskBridge.Reports.{
  Payload, message_id_of, PendingReport, ReportFile, load_reports, add, remove_by_message_ids,
  Instant, build_mqtt_message,
}

-- `root.value(key, fallback)`.
abbrev pub value_or {ℓ} : {A : Type ℓ} → A → Option A → A
value_or fallback none = fallback
value_or fallback (some a) = a

pub record GoodsJson : Type 0 where
  pub goods_id : Option String
  pub goods_name : Option String
  pub quantity : Option ℤ

pub record GoodsStatusJson : Type 0 where
  pub goods_id : Option String
  pub goods_name : Option String
  pub total_quantity : Option ℤ
  pub in_progress_quantity : Option ℤ
  pub completed_quantity : Option ℤ
  pub pending_quantity : Option ℤ

-- The keys that the handlers read. The arrays are empty where the key is missing or no array.
pub record CommandJson : Type 0 where
  pub command_type : Option String
  pub task_id : Option String
  pub warehouse_id : Option String
  pub task_type : Option String
  pub state : Option String
  pub reason : Option String
  pub request_id : Option String
  pub accepted : Option Bool
  pub robot_ids : List String
  pub goods : List GoodsJson
  pub goods_status : List GoodsStatusJson

-- The configuration of the bridge, the file of pending reports, the commands that it published to
-- the behaviour manager, and the messages that the MQTT client took.
pub record TaskBridge : Type 0 where
  pub robot_id : String
  pub warehouse_id : String
  pub pending_reports : ReportFile
  pub commands : List TaskCommand
  pub sent : List (String × Payload)

unfoldable pub goods_of_json : GoodsJson → TaskGoods
goods_of_json g = record {
  goods_id = value_or "" g.goods_id;
  goods_name = value_or "" g.goods_name;
  total_quantity = value_or (pos 0) g.quantity;
}

unfoldable pub status_of_json : GoodsStatusJson → TaskGoodsStatus
status_of_json s = record {
  goods_id = value_or "" s.goods_id;
  goods_name = value_or "" s.goods_name;
  total_quantity = value_or (pos 0) s.total_quantity;
  in_progress_quantity = value_or (pos 0) s.in_progress_quantity;
  completed_quantity = value_or (pos 0) s.completed_quantity;
  pending_quantity = value_or (pos 0) s.pending_quantity;
}

-- The command of onAmrTaskMessage; `warehouse_id` is that of the bridge.
unfoldable pub task_message : ℕ → String → CommandJson → TaskCommand
unfolding goods_of_json
task_message now warehouse_id root = record {
  command_type = value_or "TASK_ASSIGN" root.command_type;
  task_id = value_or "" root.task_id;
  warehouse_id = value_or warehouse_id root.warehouse_id;
  task_type = value_or "" root.task_type;
  robot_ids = root.robot_ids;
  goods = map goods_of_json root.goods;
  goods_status = [];
  state = value_or "" root.state;
  reason = value_or "" root.reason;
  request_id = "";
  accepted = false;
  stamp = now;
}

-- The command of onTaskStateMessage.
unfoldable pub task_state_message : ℕ → CommandJson → TaskCommand
unfolding status_of_json
task_state_message now root = record {
  command_type = "TASK_STATE_UPDATE";
  task_id = value_or "" root.task_id;
  warehouse_id = value_or "" root.warehouse_id;
  task_type = "";
  robot_ids = [];
  goods = [];
  goods_status = map status_of_json root.goods_status;
  state = value_or "" root.state;
  reason = "";
  request_id = "";
  accepted = false;
  stamp = now;
}

-- The command of onGoodsResponseMessage.
unfoldable pub goods_response_message : ℕ → CommandJson → TaskCommand
unfolding goods_of_json
goods_response_message now root = record {
  command_type = "GOODS_RESPONSE";
  task_id = value_or "" root.task_id;
  warehouse_id = value_or "" root.warehouse_id;
  task_type = "";
  robot_ids = [];
  goods = map goods_of_json root.goods;
  goods_status = [];
  state = "";
  reason = value_or "" root.reason;
  request_id = value_or "" root.request_id;
  accepted = value_or false root.accepted;
  stamp = now;
}

-- A message that cannot be read (an exception) is dropped.
unfoldable pub forward : (CommandJson → TaskCommand) → Option CommandJson → TaskBridge → TaskBridge
forward command none b = b
forward command (some root) b = record b { commands = b.commands ++ command root ∷ [] }

unfoldable pub on_amr_task_message : ℕ → Option CommandJson → TaskBridge → TaskBridge
unfolding task_message forward
on_amr_task_message now root b = forward (task_message now b.warehouse_id) root b

unfoldable pub on_task_state_message : ℕ → Option CommandJson → TaskBridge → TaskBridge
unfolding task_state_message forward
on_task_state_message now root b = forward (task_state_message now) root b

unfoldable pub on_goods_response_message : ℕ → Option CommandJson → TaskBridge → TaskBridge
unfolding goods_response_message forward
on_goods_response_message now root b = forward (goods_response_message now) root b

-- `acked` is `none` where the message cannot be read.
unfoldable pub on_status_ack_message : Bool → Option (List String) → TaskBridge → TaskBridge
on_status_ack_message writable none b = b
on_status_ack_message writable (some acked) b = record b {
  pending_reports = remove_by_message_ids writable acked b.pending_reports;
}

unfoldable pub keep_report : Bool → String × Payload → TaskBridge → TaskBridge
keep_report writable (topic, payload) b = record b {
  pending_reports =
      add writable (record { message_id = message_id_of payload; topic = topic; payload = payload })
        b.pending_reports;
}

-- What the environment does in a call: whether the client is connected, whether it takes the
-- message, and whether the file can be written.
pub record Conditions : Type 0 where
  pub connected : Bool
  pub delivers : Bool
  pub writable : Bool

unfoldable pub publish_task_event_to_mqtt :
    Conditions → Instant → TaskEvent → TaskBridge → TaskBridge
unfolding keep_report
publish_task_event_to_mqtt now_is now event b =
    let message = build_mqtt_message b.robot_id b.warehouse_id now event in
    if is_blank message.0
    then b
    else if now_is.connected && now_is.delivers
    then record b { sent = b.sent ++ message ∷ [] }
    else keep_report now_is.writable message b

-- The loop of flushPendingReports: each publication succeeds or not.
unfoldable pub flush_each :
    List PendingReport → List Bool → List (String × Payload) → List (String × Payload)
flush_each [] answers sent = sent
flush_each (r ∷ rest) [] sent = flush_each rest [] (sent ++ (r.topic, r.payload) ∷ [])
flush_each (r ∷ rest) (taken ∷ answers) sent =
    flush_each rest answers (if taken then sent ++ (r.topic, r.payload) ∷ [] else sent)

unfoldable pub flush_pending_reports : Bool → List Bool → TaskBridge → TaskBridge
unfolding flush_each
flush_pending_reports connected answers b =
    if connected
    then record b { sent = flush_each (load_reports b.pending_reports) answers b.sent }
    else b

-- The callbacks of the bridge.
pub data Callback : Type 0 where
  task_message_arrives : ℕ → Option CommandJson → Callback
  state_message_arrives : ℕ → Option CommandJson → Callback
  goods_response_arrives : ℕ → Option CommandJson → Callback
  ack_arrives : (writable : Bool) → Option (List String) → Callback
  internal_event : Conditions → Instant → TaskEvent → Callback
  flush_timer : (connected : Bool) → List Bool → Callback

unfoldable pub call : Callback → TaskBridge → TaskBridge
call (task_message_arrives now root) b = on_amr_task_message now root b
call (state_message_arrives now root) b = on_task_state_message now root b
call (goods_response_arrives now root) b = on_goods_response_message now root b
call (ack_arrives writable acked) b = on_status_ack_message writable acked b
call (internal_event now_is now event) b = publish_task_event_to_mqtt now_is now event b
call (flush_timer connected answers) b = flush_pending_reports connected answers b

unfoldable pub calls : List Callback → TaskBridge → TaskBridge
calls [] b = b
calls (c ∷ rest) b = calls rest (call c b)
