-- ===== src/Edge/AmrCommunication.antt =====
-- The handlers of task messages in edge_server/src/communication/amr_communication.cpp. A JSON object
-- stands as the values of its keys, `none` where the key is missing; JSON that cannot be read, which
-- is an exception, is `none`. What is published is collected in order.
use Prim.Native.String.{◌++◌ as append}
use amr_warehouse_collaborat.Prelude.{
  ℤ, pos, String, Bool, Option, none, some, List, [], ◌∷◌, ◌++◌, map,
}
use amr_warehouse_collaborat.Edge.Types.{
  TaskGoods, AmrTaskStatusEvent, GoodsApplyRequest, GoodsApplyResult,
}
use amr_warehouse_collaborat.Edge.Schema.{Tables}
use amr_warehouse_collaborat.Edge.Sql.{Connection}
use amr_warehouse_collaborat.Edge.TaskReports.{
  StateMessage, handle_goods_apply, handle_amr_task_status, build_task_state_message,
}
use amr_warehouse_collaborat.Edge.Heartbeat.{task_state_topic}

-- `root.value(key, "")`.
abbrev pub text_or_blank : Option String → String
text_or_blank none = ""
text_or_blank (some s) = s

abbrev number_or_zero : Option ℤ → ℤ
number_or_zero none = pos 0
number_or_zero (some n) = n

pub record GoodsJson : Type 0 where
  pub goods_id : Option String
  pub goods_name : Option String
  pub quantity : Option ℤ

-- `goods` is empty where the key is missing or no array.
pub record GoodsRequestJson : Type 0 where
  pub request_id : Option String
  pub warehouse_id : Option String
  pub task_id : Option String
  pub robot_id : Option String
  pub goods : List GoodsJson

-- `goods` is the text that dump() makes of the value under that key.
pub record TaskStatusJson : Type 0 where
  pub message_id : Option String
  pub warehouse_id : Option String
  pub task_id : Option String
  pub robot_id : Option String
  pub event_type : Option String
  pub task_state : Option String
  pub request_id : Option String
  pub reason : Option String
  pub timestamp : Option String
  pub goods : Option String

unfoldable pub goods_of_json : GoodsJson → TaskGoods
goods_of_json item = record {
  goods_id = text_or_blank item.goods_id;
  goods_name = text_or_blank item.goods_name;
  total_quantity = number_or_zero item.quantity;
}

unfoldable pub request_of_json : GoodsRequestJson → GoodsApplyRequest
unfolding goods_of_json
request_of_json root = record {
  request_id = text_or_blank root.request_id;
  warehouse_id = text_or_blank root.warehouse_id;
  task_id = text_or_blank root.task_id;
  robot_id = text_or_blank root.robot_id;
  goods = map goods_of_json root.goods;
}

-- `received_at` is left empty.
unfoldable pub event_of_json : TaskStatusJson → AmrTaskStatusEvent
event_of_json root = record {
  message_id = text_or_blank root.message_id;
  warehouse_id = text_or_blank root.warehouse_id;
  task_id = text_or_blank root.task_id;
  robot_id = text_or_blank root.robot_id;
  event_type = text_or_blank root.event_type;
  task_state = text_or_blank root.task_state;
  request_id = text_or_blank root.request_id;
  goods_json = text_or_blank root.goods;
  reason = text_or_blank root.reason;
  timestamp = text_or_blank root.timestamp;
  received_at = "";
}

-- Each of `goods` also has `accepted`, which is that of the response.
pub record GoodsResponse : Type 0 where
  pub request_id : String
  pub warehouse_id : String
  pub task_id : String
  pub robot_id : String
  pub accepted : Bool
  pub reason : String
  pub goods : List TaskGoods

pub record StatusAck : Type 0 where
  pub warehouse_id : String
  pub task_id : String
  pub robot_id : String
  pub acked_message_ids : List String
  pub timestamp : String

pub data Publication : Type 0 where
  goods_response : GoodsResponse → Publication
  task_state : StateMessage → Publication
  status_ack : StatusAck → Publication

pub record AmrCommunication : Type 0 where
  pub db : Connection Tables
  pub published : List (String × Publication)

unfoldable pub publish : String → Publication → AmrCommunication → AmrCommunication
publish topic message c = record c { published = c.published ++ (topic, message) ∷ [] }

-- mqtt_topic::makeAmrTaskGoodsResponseTopic and makeAmrTaskStatusAckTopic.
unfoldable pub goods_response_topic : String → String
goods_response_topic robot_id = append "amr/" (append robot_id "/task/goods/response")

unfoldable pub status_ack_topic : String → String
status_ack_topic robot_id = append "amr/" (append robot_id "/task/status/ack")

unfoldable pub publish_built : String → Option StateMessage → AmrCommunication → AmrCommunication
unfolding publish
publish_built topic none c = c
publish_built topic (some message) c = publish topic (task_state message) c

-- `buildTaskStateMessage`, and its publication unless it is empty.
unfoldable pub publish_state : String → String → AmrCommunication → AmrCommunication
unfolding publish_built
publish_state warehouse_id task_id c =
    let (message, db') = build_task_state_message task_id c.db in
    publish_built (task_state_topic warehouse_id task_id) message (record c { db = db' })

unfoldable pub response_to : GoodsApplyRequest → GoodsApplyResult → GoodsResponse
response_to request result = record {
  request_id = request.request_id;
  warehouse_id = request.warehouse_id;
  task_id = request.task_id;
  robot_id = request.robot_id;
  accepted = result.accepted;
  reason = result.reason;
  goods = result.goods;
}

unfoldable pub robot_goods_request_handler :
    String → Option GoodsRequestJson → AmrCommunication → AmrCommunication
unfolding publish response_to request_of_json
robot_goods_request_handler now none c = c
robot_goods_request_handler now (some root) c =
    let request = request_of_json root in
    let (result, db') = handle_goods_apply now request c.db in
    publish_state request.warehouse_id request.task_id (
      publish (goods_response_topic request.robot_id) (goods_response (response_to request result))
        (record c { db = db' }))

unfoldable pub ack_of : AmrTaskStatusEvent → StatusAck
ack_of event = record {
  warehouse_id = event.warehouse_id;
  task_id = event.task_id;
  robot_id = event.robot_id;
  acked_message_ids = event.message_id ∷ [];
  timestamp = event.timestamp;
}

-- The result of handleAmrTaskStatus is not looked at.
unfoldable pub robot_task_status_handler :
    Option TaskStatusJson → AmrCommunication → AmrCommunication
unfolding publish event_of_json ack_of
robot_task_status_handler none c = c
robot_task_status_handler (some root) c =
    let event = event_of_json root in
    let (handled, db') = handle_amr_task_status event c.db in
    publish (status_ack_topic event.robot_id) (status_ack (ack_of event))
      (publish_state event.warehouse_id event.task_id (record c { db = db' }))
