-- ===== src/Amr/TaskBridge/Reports.antt =====
-- robot_ws/src/amr_agent/src/persist/pending_report_store.cpp, and the messages that
-- bridge/task_bridge.cpp sends. JSON text stands as the value that it encodes.
use Prim.Native.String.{◌++◌ as append}
use amr_warehouse_collaborat.Prelude.{
  ℕ, String, ◌==◌, is_blank, Bool, not, ◌&&◌, List, [], ◌∷◌, ◌++◌, any, filter, if◌then◌else◌,
}
use amr_warehouse_collaborat.Amr.Messages.{TaskGoods, TaskEvent}
use amr_warehouse_collaborat.Amr.Behavior.State.{decimal}

-- The JSON object of a task event other than a request; `timestamp` is the text of nowIso8601.
pub record StatusPayload : Type 0 where
  pub message_id : String
  pub warehouse_id : String
  pub task_id : String
  pub robot_id : String
  pub event_type : String
  pub task_state : String
  pub reason : String
  pub request_id : String
  pub timestamp : String
  pub goods : List TaskGoods

-- The JSON object of a GOODS_REQUEST.
pub record RequestPayload : Type 0 where
  pub message_id : String
  pub warehouse_id : String
  pub task_id : String
  pub robot_id : String
  pub request_id : String
  pub goods : List TaskGoods

pub data Payload : Type 0 where
  status : StatusPayload → Payload
  request : RequestPayload → Payload

-- `json::parse(payload).value("message_id", "")`.
unfoldable pub message_id_of : Payload → String
message_id_of (status p) = p.message_id
message_id_of (request p) = p.message_id

pub record PendingReport : Type 0 where
  pub message_id : String
  pub topic : String
  pub payload : Payload

-- The file of pending reports: it is not there, it is no JSON of that form, or it holds reports.
pub data ReportFile : Type 0 where
  missing : ReportFile
  corrupt : ReportFile
  reports : List PendingReport → ReportFile

unfoldable pub is_complete : PendingReport → Bool
is_complete r = not (is_blank r.message_id) && not (is_blank r.topic)

-- `load` of the source.
unfoldable pub load_reports : ReportFile → List PendingReport
unfolding is_complete
load_reports missing = []
load_reports corrupt = []
load_reports (reports rs) = filter is_complete rs

-- `writable` is whether the temporary file can be opened; it then replaces the old one.
unfoldable pub save : Bool → List PendingReport → ReportFile → ReportFile
save writable rs file = if writable then reports rs else file

unfoldable pub has_id : String → PendingReport → Bool
has_id message_id r = r.message_id == message_id

unfoldable pub add : Bool → PendingReport → ReportFile → ReportFile
unfolding save has_id load_reports
add writable report file =
    if any (has_id report.message_id) (load_reports file)
    then file
    else save writable (load_reports file ++ report ∷ []) file

-- The predicate of `remove_if`.
unfoldable pub is_acked : List String → PendingReport → Bool
is_acked message_ids r = any (λ m. m == r.message_id) message_ids

unfoldable pub remove_by_message_ids : Bool → List String → ReportFile → ReportFile
unfolding save load_reports is_acked
remove_by_message_ids writable message_ids file =
    save writable (filter (λ r. not (is_acked message_ids r)) (load_reports file)) file

-- mqtt_topic::makeAmrTaskGoodsRequestTopic and makeAmrTaskStatusTopic of common/mqtt/mqtt_topic.h.
unfoldable pub goods_request_topic : String → String
goods_request_topic robot_id = append "amr/" (append robot_id "/task/goods/request")

unfoldable pub task_status_topic : String → String
task_status_topic robot_id = append "amr/" (append robot_id "/task/status")

unfoldable pub make_message_id : String → ℕ → String → String
unfolding decimal
make_message_id robot_id ms event_type =
    append robot_id (append "_" (append (decimal ms) (append "_" event_type)))

-- A reading of the clock: milliseconds, and the text of nowIso8601.
pub record Instant : Type 0 where
  pub ms : ℕ
  pub iso : String

module _ (robot_id warehouse_id : String) where
  unfoldable pub warehouse_of : TaskEvent → String
  warehouse_of event = if is_blank event.warehouse_id then warehouse_id else event.warehouse_id

  unfoldable pub status_payload : Instant → TaskEvent → StatusPayload
  unfolding warehouse_of make_message_id
  status_payload now event = record {
    message_id = make_message_id robot_id now.ms event.event_type;
    warehouse_id = warehouse_of event;
    task_id = event.task_id;
    robot_id = robot_id;
    event_type = event.event_type;
    task_state = event.task_state;
    reason = event.reason;
    request_id = event.request_id;
    timestamp = now.iso;
    goods = event.goods;
  }

  unfoldable pub request_payload : Instant → TaskEvent → RequestPayload
  unfolding warehouse_of make_message_id
  request_payload now event = record {
    message_id = make_message_id robot_id now.ms event.event_type;
    warehouse_id = warehouse_of event;
    task_id = event.task_id;
    robot_id = robot_id;
    request_id = event.request_id;
    goods = event.goods;
  }

  unfoldable pub build_mqtt_message : Instant → TaskEvent → String × Payload
  unfolding status_payload request_payload goods_request_topic task_status_topic
  build_mqtt_message now event =
      if event.event_type == "GOODS_REQUEST"
      then (goods_request_topic robot_id, request (request_payload now event))
      else (task_status_topic robot_id, status (status_payload now event))
