-- ===== src/Tests/Service.antt =====
-- Runs of the task service, of the AMR reports and of the map service.
use amr_warehouse_collaborat.Edge.MapStore.{
  upload_map_package, upload_at, upload_body, insert_package, set_active,
}
use amr_warehouse_collaborat.Edge.Rows.{update_rows, insert_row, change_rows, count_rows}
use amr_warehouse_collaborat.Prelude.{
  arith, pos, ◌≡◌, refl, ap, sym, subst, ◌∙◌, ◌-ℤ◌, String, Bool, true, false, none, some, [], ◌∷◌,
  map, any, filter, find, ◌&&◌, All, ◌⊎◌, not, ◌||◌, ◌==◌, leb_ℤ, ◌+ℤ◌, is_empty, ◌-ℤ◌,
}
use amr_warehouse_collaborat.Edge.Schema.{
  Tables, TaskRow, PackageRow, empty_tables, task_check, status_check, allocation_check,
  amr_event_clash, amr_event_check,
}
use amr_warehouse_collaborat.Edge.Sql.{
  Connection, call, done, changed, run, ◌and_then◌, begin_transaction, commit, rollback,
  transaction, when_open, fetch, query, query_one, select_then,
}
use amr_warehouse_collaborat.Edge.Sql.Transactions.{IsReady}
use amr_warehouse_collaborat.Edge.Allocations.{
  approve_tables, reserve_statement, is_status_of, reserve, allocate_statement, new_allocation,
  settle_goods_allocation, active_allocation, is_active, settle_statement, settle,
  give_back_statement, give_back,
}
use amr_warehouse_collaborat.Edge.TaskCreation.Balance.{SameLedger}
use amr_warehouse_collaborat.Edge.Types.{MapUploadRequest}
use amr_warehouse_collaborat.Edge.TaskStore.{
  get_task, goods_of, task_of_row, get_task_goods_status, status_of_row, some_rows,
  record_amr_event, insert_amr_event, amr_event_row, keep_or_ignore, find_task, statuses_of,
  insert_amr_task_status_event,
}
use amr_warehouse_collaborat.Edge.TaskService.{create, cancel, task_cancel, bad_goods}
use amr_warehouse_collaborat.Edge.TaskService.Outcomes.{
  create_outcome, sent_to, is_valid, new_command,
}
use amr_warehouse_collaborat.Edge.TaskService.Cancellation.{cancel_outcome}
use amr_warehouse_collaborat.Edge.TaskReports.{
  goods_item, sum_quantities, handle_goods_apply, handle_amr_task_status, settle_carry,
  build_task_state_message, StateMessage, refused,
}
use amr_warehouse_collaborat.Edge.TaskReports.Apply.{
  several_goods_half_done, single_goods_accepted, IsWellFormed,
}
use amr_warehouse_collaborat.Edge.TaskReports.Completion.{completed_report}
use amr_warehouse_collaborat.Edge.TaskReports.Message.{build_task_state_message_adds_up, sum_totals}
use amr_warehouse_collaborat.Edge.MapService.{
  package_of, target_path, MapService, DiskOutcome, File, upload_map, check_request, read_file,
  notify, join,
}
use amr_warehouse_collaborat.Edge.MapService.Uploads.{second_upload_overwrites}
use amr_warehouse_collaborat.Tests.Samples.{
  last_way, arrived, boxes, some_boxes, task, task_stored, stored, approved, connection, service,
  request, arrival, arrival_stored, upload_v1,
}

connection-IsReady : (t : Tables) → IsReady (connection t)
connection-IsReady t = record { opened = refl; closed = refl; reliable = refl }

request-IsWellFormed : IsWellFormed "2" (request (some_boxes ∷ []))
unfolding bad_goods
request-IsWellFormed = record { named = refl; sound = refl }

typed : All (λ r. task_check r ≡ true) (task_stored ∷ [])
unfolding task_check
typed = (refl, tt)

found : find_task "t1" stored ≡ some task_stored
unfolding find_task
found = refl

approves_some : approve_tables "q1" "t1" "g1" "r1" (pos 4) "2" stored ≡ some approved
unfolding changed reserve_statement update_rows is_status_of status_check reserve ◌+ℤ◌ ◌-ℤ◌ done
    allocate_statement insert_row allocation_check new_allocation
approves_some = refl

single_goods_accepted_example :
    let result = handle_goods_apply "2" (request (some_boxes ∷ [])) (connection stored) in
    (result.0 ≡ record { accepted = true; reason = ""; goods = some_boxes ∷ [] })
    × SameLedger approved result.1.tables
    × ((r' : TaskRow) × (find_task "t1" result.1.tables ≡ some r') × (r'.state ≡ "RUNNING"))
unfolding task_check
single_goods_accepted_example =
    single_goods_accepted "2" (request (some_boxes ∷ [])) (connection stored) task_stored
      (connection-IsReady stored) request-IsWellFormed found refl some_boxes refl approved
      approves_some (refl, tt)

too_many : approve_tables "q1" "t1" "g1" "r1" (pos 10) "2" approved ≡ none
unfolding changed reserve_statement update_rows is_status_of
too_many = refl

all_request-IsWellFormed : IsWellFormed "2" (request (boxes ∷ []))
unfolding bad_goods
all_request-IsWellFormed = record { named = refl; sound = refl }

two_request-IsWellFormed : IsWellFormed "2" (request (some_boxes ∷ some_boxes ∷ []))
unfolding bad_goods
two_request-IsWellFormed = record { named = refl; sound = refl }

several_goods_half_done_example :
    let result =
      handle_goods_apply "2" (request (some_boxes ∷ some_boxes ∷ [])) (connection stored) in
    (result.0 ≡ refused "approve failed") × (result.1.tables ≡ approved)
several_goods_half_done_example =
    several_goods_half_done "2" (request (some_boxes ∷ some_boxes ∷ [])) (connection stored)
      task_stored (connection-IsReady stored) two_request-IsWellFormed found refl some_boxes
      some_boxes [] approved refl approves_some

recorded :
    insert_amr_task_status_event arrival (connection last_way)
    ≡ (true, connection (record last_way { amr_events = arrival_stored ∷ [] }))
unfolding insert_amr_task_status_event record_amr_event when_open run call done insert_amr_event
    amr_event_row keep_or_ignore insert_row amr_event_check amr_event_clash
recorded = refl

settled_by_arrival :
    settle_carry arrival (connection (record last_way { amr_events = arrival_stored ∷ [] }))
    ≡ (true, connection arrived)
unfolding settle_carry settle_goods_allocation when_open run call done changed select_then query_one
    active_allocation is_active transaction ◌and_then◌ settle_statement settle give_back_statement
    give_back is_status_of update_rows change_rows count_rows allocation_check status_check
    begin_transaction commit rollback ◌+ℤ◌ ◌-ℤ◌
settled_by_arrival = refl

after_arrival :
    settle_carry arrival (insert_amr_task_status_event arrival (connection last_way)).1
    ≡ (true, connection arrived)
after_arrival = ap (λ x. settle_carry arrival x.1) recorded ∙ settled_by_arrival

completed_report_example :
    let after =
      (settle_carry arrival (insert_amr_task_status_event arrival (connection last_way)).1).1 in
    let result = handle_amr_task_status arrival (connection last_way) in
    let rows = filter (λ x. x.task_id == "t1") after.tables.statuses in
    let unfinished =
      any
        (λ x. not (leb_ℤ x.pending_quantity (pos 0)) || not (leb_ℤ x.in_progress_quantity (pos 0)))
        rows in
    (result.0 ≡ true)
    × (((unfinished ≡ true) × (result.1.tables ≡ after.tables))
        ⊎ ((unfinished ≡ false)
            × SameLedger after.tables result.1.tables
            × ((r' : TaskRow) × (find_task "t1" result.1.tables ≡ some r')
                × (r'.state ≡ "SUCCEEDED"))))
unfolding statuses_of status_of_row find_task
completed_report_example =
    completed_report arrival (connection last_way) refl (ap (λ x. x.0) recorded)
      (ap (λ x. x.0) after_arrival) task_stored
      (subst IsReady (sym (ap (λ x. x.1) after_arrival)) (connection-IsReady arrived))
      (subst (λ (x : Bool × Connection Tables). All (λ r. task_check r ≡ true) x.1.tables.tasks)
        (sym after_arrival) typed)
      (ap (λ x. find_task "t1" x.1.tables) after_arrival ∙ found)
      (ap (λ x. is_empty (statuses_of "t1" x.1.tables)) after_arrival)

abbrev message : StateMessage
message = record {
  warehouse_id = "w1";
  task_id = "t1";
  state = "PENDING";
  total_quantity = pos 10;
  in_progress_quantity = pos 4;
  completed_quantity = pos 0;
  pending_quantity = pos 6;
  goods_status = map goods_item (statuses_of "t1" approved);
  updated_at = "1";
}

built : (build_task_state_message "t1" (connection approved)).0 ≡ some message
unfolding build_task_state_message get_task query_one query fetch call find_task goods_of
    task_of_row get_task_goods_status statuses_of status_of_row some_rows sum_quantities ◌+ℤ◌
built = refl

build_task_state_message_adds_up_example :
    (pos 10 ≡ sum_totals (pos 0) message.goods_status) × (pos 10 ≡ pos 4 +ℤ pos 0 +ℤ pos 6)
unfolding status_check ◌+ℤ◌ sum_totals statuses_of status_of_row goods_item
build_task_state_message_adds_up_example =
    build_task_state_message_adds_up "t1" (connection approved) message (refl, tt) built
      (omega arith)

create_outcome_example :
    let (reply, s') = create "5" task (service empty_tables) in
    ((reply.good ≡ true)
      × (is_valid "5" task (service empty_tables) refl ≡ true)
      × (any (λ (r : TaskRow). r.task_id == "t1") [] ≡ false)
      × (find_task "t1" s'.db.tables
          ≡ some (record task_stored { created_at = "5"; updated_at = "5" }))
      × (s'.sent
          ≡ sent_to
              ("r1" ∷ [])
              (new_command "5" task (service empty_tables) refl)
              (service empty_tables)))
    ⊎ ((reply.good ≡ false) × (s'.db.tables ≡ empty_tables) × (s'.sent ≡ []))
create_outcome_example = create_outcome "5" task (service empty_tables) refl

cancel_outcome_example :
    let (reply, s') = cancel "t1" (service stored) in
    ((reply.good ≡ true)
      × ((r : TaskRow) × (find_task "t1" stored ≡ some r)
          × ((r.state == "SUCCEEDED"
                || r.state == "FAILED"
                || r.state == "CANCELLED"
                || r.state == "INTERRUPTED")
              ≡ false)
          × ((clock : String) × (find_task "t1" s'.db.tables
                ≡ some (record r {
                  state = "CANCELLED";
                  reason = "canceled by API";
                  updated_at = clock;
                })))
          × (s'.sent
              ≡ sent_to r.robot_ids
                  (task_cancel "t1" r.warehouse_id "canceled by API")
                  (service stored))))
    ⊎ ((reply.good ≡ false) × (s'.db.tables ≡ stored) × (s'.sent ≡ []))
cancel_outcome_example = cancel_outcome "t1" (service stored) refl

abbrev disk : DiskOutcome
disk = record { creates = true; copies = true }

abbrev archive : File
archive = record { content = "other"; file_size = 5 }

abbrev first_file : File
first_file = record { content = "map"; file_size = 5 }

abbrev upload_next : MapUploadRequest
upload_next = record upload_v1 { upload_file_path = "/tmp/upload/other.zip" }

abbrev maps : MapService
maps = record {
  warehouse_id = "w1";
  notifies = true;
  db = connection empty_tables;
  files = ("/tmp/upload/map.zip", first_file) ∷ ("/tmp/upload/other.zip", archive) ∷ [];
  activated = [];
}

checked : check_request upload_v1 maps ≡ true
unfolding check_request read_file
checked = refl

source : read_file "/tmp/upload/map.zip" maps.files ≡ some first_file
unfolding read_file
source = refl

-- The first upload is stored, and the file of the second is still there.
first_stored :
    ((upload_map disk upload_v1 maps).0 ≡ true)
    × (check_request upload_next (upload_map disk upload_v1 maps).1 ≡ true)
    × (read_file "/tmp/upload/other.zip" (upload_map disk upload_v1 maps).1.files ≡ some archive)
unfolding upload_map check_request read_file upload_map_package upload_at when_open transaction
    upload_body package_of ◌and_then◌ run done insert_package insert_row set_active notify
    target_path join
first_stored = (refl, refl, refl)

second_upload_overwrites_example :
    let s₁ = (upload_map disk upload_v1 maps).1 in
    let (good, s₂) = upload_map disk upload_next s₁ in
    (m : PackageRow) × (find
        (λ x. x.warehouse_id == "w1" && x.version == "v1")
        s₂.db.tables.packages
      ≡ some m)
    × (m.package_size ≡ 5)
    × (good ≡ false)
    × (s₂.db.tables ≡ s₁.db.tables)
    × (read_file m.package_path s₂.files ≡ some archive)
second_upload_overwrites_example =
    second_upload_overwrites disk upload_v1 upload_next maps first_file archive refl refl refl
      checked source first_stored.0 first_stored.1 first_stored.2 refl refl
