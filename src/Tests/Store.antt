-- ===== src/Tests/Store.antt =====
-- Runs of the allocations, of the creation and of the map store.
use amr_warehouse_collaborat.Edge.Rows.{update_rows, insert_row}
use amr_warehouse_collaborat.Edge.Rows.Sums.{sum_rows}
use amr_warehouse_collaborat.Prelude.{pos, ◌≡◌, refl, true, false, some, [], ◌∷◌, ◌+ℤ◌, ◌-ℤ◌}
use amr_warehouse_collaborat.Edge.Sql.{
  Connection, no_transaction, in_transaction, rollback, begin_transaction, commit, call, run, done,
  changed, ◌and_then◌, transaction, when_open,
}
use amr_warehouse_collaborat.Edge.Sql.Transactions.{Atomic, Atomic-done, IsReady}
use amr_warehouse_collaborat.Edge.Schema.{
  Tables, empty_tables, status_check, status_clash, allocation_check, task_check, goods_check,
}
use amr_warehouse_collaborat.Edge.Allocations.{
  approve_goods_allocation, approve_tables, settle_goods_allocation, settle_tables,
  reserve_statement, is_status_of, reserve, allocate_statement, new_allocation, active_allocation,
  is_active, settle_statement, settle, give_back_statement, give_back,
}
use amr_warehouse_collaborat.Edge.Allocations.Balance.{IsBalanced, total_of, amount_of}
use amr_warehouse_collaborat.Edge.Allocations.Atomicity.{
  approve_uncommitted, approve-Atomic, settle-Atomic,
}
use amr_warehouse_collaborat.Edge.TaskCreation.{
  create_tables, insert_task, task_row, goods_tables, insert_goods, insert_status, new_status,
  insert_task_event,
}
use amr_warehouse_collaborat.Edge.MapStore.{
  upload_at, upload_map_package, get_active_map, insert_package, set_active, upload_body,
}
use amr_warehouse_collaborat.Edge.MapStore.Active.{upload_map_package-IsRegistered, IsRegistered}
use amr_warehouse_collaborat.Edge.MapStore.Current.{upload_then_active}
use amr_warehouse_collaborat.Tests.Samples.{task, stored, approved, settled, connection, package_v1}

approve-Atomic_example :
    Atomic
      (approve_tables "q1" "t1" "g1" "r1" (pos 4) "2")
      (approve_goods_allocation "q1" "t1" "g1" "r1" (pos 4) "2")
approve-Atomic_example = approve-Atomic "q1" "t1" "g1" "r1" (pos 4) "2"

settle-Atomic_example :
    Atomic
      (settle_tables "q1" "r1" "COMPLETED" "3")
      (settle_goods_allocation "q1" "r1" "COMPLETED" "3")
settle-Atomic_example = settle-Atomic "q1" "r1" "COMPLETED" "3"

stored-IsBalanced : IsBalanced stored
unfolding status_check status_clash ◌+ℤ◌ total_of sum_rows
stored-IsBalanced = record {
  checked = (refl, tt);
  keyed = (refl, tt);
  identified = tt;
  tallied = ((refl, refl), tt);
  covered = tt;
}

approves : approve_tables "q1" "t1" "g1" "r1" (pos 4) "2" stored ≡ some approved
unfolding changed reserve_statement update_rows is_status_of status_check reserve ◌+ℤ◌ ◌-ℤ◌ done
    allocate_statement insert_row allocation_check new_allocation
approves = refl

approved-IsBalanced : IsBalanced approved
unfolding status_check ◌+ℤ◌ total_of sum_rows amount_of is_status_of
approved-IsBalanced = record {
  checked = (refl, tt);
  keyed = (refl, tt);
  identified = (refl, tt);
  tallied = ((refl, refl), tt);
  covered = (refl, tt);
}

settles : settle_tables "q1" "r1" "COMPLETED" "3" approved ≡ some settled
unfolding active_allocation is_active changed settle_statement update_rows allocation_check settle
    give_back_statement is_status_of status_check give_back ◌-ℤ◌ ◌+ℤ◌
settles = refl

connection-IsReady : (t : Tables) → IsReady (connection t)
connection-IsReady t = record { opened = refl; closed = refl; reliable = refl }

approve_succeeds :
    (approve_goods_allocation "q1" "t1" "g1" "r1" (pos 4) "2" (connection stored)).0 ≡ true
approve_succeeds =
    (Atomic-done (approve_tables "q1" "t1" "g1" "r1" (pos 4) "2")
      (approve_goods_allocation "q1" "t1" "g1" "r1" (pos 4) "2") (connection stored) approved
      (approve-Atomic "q1" "t1" "g1" "r1" (pos 4) "2") (connection-IsReady stored) approves).0

settle_succeeds : (settle_goods_allocation "q1" "r1" "COMPLETED" "3" (connection approved)).0 ≡ true
settle_succeeds =
    (Atomic-done (settle_tables "q1" "r1" "COMPLETED" "3")
      (settle_goods_allocation "q1" "r1" "COMPLETED" "3") (connection approved) settled
      (settle-Atomic "q1" "r1" "COMPLETED" "3") (connection-IsReady approved) settles).0

-- BEGIN works, and COMMIT does not.
abbrev busy : Connection Tables
busy = record (connection stored) { saved = no_transaction (false ∷ true ∷ []) }

busy_approves : (approve_goods_allocation "q1" "t1" "g1" "r1" (pos 4) "2" busy).0 ≡ true
unfolding approve_goods_allocation when_open transaction begin_transaction commit ◌and_then◌ run
    call changed reserve_statement update_rows is_status_of status_check reserve ◌+ℤ◌ ◌-ℤ◌ done
    allocate_statement insert_row allocation_check new_allocation
busy_approves = refl

approve_uncommitted_example :
    let after = (approve_goods_allocation "q1" "t1" "g1" "r1" (pos 4) "2" busy).1 in
    (approve_tables "q1" "t1" "g1" "r1" (pos 4) "2" stored ≡ some after.tables)
    × (after.saved ≡ in_transaction [] stored)
    × ((rollback after).tables ≡ stored)
approve_uncommitted_example =
    approve_uncommitted "q1" "t1" "g1" "r1" (pos 4) "2" busy refl busy_approves

abbrev created : Tables
created = record stored {
  task_events =
      record { task_id = "t1"; state = "PENDING"; reason = ""; source = "HTTP"; timestamp = "1" }
      ∷ [];
}

empty-IsBalanced : IsBalanced empty_tables
empty-IsBalanced = record { checked = tt; keyed = tt; identified = tt; tallied = tt; covered = tt }

creates : create_tables task empty_tables ≡ some created
unfolding done insert_task insert_row task_check task_row goods_tables insert_goods goods_check
    insert_status status_check new_status ◌+ℤ◌ insert_task_event
creates = refl

empty-IsRegistered : IsRegistered empty_tables
empty-IsRegistered = record { fresh = tt; active = tt }

upload_map_package-IsRegistered_example :
    IsRegistered (upload_map_package package_v1 (connection empty_tables)).1.tables
upload_map_package-IsRegistered_example =
    upload_map_package-IsRegistered package_v1 (connection empty_tables) refl empty-IsRegistered

upload_succeeds : (upload_map_package package_v1 (connection empty_tables)).0 ≡ true
unfolding upload_map_package upload_at when_open transaction upload_body ◌and_then◌ run done
    insert_package insert_row set_active
upload_succeeds = refl

upload_then_active_example :
    (get_active_map "w1" (upload_map_package package_v1 (connection empty_tables)).1).0
    ≡ some (record package_v1 { id = 1; upload_time = "9"; activate = false })
upload_then_active_example =
    upload_then_active package_v1 (connection empty_tables) (connection-IsReady empty_tables)
      empty-IsRegistered refl upload_succeeds
