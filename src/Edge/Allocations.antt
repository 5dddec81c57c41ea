-- ===== src/Edge/Allocations.antt =====
-- SQLiteDB::ApproveGoodsAllocation and SQLiteDB::SettleGoodsAllocation
-- (edge_server/src/database/sqlite_db.cpp). Each SQL text is one statement on the tables.
pub mod Atomicity
pub mod Balance
pub mod Approval
pub mod Settled
pub mod Settlement
pub mod Exclusion
use amr_warehouse_collaborat.Prelude.{
  ℕ, ℤ, ◌+ℤ◌, ◌-ℤ◌, leb_ℤ, String, ◌==◌, Bool, true, false, not, ◌&&◌, ◌||◌, Option, none, some,
  List, find, if◌then◌else◌,
}
use amr_warehouse_collaborat.Edge.Rows.{insert_row, update_rows}
use amr_warehouse_collaborat.Edge.Schema.{
  Tables, StatusRow, AllocationRow, status_check, allocation_check, allocation_clash, one_row,
  put_statuses, put_allocations,
}
use amr_warehouse_collaborat.Edge.Sql.{
  Connection, run, done, changed, ◌and_then◌, transaction, when_open, select_then,
}
use amr_warehouse_collaborat.Edge.Sql.Transactions.{◌then_do◌, on_row}

-- WHERE task_id=? AND goods_id=?.
unfoldable pub is_status_of : String → String → StatusRow → Bool
is_status_of task_id goods_id r = r.task_id == task_id && r.goods_id == goods_id

-- SET in_progress_quantity = in_progress_quantity + ?, pending_quantity = pending_quantity - ?.
unfoldable pub reserve : ℤ → String → StatusRow → StatusRow
reserve quantity now r = record r {
  in_progress_quantity = r.in_progress_quantity +ℤ quantity;
  pending_quantity = r.pending_quantity -ℤ quantity;
  updated_at = now;
}

unfoldable pub reserve_statement : String → String → ℤ → String → Tables → Option (ℕ × Tables)
reserve_statement task_id goods_id quantity now t = put_statuses t (
    update_rows status_check
      (λ r. is_status_of task_id goods_id r && leb_ℤ quantity r.pending_quantity)
      (reserve quantity now) t.statuses)

unfoldable pub new_allocation : String → String → String → String → ℤ → String → AllocationRow
new_allocation request_id task_id goods_id robot_id quantity now = record {
  request_id = request_id;
  task_id = task_id;
  goods_id = goods_id;
  robot_id = robot_id;
  quantity = quantity;
  state = "IN_PROGRESS";
  allocated_at = now;
  settled_at = none;
}

unfoldable pub allocate_statement : AllocationRow → Tables → Option (ℕ × Tables)
allocate_statement a t =
    put_allocations t (one_row (insert_row allocation_check allocation_clash a t.allocations))

unfoldable pub approve_goods_allocation :
    String → String → String → String → ℤ → String → Connection Tables → Bool × Connection Tables
approve_goods_allocation request_id task_id goods_id robot_id quantity allocated_at = when_open (
    transaction (
      run (changed (reserve_statement task_id goods_id quantity allocated_at))
      and_then run (
          done (
            allocate_statement
              (new_allocation request_id task_id goods_id robot_id quantity allocated_at)))))

-- What an approval does to the tables, failing calls apart.
abbrev pub approve_tables : String → String → String → String → ℤ → String → Tables → Option Tables
approve_tables request_id task_id goods_id robot_id quantity allocated_at =
    changed (reserve_statement task_id goods_id quantity allocated_at)
    then_do done (
        allocate_statement
          (new_allocation request_id task_id goods_id robot_id quantity allocated_at))

-- WHERE request_id=? AND robot_id=? AND state='IN_PROGRESS'.
unfoldable pub is_active : String → String → AllocationRow → Bool
is_active request_id robot_id a =
    a.request_id == request_id && a.robot_id == robot_id && a.state == "IN_PROGRESS"

unfoldable pub settle : String → String → AllocationRow → AllocationRow
settle state now a = record a { state = state; settled_at = some now }

unfoldable pub settle_statement : String → String → String → String → Tables → Option (ℕ × Tables)
settle_statement request_id robot_id state now t =
    put_allocations t (
      update_rows allocation_check (is_active request_id robot_id) (settle state now) t.allocations)

-- The two texts of the second UPDATE: the quantity goes to `completed` or back to `pending`.
unfoldable pub give_back : String → ℤ → String → StatusRow → StatusRow
give_back state quantity now r =
    if state == "COMPLETED"
    then record r {
      in_progress_quantity = r.in_progress_quantity -ℤ quantity;
      completed_quantity = r.completed_quantity +ℤ quantity;
      updated_at = now;
    }
    else record r {
      in_progress_quantity = r.in_progress_quantity -ℤ quantity;
      pending_quantity = r.pending_quantity +ℤ quantity;
      updated_at = now;
    }

unfoldable pub give_back_statement :
    String → String → String → ℤ → String → Tables → Option (ℕ × Tables)
give_back_statement task_id goods_id state quantity now t = put_statuses t (
    update_rows status_check (is_status_of task_id goods_id) (give_back state quantity now)
      t.statuses)

unfoldable pub active_allocation : String → String → Tables → Option AllocationRow
active_allocation request_id robot_id t = find (is_active request_id robot_id) t.allocations

settle_selected :
    String → String → String → String → AllocationRow → Connection Tables → Bool × Connection Tables
settle_selected request_id robot_id state now a = transaction (
    run (changed (settle_statement request_id robot_id state now))
    and_then run (changed (give_back_statement a.task_id a.goods_id state a.quantity now)))

abbrev pub settles_as : String → Bool
settles_as state = state == "COMPLETED" || state == "ABORTED"

unfoldable pub settle_goods_allocation :
    String → String → String → String → Connection Tables → Bool × Connection Tables
unfolding settle_selected
settle_goods_allocation request_id robot_id state settled_at = when_open (λ c.
    if settles_as state
    then select_then (active_allocation request_id robot_id)
        (settle_selected request_id robot_id state settled_at) c
    else (false, c))

-- What a settlement does to the tables, failing calls apart.
abbrev pub settle_tables : String → String → String → String → Tables → Option Tables
settle_tables request_id robot_id state now t =
    if settles_as state
    then on_row (active_allocation request_id robot_id)
        (λ a.
          changed (settle_statement request_id robot_id state now)
          then_do changed (give_back_statement a.task_id a.goods_id state a.quantity now))
        t
    else none
