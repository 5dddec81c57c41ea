-- ===== src/Edge/Schema.antt =====
-- The tables that SQLiteDB::InitMapTables and SQLiteDB::InitTaskTables create
-- (edge_server/src/database/sqlite_db.cpp), with their CHECK, UNIQUE and PRIMARY KEY constraints.
-- A column of JSON text that holds robot ids is kept as the list that it encodes. Row ids that no
-- statement reads are the positions in the lists.
use amr_warehouse_collaborat.Prelude.{
  ℕ, ℤ, pos, ◌+ℤ◌, leb_ℤ, eqb_ℤ, String, ◌==◌, Bool, ◌&&◌, ◌||◌, Option, none, some, List, [],
}

pub record TaskRow : Type 0 where
  pub task_id : String
  pub warehouse_id : String
  pub task_type : String
  pub state : String
  pub robot_ids : List String
  pub goal : String
  pub reason : String
  pub created_at : String
  pub updated_at : String

pub record GoodsRow : Type 0 where
  pub task_id : String
  pub goods_id : String
  pub goods_name : String
  pub total_quantity : ℤ

pub record StatusRow : Type 0 where
  pub task_id : String
  pub goods_id : String
  pub total_quantity : ℤ
  pub in_progress_quantity : ℤ
  pub completed_quantity : ℤ
  pub pending_quantity : ℤ
  pub updated_at : String

pub record AllocationRow : Type 0 where
  pub request_id : String
  pub task_id : String
  pub goods_id : String
  pub robot_id : String
  pub quantity : ℤ
  pub state : String
  pub allocated_at : String
  pub settled_at : Option String

pub record TaskEventRow : Type 0 where
  pub task_id : String
  pub state : String
  pub reason : String
  pub source : String
  pub timestamp : String

pub record AmrEventRow : Type 0 where
  pub message_id : String
  pub task_id : String
  pub robot_id : String
  pub event_type : String
  pub task_state : String
  pub goods_json : String
  pub reason : String
  pub timestamp : String
  pub received_at : String

pub record PackageRow : Type 0 where
  pub id : ℕ
  pub warehouse_id : String
  pub version : String
  pub package_name : String
  pub package_path : String
  pub package_size : ℕ
  pub upload_time : String

pub record ActiveMapRow : Type 0 where
  pub warehouse_id : String
  pub package_id : ℕ
  pub version : String
  pub update_time : String

-- `next_package` is the AUTOINCREMENT counter of tbl_map_package.
pub record Tables : Type 0 where
  pub tasks : List TaskRow
  pub goods : List GoodsRow
  pub statuses : List StatusRow
  pub allocations : List AllocationRow
  pub task_events : List TaskEventRow
  pub amr_events : List AmrEventRow
  pub packages : List PackageRow
  pub active_maps : List ActiveMapRow
  pub next_package : ℕ

abbrev pub empty_tables : Tables
empty_tables = record {
  tasks = [];
  goods = [];
  statuses = [];
  allocations = [];
  task_events = [];
  amr_events = [];
  packages = [];
  active_maps = [];
  next_package = 1;
}

unfoldable pub task_check : TaskRow → Bool
task_check r = r.task_type == "LOAD" || r.task_type == "UNLOAD"

unfoldable pub task_clash : TaskRow → TaskRow → Bool
task_clash r x = x.task_id == r.task_id

unfoldable pub goods_check : GoodsRow → Bool
goods_check r = leb_ℤ (pos 0) r.total_quantity

unfoldable pub goods_clash : GoodsRow → GoodsRow → Bool
goods_clash r x = x.task_id == r.task_id && x.goods_id == r.goods_id

-- The four sign constraints and CHECK(total = in_progress + completed + pending).
unfoldable pub status_check : StatusRow → Bool
status_check r =
    leb_ℤ (pos 0) r.total_quantity
    && leb_ℤ (pos 0) r.in_progress_quantity
    && leb_ℤ (pos 0) r.completed_quantity
    && leb_ℤ (pos 0) r.pending_quantity
    && eqb_ℤ r.total_quantity (r.in_progress_quantity +ℤ r.completed_quantity +ℤ r.pending_quantity)

unfoldable pub status_clash : StatusRow → StatusRow → Bool
status_clash r x = x.task_id == r.task_id && x.goods_id == r.goods_id

unfoldable pub allocation_check : AllocationRow → Bool
allocation_check r =
    leb_ℤ (pos 1) r.quantity
    && (r.state == "IN_PROGRESS" || r.state == "COMPLETED" || r.state == "ABORTED")

-- UNIQUE(request_id, robot_id).
unfoldable pub allocation_clash : AllocationRow → AllocationRow → Bool
allocation_clash r x = x.request_id == r.request_id && x.robot_id == r.robot_id

unfoldable pub amr_event_check : AmrEventRow → Bool
amr_event_check r =
    r.event_type == "STATUS" || r.event_type == "CARRY_COMPLETED" || r.event_type == "CARRY_ABORTED"

-- UNIQUE(message_id, task_id, robot_id, event_type).
unfoldable pub amr_event_clash : AmrEventRow → AmrEventRow → Bool
amr_event_clash r x =
    x.message_id == r.message_id
    && x.task_id == r.task_id
    && x.robot_id == r.robot_id
    && x.event_type == r.event_type

-- UNIQUE(warehouse_id, version).
unfoldable pub package_clash : PackageRow → PackageRow → Bool
package_clash r x = x.warehouse_id == r.warehouse_id && x.version == r.version

unfoldable pub active_map_clash : ActiveMapRow → ActiveMapRow → Bool
active_map_clash r x = x.warehouse_id == r.warehouse_id

-- Put a table that a statement changed back among the others, with the count of changed rows.
abbrev pub one_row : {R : Type 0} → Option (List R) → Option (ℕ × List R)
one_row none = none
one_row (some rows) = some (1, rows)

abbrev pub put_tasks : Tables → Option (ℕ × List TaskRow) → Option (ℕ × Tables)
put_tasks t none = none
put_tasks t (some (n, rows)) = some (n, record t { tasks = rows })

abbrev pub put_goods : Tables → Option (ℕ × List GoodsRow) → Option (ℕ × Tables)
put_goods t none = none
put_goods t (some (n, rows)) = some (n, record t { goods = rows })

abbrev pub put_statuses : Tables → Option (ℕ × List StatusRow) → Option (ℕ × Tables)
put_statuses t none = none
put_statuses t (some (n, rows)) = some (n, record t { statuses = rows })

abbrev pub put_allocations : Tables → Option (ℕ × List AllocationRow) → Option (ℕ × Tables)
put_allocations t none = none
put_allocations t (some (n, rows)) = some (n, record t { allocations = rows })
