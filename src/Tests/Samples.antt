-- ===== src/Tests/Samples.antt =====
-- The data that the runs share.
use amr_warehouse_collaborat.Edge.Sql.{quiet}
use amr_warehouse_collaborat.Prelude.{pos, true, none, some, List, [], ◌∷◌}
use amr_warehouse_collaborat.Edge.Types.{
  TaskGoods, TransportTask, AmrTaskStatusEvent, GoodsApplyRequest, MapPackage, MapUploadRequest,
}
use amr_warehouse_collaborat.Edge.Schema.{
  Tables, TaskRow, StatusRow, AllocationRow, AmrEventRow, PackageRow, empty_tables,
}
use amr_warehouse_collaborat.Edge.Sql.{Connection}
use amr_warehouse_collaborat.Edge.TaskService.{Service}

abbrev pub boxes : TaskGoods
boxes = record { goods_id = "g1"; goods_name = "box"; total_quantity = pos 10 }

abbrev pub some_boxes : TaskGoods
some_boxes = record { goods_id = "g1"; goods_name = "box"; total_quantity = pos 4 }

abbrev pub task : TransportTask
task = record {
  task_id = "t1";
  warehouse_id = "w1";
  task_type = "LOAD";
  robot_ids = "r1" ∷ [];
  goods = boxes ∷ [];
  state = "PENDING";
  goal = "";
  reason = "";
  created_at = "1";
  updated_at = "1";
}

abbrev pub task_stored : TaskRow
task_stored = record {
  task_id = "t1";
  warehouse_id = "w1";
  task_type = "LOAD";
  state = "PENDING";
  robot_ids = "r1" ∷ [];
  goal = "";
  reason = "";
  created_at = "1";
  updated_at = "1";
}

abbrev pub quantities : StatusRow
quantities = record {
  task_id = "t1";
  goods_id = "g1";
  total_quantity = pos 10;
  in_progress_quantity = pos 0;
  completed_quantity = pos 0;
  pending_quantity = pos 10;
  updated_at = "1";
}

-- The task is stored, and nothing is allocated.
abbrev pub stored : Tables
stored = record empty_tables {
  tasks = task_stored ∷ [];
  goods =
      record { task_id = "t1"; goods_id = "g1"; goods_name = "box"; total_quantity = pos 10 } ∷ [];
  statuses = quantities ∷ [];
}

abbrev pub carried : AllocationRow
carried = record {
  request_id = "q1";
  task_id = "t1";
  goods_id = "g1";
  robot_id = "r1";
  quantity = pos 4;
  state = "IN_PROGRESS";
  allocated_at = "2";
  settled_at = none;
}

-- Four boxes are on their way.
abbrev pub approved : Tables
approved = record stored {
  statuses =
      record quantities { in_progress_quantity = pos 4; pending_quantity = pos 6; updated_at = "2" }
      ∷ [];
  allocations = carried ∷ [];
}

-- They have arrived.
abbrev pub settled : Tables
settled = record stored {
  statuses =
      record quantities { completed_quantity = pos 4; pending_quantity = pos 6; updated_at = "3" }
      ∷ [];
  allocations = record carried { state = "COMPLETED"; settled_at = some "3" } ∷ [];
}

-- All ten boxes are on their way, and then arrived with the report below.
abbrev pub last_way : Tables
last_way = record stored {
  statuses = record quantities { in_progress_quantity = pos 10; pending_quantity = pos 0 } ∷ [];
  allocations = record carried { quantity = pos 10 } ∷ [];
}

abbrev pub arrival_stored : AmrEventRow
arrival_stored = record {
  message_id = "m1";
  task_id = "t1";
  robot_id = "r1";
  event_type = "CARRY_COMPLETED";
  task_state = "RUNNING";
  goods_json = "[]";
  reason = "";
  timestamp = "3";
  received_at = "9";
}

abbrev pub arrived : Tables
arrived = record stored {
  statuses =
      record quantities { completed_quantity = pos 10; pending_quantity = pos 0; updated_at = "3" }
      ∷ [];
  allocations =
      record carried { quantity = pos 10; state = "COMPLETED"; settled_at = some "3" } ∷ [];
  amr_events = arrival_stored ∷ [];
}

abbrev pub connection : Tables → Connection Tables
connection t = record { is_open = true; tables = t; saved = quiet; faults = []; clock = "9" }

abbrev pub service : Tables → Service
service t = record { warehouse_id = "w1"; publishes = true; db = connection t; sent = [] }

abbrev pub request : List TaskGoods → GoodsApplyRequest
request goods = record {
  request_id = "q1";
  warehouse_id = "w1";
  task_id = "t1";
  robot_id = "r1";
  goods = goods;
}

abbrev pub arrival : AmrTaskStatusEvent
arrival = record {
  message_id = "m1";
  warehouse_id = "w1";
  task_id = "t1";
  robot_id = "r1";
  event_type = "CARRY_COMPLETED";
  task_state = "RUNNING";
  request_id = "q1";
  goods_json = "[]";
  reason = "";
  timestamp = "3";
  received_at = "";
}

abbrev pub package_v1 : MapPackage
package_v1 = record {
  id = 0;
  warehouse_id = "w1";
  version = "v1";
  package_name = "hall.zip";
  package_path = "/opt/amr/data/warehouses/w1/maps/v1/map.zip";
  package_size = 5;
  upload_time = "";
  activate = true;
}

abbrev pub row_v1 : PackageRow
row_v1 = record {
  id = 1;
  warehouse_id = "w1";
  version = "v1";
  package_name = "hall.zip";
  package_path = "/opt/amr/data/warehouses/w1/maps/v1/map.zip";
  package_size = 5;
  upload_time = "9";
}

-- The package is stored and active.
abbrev pub mapped : Tables
mapped = record empty_tables {
  packages = row_v1 ∷ [];
  active_maps =
      record { warehouse_id = "w1"; package_id = 1; version = "v1"; update_time = "9" } ∷ [];
  next_package = 2;
}

abbrev pub upload_v1 : MapUploadRequest
upload_v1 = record {
  warehouse_id = "w1";
  version = "v1";
  package_name = "hall.zip";
  package_size = pos 5;
  activate = true;
  upload_file_path = "/tmp/upload/map.zip";
}
