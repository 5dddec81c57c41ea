-- ===== src/Edge/Types.antt =====
-- The task and map structures of edge_server/src/types.h. `int` quantities are integers: each is bound to
-- 32 bits where it enters, and the code adds two of them at most in SQLite's 64 bits.
use amr_warehouse_collaborat.Prelude.{ℕ, ℤ, String, Bool, List}

pub record TaskGoods : Type 0 where
  pub goods_id : String
  pub goods_name : String
  pub total_quantity : ℤ

pub record TransportTask : Type 0 where
  pub task_id : String
  pub warehouse_id : String
  pub task_type : String
  pub robot_ids : List String
  pub goods : List TaskGoods
  pub state : String
  pub goal : String
  pub reason : String
  pub created_at : String
  pub updated_at : String

pub record TaskGoodsStatus : Type 0 where
  pub goods_id : String
  pub total_quantity : ℤ
  pub in_progress_quantity : ℤ
  pub completed_quantity : ℤ
  pub pending_quantity : ℤ
  pub updated_at : String

pub record AmrTaskStatusEvent : Type 0 where
  pub message_id : String
  pub warehouse_id : String
  pub task_id : String
  pub robot_id : String
  pub event_type : String
  pub task_state : String
  pub request_id : String
  pub goods_json : String
  pub reason : String
  pub timestamp : String
  pub received_at : String

pub record GoodsApplyRequest : Type 0 where
  pub request_id : String
  pub warehouse_id : String
  pub task_id : String
  pub robot_id : String
  pub goods : List TaskGoods

pub record GoodsApplyResult : Type 0 where
  pub accepted : Bool
  pub reason : String
  pub goods : List TaskGoods

-- `id` and `upload_time` are set by the database, the other fields by the service.
pub record MapPackage : Type 0 where
  pub id : ℕ
  pub warehouse_id : String
  pub version : String
  pub package_name : String
  pub package_path : String
  pub package_size : ℕ
  pub upload_time : String
  pub activate : Bool

pub record MapUploadRequest : Type 0 where
  pub warehouse_id : String
  pub version : String
  pub package_name : String
  pub package_size : ℤ
  pub activate : Bool
  pub upload_file_path : String

pub record MapUpdateInfo : Type 0 where
  pub need_update : Bool
  pub version : String
  pub download_url : String
