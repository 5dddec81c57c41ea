-- ===== src/Edge/MapService.antt =====
-- edge_server/src/service/map_service.cpp. The file system is a list of paths with their files, the
-- newest write first; the two library calls that may throw have their outcome as an argument. The
-- callback on a change of the active map is recorded with its argument.
pub mod Uploads
use Prim.Native.String.{◌++◌ as append}
use text.Mathlib.Text.{starts_with}
use amr_warehouse_collaborat.Prelude.{
  ℕ, String, ◌==◌, is_blank, Bool, true, false, not, ◌&&◌, ◌||◌, Option, none, some, List, [], ◌∷◌,
  ◌++◌, is_some, if◌then◌else◌,
}
use amr_warehouse_collaborat.Edge.Types.{MapPackage, MapUploadRequest, MapUpdateInfo}
use amr_warehouse_collaborat.Edge.Schema.{Tables}
use amr_warehouse_collaborat.Edge.Sql.{Connection}
use amr_warehouse_collaborat.Edge.MapStore.{
  upload_map_package, set_active_map, get_map_package, get_active_map,
}

pub record File : Type 0 where
  pub content : String
  pub file_size : ℕ

pub record MapService : Type 0 where
  pub warehouse_id : String
  pub notifies : Bool
  pub db : Connection Tables
  pub files : List (String × File)
  pub activated : List MapPackage

-- Whether fs::create_directories and fs::copy_file return without an exception.
pub record DiskOutcome : Type 0 where
  pub creates : Bool
  pub copies : Bool

unfoldable pub read_file : String → List (String × File) → Option File
read_file path [] = none
read_file path ((p, f) ∷ files) = if p == path then some f else read_file path files

unfoldable pub check_request : MapUploadRequest → MapService → Bool
check_request r s =
    not (is_blank r.warehouse_id)
    && r.warehouse_id == s.warehouse_id
    && not (is_blank r.version)
    && not (is_blank r.upload_file_path)
    && is_some (read_file r.upload_file_path s.files)

-- `a / b` of std::filesystem::path. (A second separator after a trailing one names the same file.)
unfoldable pub join : String → String → String
join a b = if starts_with b "/" then b else append a (append "/" b)

-- The path that prepareMapDirectory computes.
unfoldable pub target_path : String → String → String
target_path warehouse_id version =
    join (join (join (join "/opt/amr/data/warehouses" warehouse_id) "maps") version) "map.zip"

-- `if(m_activeMapChangedCallback) m_activeMapChangedCallback(package)`.
unfoldable pub notify : MapPackage → MapService → MapService
notify p s = if s.notifies then record s { activated = s.activated ++ p ∷ [] } else s

unfoldable pub package_of : MapUploadRequest → File → MapPackage
package_of r f = record {
  id = 0;
  warehouse_id = r.warehouse_id;
  version = r.version;
  package_name = r.package_name;
  package_path = target_path r.warehouse_id r.version;
  package_size = f.file_size;
  upload_time = "";
  activate = r.activate;
}

store_package : MapPackage → MapService → Bool × MapService
store_package p s =
    let (stored, db') = upload_map_package p s.db in
    if stored
    then (true, if p.activate then notify p (record s { db = db' }) else record s { db = db' })
    else (false, record s { db = db' })

-- The file is written before the database is asked.
copy_and_store : DiskOutcome → MapUploadRequest → Option File → MapService → Bool × MapService
unfolding store_package
copy_and_store disk r none s = (false, s)
copy_and_store disk r (some f) s =
    if disk.copies
    then store_package (package_of r f)
        (record s { files = (target_path r.warehouse_id r.version, f) ∷ s.files })
    else (false, s)

unfoldable pub upload_map : DiskOutcome → MapUploadRequest → MapService → Bool × MapService
unfolding copy_and_store
upload_map disk r s =
    if check_request r s && disk.creates
    then copy_and_store disk r (read_file r.upload_file_path s.files) s
    else (false, s)

unfoldable pub active_map : String → MapService → Option MapPackage × MapService
active_map warehouse_id s =
    if warehouse_id == s.warehouse_id
    then (let (p, db') = get_active_map warehouse_id s.db in (p, record s { db = db' }))
    else (none, s)

activate_found : String → Option MapPackage → MapService → Bool × MapService
activate_found warehouse_id none s = (false, s)
activate_found warehouse_id (some p) s =
    let (set, db') = set_active_map warehouse_id p.id p.version s.db in
    if set then (true, notify p (record s { db = db' })) else (false, record s { db = db' })

unfoldable pub activate_map : String → String → MapService → Bool × MapService
unfolding activate_found
activate_map warehouse_id version s =
    if warehouse_id == s.warehouse_id
    then (let (p, db') = get_map_package warehouse_id version s.db in
        activate_found warehouse_id p (record s { db = db' }))
    else (false, s)

unfoldable pub update_info : String → String → MapPackage → MapUpdateInfo
update_info warehouse_id robot_version p =
    if p.version == robot_version
    then record { need_update = false; version = p.version; download_url = "" }
    else record {
      need_update = true;
      version = p.version;
      download_url = append "/api/maps/download?warehouse_id=" warehouse_id;
    }

unfoldable pub update_found : String → String → Option MapPackage → Option MapUpdateInfo
update_found warehouse_id robot_version none = none
update_found warehouse_id robot_version (some p) = some (update_info warehouse_id robot_version p)

unfoldable pub check_map_update : String → String → MapService → Option MapUpdateInfo × MapService
unfolding update_found
check_map_update warehouse_id robot_version s =
    let (p, s') = active_map warehouse_id s in (update_found warehouse_id robot_version p, s')
