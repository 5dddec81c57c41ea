-- ===== src/Edge/MapStore.antt =====
-- The map functions of edge_server/src/database/sqlite_db.cpp: SQLiteDB::UploadMapPackage,
-- InsertMapPackageInternal, SetActiveMapInternal, SetActiveMap, GetMapPackage and GetActiveMap.
pub mod Active
pub mod Current
use amr_warehouse_collaborat.Prelude.{
  ℕ, suc, String, ◌==◌, eqb, Bool, true, false, ◌&&◌, Option, none, some, List, [], ◌∷◌, find,
  if◌then◌else◌,
}
use amr_warehouse_collaborat.Edge.Types.{MapPackage}
use amr_warehouse_collaborat.Edge.Rows.{insert_row, upsert_row}
use amr_warehouse_collaborat.Edge.Schema.{
  Tables, PackageRow, ActiveMapRow, package_clash, active_map_clash,
}
use amr_warehouse_collaborat.Edge.Sql.{
  Connection, run, done, ◌and_then◌, transaction, when_open, query_one,
}
use amr_warehouse_collaborat.Edge.Sql.Transactions.{◌then_do◌}

-- AUTOINCREMENT gives the row the next id; `upload_time` has CURRENT_TIMESTAMP for its default.
unfoldable pub package_row : MapPackage → ℕ → String → PackageRow
package_row p id now = record {
  id = id;
  warehouse_id = p.warehouse_id;
  version = p.version;
  package_name = p.package_name;
  package_path = p.package_path;
  package_size = p.package_size;
  upload_time = now;
}

unfoldable pub put_packages : Tables → Option (List PackageRow) → Option (ℕ × Tables)
put_packages t none = none
put_packages t (some rows) =
    some (1, record t { packages = rows; next_package = suc t.next_package })

unfoldable pub insert_package : MapPackage → String → Tables → Option (ℕ × Tables)
unfolding put_packages
insert_package p now t =
    put_packages t
      (insert_row (λ _. true) package_clash (package_row p t.next_package now) t.packages)

unfoldable pub active_row : String → ℕ → String → String → ActiveMapRow
active_row warehouse_id package_id version now = record {
  warehouse_id = warehouse_id;
  package_id = package_id;
  version = version;
  update_time = now;
}

-- DO UPDATE SET package_id, version, update_time.
unfoldable pub merge_active : ActiveMapRow → ActiveMapRow → ActiveMapRow
merge_active old new = record old {
  package_id = new.package_id;
  version = new.version;
  update_time = new.update_time;
}

unfoldable pub set_active : String → ℕ → String → String → Tables → Option (ℕ × Tables)
set_active warehouse_id package_id version now t = some (
  1,
  record t {
    active_maps =
        upsert_row active_map_clash merge_active (active_row warehouse_id package_id version now)
          t.active_maps;
  },
)

-- The two statements of an upload; `package_id` is what sqlite3_last_insert_rowid returns.
unfoldable pub upload_body : MapPackage → String → ℕ → Connection Tables → Bool × Connection Tables
upload_body p now package_id =
    if p.activate
    then run (done (insert_package p now))
      and_then run (done (set_active p.warehouse_id package_id p.version now))
    else run (done (insert_package p now))

-- UploadMapPackage, with the reading of CURRENT_TIMESTAMP as an argument.
unfoldable pub upload_at : MapPackage → String → Connection Tables → Bool × Connection Tables
upload_at p now = when_open (transaction (λ c. upload_body p now c.tables.next_package c))

unfoldable pub upload_map_package : MapPackage → Connection Tables → Bool × Connection Tables
upload_map_package p c = upload_at p c.clock c

-- What an upload does to the tables, failing calls apart.
abbrev pub upload_tables : MapPackage → String → Tables → Option Tables
upload_tables p now t =
    if p.activate
    then (done (insert_package p now)
          then_do done (set_active p.warehouse_id t.next_package p.version now))
        t
    else done (insert_package p now) t

-- SetActiveMap, with the reading of CURRENT_TIMESTAMP as an argument. With no open database prepare
-- fails, as it does for a null handle.
unfoldable pub set_active_at :
    String → ℕ → String → String → Connection Tables → Bool × Connection Tables
set_active_at warehouse_id package_id version now =
    when_open (run (done (set_active warehouse_id package_id version now)))

unfoldable pub set_active_map : String → ℕ → String → Connection Tables → Bool × Connection Tables
set_active_map warehouse_id package_id version c =
    set_active_at warehouse_id package_id version c.clock c

unfoldable pub package_of_row : PackageRow → MapPackage
package_of_row r = record {
  id = r.id;
  warehouse_id = r.warehouse_id;
  version = r.version;
  package_name = r.package_name;
  package_path = r.package_path;
  package_size = r.package_size;
  upload_time = r.upload_time;
  activate = false;
}

unfoldable pub map_package : {A B : Type 0} → (A → B) → Option A → Option B
map_package f none = none
map_package f (some a) = some (f a)

unfoldable pub find_package : String → String → Tables → Option PackageRow
find_package warehouse_id version t =
    find (λ m. m.warehouse_id == warehouse_id && m.version == version) t.packages

-- `activate` is what the caller's struct held; the callers here leave it false. With no open
-- database prepare fails, as it does for a null handle.
unfoldable pub get_map_package :
    String → String → Connection Tables → Option MapPackage × Connection Tables
unfolding map_package package_of_row
get_map_package warehouse_id version c =
    if c.is_open
    then (let (row, c') = query_one (find_package warehouse_id version) c in
        (map_package package_of_row row, c'))
    else (none, c)

-- FROM tbl_active_map a JOIN tbl_map_package m ON a.package_id=m.id WHERE a.warehouse_id=?; the key
-- of each table makes the row unique.
unfoldable pub joined_package : List PackageRow → Option ActiveMapRow → Option PackageRow
joined_package packages none = none
joined_package packages (some a) = find (λ m. eqb m.id a.package_id) packages

unfoldable pub find_active : String → Tables → Option PackageRow
unfolding joined_package
find_active warehouse_id t =
    joined_package t.packages (find (λ a. a.warehouse_id == warehouse_id) t.active_maps)

unfoldable pub get_active_map : String → Connection Tables → Option MapPackage × Connection Tables
unfolding map_package package_of_row
get_active_map warehouse_id c =
    if c.is_open
    then (let (row, c') = query_one (find_active warehouse_id) c in
        (map_package package_of_row row, c'))
    else (none, c)
