-- ===== src/Edge/MapStore/Current.antt =====
-- GetActiveMap after an upload, and a second upload of a version
-- (edge_server/src/database/sqlite_db.cpp).
use amr_warehouse_collaborat.Edge.Sql.{quiet}
use amr_warehouse_collaborat.Prelude.{
  ℕ, ◌<◌, ◌≡◌, refl, ap, ◌∙◌, String, ◌==◌, eqb, true, false, some, List, [], ◌∷◌, any, find, All,
  arith, Bool-cases, inl, inr,
}
use amr_warehouse_collaborat.Edge.Types.{MapPackage}
use amr_warehouse_collaborat.Edge.Rows.Laws.{find-append_none}
use amr_warehouse_collaborat.Edge.Schema.{Tables, PackageRow, ActiveMapRow, package_clash}
use amr_warehouse_collaborat.Edge.Sql.{Connection}
use amr_warehouse_collaborat.Edge.Sql.Transactions.{IsReady, query_one_reliable}
use amr_warehouse_collaborat.Edge.MapStore.{
  package_row, upload_at, upload_map_package, upload_tables, find_active, joined_package,
  get_active_map, package_of_row,
}
use amr_warehouse_collaborat.Edge.MapStore.Active.{
  IsRegistered, activated, upload-Atomic, upload_tables-inv, insert_package-inv, find-upserted,
}

new_id :
    (n : ℕ) (rows : List PackageRow) → All (λ m. m.id < n) rows → any (λ m. eqb m.id n) rows ≡ false
new_id n [] h = refl
new_id n (m ∷ rows) h = ground (arith, new_id n rows h.1)

find_active_joins :
    (warehouse : String) (row : PackageRow) (t' : Tables) (a : ActiveMapRow)
    → find (λ x. x.warehouse_id == warehouse) t'.active_maps ≡ some a
    → find (λ m. eqb m.id a.package_id) t'.packages ≡ some row
    → find_active warehouse t' ≡ some row
unfolding find_active joined_package
find_active_joins warehouse row t' a found joined = rw found joined

find_active_uploaded :
    (p : MapPackage) (now : String) (t t' : Tables)
    → IsRegistered t
    → p.activate ≡ true
    → upload_tables p now t ≡ some t'
    → find_active p.warehouse_id t' ≡ some (package_row p t.next_package now)
unfolding find_active package_row
find_active_uploaded p now t t' g e h =
    let (u, inserted, last) = upload_tables-inv p now t t' h in
    let rows = (insert_package-inv p now t u inserted).0 in
    let (a, found, id) = find-upserted p.warehouse_id t.next_package p.version now u.active_maps in
    let packages =
      find-append_none (λ m. eqb m.id t.next_package) t.packages (package_row p t.next_package now)
        (new_id t.next_package t.packages g.fresh) (ground arith) in
    let whole : t' ≡ activated p.warehouse_id t.next_package p.version now u = last ∙ rw e refl in
    find_active_joins p.warehouse_id (package_row p t.next_package now) t' a
      (ap (λ x. find (λ y. y.warehouse_id == p.warehouse_id) x.active_maps) whole ∙ found)
      (ap (λ x. find (λ m. eqb m.id a.package_id) x.packages) whole
        ∙ ap (λ n. find (λ m. eqb m.id n) u.packages) id
        ∙ ap (λ x. find (λ m. eqb m.id t.next_package) x.packages) rows
        ∙ packages)

-- After an upload that asks for activation has succeeded on a database that works and is registered,
-- GetActiveMap of its warehouse returns the uploaded package: its warehouse, version, name, path and
-- size, under the id that the counter gave, with the time of the upload.
pub upload_then_active :
    (p : MapPackage) (c : Connection Tables)
    → IsReady c
    → IsRegistered c.tables
    → p.activate ≡ true
    → (upload_map_package p c).0 ≡ true
    → (get_active_map p.warehouse_id (upload_map_package p c).1).0
      ≡ some (record {
        id = c.tables.next_package;
        warehouse_id = p.warehouse_id;
        version = p.version;
        package_name = p.package_name;
        package_path = p.package_path;
        package_size = p.package_size;
        upload_time = c.clock;
        activate = false;
      })
unfolding upload_map_package get_active_map package_of_row package_row
upload_then_active p c ready g e h =
    let d = (upload_at p c.clock c).1 in
    let atomic = upload-Atomic p c.clock in
    let row =
      find_active_uploaded p c.clock c.tables d.tables g e (atomic.committed c ready.closed h) in
    ground (
      arith,
      atomic.opened c,
      ready.opened,
      query_one_reliable (find_active p.warehouse_id) d (atomic.reliable c ready.reliable),
      row,
    )

-- A version that is stored for the warehouse cannot be uploaded again, whichever calls fail: the
-- upload reports failure and changes no table.
pub upload_again_refused :
    (p : MapPackage) (c : Connection Tables)
    → c.saved ≡ quiet
    → any (package_clash (package_row p c.tables.next_package c.clock)) c.tables.packages ≡ true
    → ((upload_map_package p c).0 ≡ false) × ((upload_map_package p c).1.tables ≡ c.tables)
unfolding upload_map_package
upload_again_refused p c e h = elim (Bool-cases (upload_at p c.clock c).0) [
  | inr failed ↦ (failed, (upload-Atomic p c.clock).undone c e failed)
  | inl good ↦
      let (u, inserted, last) =
        upload_tables-inv p c.clock c.tables (upload_at p c.clock c).1.tables
          ((upload-Atomic p c.clock).committed c e good) in
      absurd (ground (arith, insert_package-inv p c.clock c.tables u inserted))
]
