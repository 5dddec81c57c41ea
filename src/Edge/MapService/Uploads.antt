-- ===== src/Edge/MapService/Uploads.antt =====
-- What uploadMap leaves on disk and in the database (edge_server/src/service/map_service.cpp).
use amr_warehouse_collaborat.Edge.Sql.{quiet}
use amr_warehouse_collaborat.Prelude.{
  sym, subst, ◌==◌, ◌&&◌, List, [], find, ◌≡◌, refl, ap, ◌∙◌, String, eq_refl, Bool, true, false,
  some, ◌∷◌, any, arith,
}
use amr_warehouse_collaborat.Edge.Types.{MapPackage, MapUploadRequest}
use amr_warehouse_collaborat.Edge.Schema.{PackageRow, package_clash}
use amr_warehouse_collaborat.Edge.MapStore.{package_row, upload_tables, upload_map_package}
use amr_warehouse_collaborat.Edge.Rows.Laws.{find-append_none}
use amr_warehouse_collaborat.Edge.MapStore.Active.{
  upload-Atomic, upload_tables-inv, insert_package-inv,
}
use amr_warehouse_collaborat.Edge.MapStore.Current.{upload_again_refused}
use amr_warehouse_collaborat.Edge.MapService.{
  MapService, File, DiskOutcome, read_file, check_request, target_path, package_of, store_package,
  upload_map, notify,
}

module _ (disk : DiskOutcome) (r : MapUploadRequest) (s : MapService) (f : File)
    (checked : check_request r s ≡ true) (creates : disk.creates ≡ true)
    (copies : disk.copies ≡ true) (source : read_file r.upload_file_path s.files ≡ some f) where
  abbrev path : String
  path = target_path r.warehouse_id r.version

  abbrev p : MapPackage
  p = package_of r f

  written : upload_map disk r s ≡ store_package p (record s { files = (path, f) ∷ s.files })
  unfolding upload_map
  written = ground (arith, checked, creates, copies, source)

  store_files : (s' : MapService) → (store_package p s').1.files ≡ s'.files
  unfolding store_package notify
  store_files s' = ground arith

  on_disk : read_file path (upload_map disk r s).1.files ≡ some f
  unfolding read_file
  on_disk =
      ap (λ (x : Bool × MapService). read_file path x.1.files) written
      ∙ ap (read_file path) (store_files (record s { files = (path, f) ∷ s.files }))
      ∙ rw (eq_refl path) refl

  -- An upload of a version that the warehouse has already: it fails, changes no table, and has
  -- written its file.
  pub upload_again_overwrites :
      s.db.saved ≡ quiet
      → any (package_clash (package_row p s.db.tables.next_package s.db.clock)) s.db.tables.packages
        ≡ true
      → ((upload_map disk r s).0 ≡ false)
        × ((upload_map disk r s).1.db.tables ≡ s.db.tables)
        × (read_file path (upload_map disk r s).1.files ≡ some f)
  unfolding store_package
  upload_again_overwrites closed taken =
      let refused = upload_again_refused p s.db closed taken in
      (ground (arith, written, refused.0), ground (arith, written, refused), on_disk)

found-any :
    (p : PackageRow → Bool) (rows : List PackageRow) (m : PackageRow)
    → find p rows ≡ some m
    → any p rows ≡ true
found-any p [] m h = absurd (ground (arith, h))
found-any p (x ∷ rows) m h = ground (arith, h, found-any p rows m)

-- An upload that has succeeded.
module _ (disk : DiskOutcome) (r : MapUploadRequest) (s : MapService) (f : File)
    (checked : check_request r s ≡ true) (creates : disk.creates ≡ true)
    (copies : disk.copies ≡ true) (source : read_file r.upload_file_path s.files ≡ some f)
    (closed : s.db.saved ≡ quiet) (good : (upload_map disk r s).0 ≡ true) where
  abbrev is_version : PackageRow → Bool
  is_version x = x.warehouse_id == r.warehouse_id && x.version == r.version

  abbrev first_row : PackageRow
  first_row = package_row (package_of r f) s.db.tables.next_package s.db.clock

  stored :
      ((upload_map_package (package_of r f) s.db).0 ≡ true)
      × ((upload_map disk r s).1.db ≡ (upload_map_package (package_of r f) s.db).1)
  unfolding store_package notify
  stored = ground (arith, good, written disk r s f checked creates copies source)

  uploaded :
      upload_tables (package_of r f) s.db.clock s.db.tables
      ≡ some (upload_map_package (package_of r f) s.db).1.tables
  unfolding upload_map_package
  uploaded = (upload-Atomic (package_of r f) s.db.clock).committed s.db closed stored.0

  first-closed : (upload_map disk r s).1.db.saved ≡ quiet
  unfolding upload_map_package
  first-closed =
      ap (λ c. c.saved) stored.1 ∙ (upload-Atomic (package_of r f) s.db.clock).closed s.db closed

  first_found :
      find
        (λ x. x.warehouse_id == r.warehouse_id && x.version == r.version)
        (upload_map disk r s).1.db.tables.packages
      ≡ some first_row
  unfolding package_clash package_row package_of
  first_found =
      let t' = (upload_map_package (package_of r f) s.db).1.tables in
      let (u, inserted, last) =
        upload_tables-inv (package_of r f) s.db.clock s.db.tables t' uploaded in
      let (rows, free) = insert_package-inv (package_of r f) s.db.clock s.db.tables u inserted in
      let same : t'.packages ≡ u.packages = ap (λ t. t.packages) last ∙ ground arith in
      ap (λ c. find is_version c.tables.packages) stored.1
      ∙ ap (find is_version) (same ∙ ap (λ t. t.packages) rows)
      ∙ find-append_none is_version s.db.tables.packages first_row free
          (ground (arith, eq_refl r.warehouse_id, eq_refl r.version))

-- Two uploads of one version, the first of which succeeded, on a quiet connection, where
-- no transaction is open and no BEGIN, COMMIT or ROLLBACK fails, whichever calls of prepare and step
-- fail in the second: the second reports failure
-- and changes no table, and yet the file at the path in the row of the version is by then that of
-- the second upload, while the row has the size of the first file.
pub second_upload_overwrites :
    (disk : DiskOutcome) (r₁ r₂ : MapUploadRequest) (s : MapService) (f₁ f₂ : File)
    → disk.creates ≡ true
    → disk.copies ≡ true
    → s.db.saved ≡ quiet
    → check_request r₁ s ≡ true
    → read_file r₁.upload_file_path s.files ≡ some f₁
    → (upload_map disk r₁ s).0 ≡ true
    → check_request r₂ (upload_map disk r₁ s).1 ≡ true
    → read_file r₂.upload_file_path (upload_map disk r₁ s).1.files ≡ some f₂
    → r₂.warehouse_id ≡ r₁.warehouse_id
    → r₂.version ≡ r₁.version
    → let s₁ = (upload_map disk r₁ s).1 in
      let (good, s₂) = upload_map disk r₂ s₁ in
      (m : PackageRow) × (find
          (λ x. x.warehouse_id == r₁.warehouse_id && x.version == r₁.version)
          s₂.db.tables.packages
        ≡ some m)
      × (m.package_size ≡ f₁.file_size)
      × (good ≡ false)
      × (s₂.db.tables ≡ s₁.db.tables)
      × (read_file m.package_path s₂.files ≡ some f₂)
unfolding package_row package_of package_clash
second_upload_overwrites disk r₁ r₂ s f₁ f₂ creates copies closed checked₁ source₁ good checked₂
      source₂ same_house same_version =
    let s₁ = (upload_map disk r₁ s).1 in
    let found = first_found disk r₁ s f₁ checked₁ creates copies source₁ closed good in
    let taken =
      subst
        (λ w.
          any (λ x. x.warehouse_id == w && x.version == r₂.version) s₁.db.tables.packages ≡ true)
        (sym same_house)
        (subst
          (λ v.
            any (λ x. x.warehouse_id == r₁.warehouse_id && x.version == v) s₁.db.tables.packages
            ≡ true)
          (sym same_version) (found-any _ s₁.db.tables.packages _ found)) in
    let (failed, same, disk_file) =
      upload_again_overwrites disk r₂ s₁ f₂ checked₂ creates copies source₂
        (first-closed disk r₁ s f₁ checked₁ creates copies source₁ closed good) taken in
    (
      first_row disk r₁ s f₁ checked₁ creates copies source₁ closed good,
      ap (λ t. find (λ x. x.warehouse_id == r₁.warehouse_id && x.version == r₁.version) t.packages)
            same
          ∙ found,
      refl,
      failed,
      same,
      ap (λ w. read_file (target_path w r₁.version) (upload_map disk r₂ s₁).1.files)
            (sym same_house)
          ∙ ap (λ v. read_file (target_path r₂.warehouse_id v) (upload_map disk r₂ s₁).1.files)
              (sym same_version)
          ∙ disk_file,
    )
