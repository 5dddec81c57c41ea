-- ===== src/Edge/MapStore/Active.antt =====
-- UploadMapPackage as a transaction, and the relation of tbl_active_map to tbl_map_package
-- (edge_server/src/database/sqlite_db.cpp).
use amr_warehouse_collaborat.Edge.Sql.{quiet}
use amr_warehouse_collaborat.Prelude.{
  ℕ, suc, ◌<◌, ◌≡◌, refl, sym, ◌∙◌, subst, String, ◌==◌, eq_iff, eq_refl, eqb, Bool, true, false,
  ◌&&◌, Option, some, List, [], ◌∷◌, ◌++◌, any, any-append, find, All, All-append, All-map, arith,
  Bool-cases, inl, inr, if◌then◌else◌,
}
use amr_warehouse_collaborat.Edge.Types.{MapPackage}
use amr_warehouse_collaborat.Edge.Rows.{insert_row, upsert_row}
use amr_warehouse_collaborat.Edge.Schema.{
  Tables, PackageRow, ActiveMapRow, package_clash, active_map_clash,
}
use amr_warehouse_collaborat.Edge.Sql.{Connection, done}
use amr_warehouse_collaborat.Edge.Sql.Keeps.{Atomic-IsSafe}
use amr_warehouse_collaborat.Edge.Sql.Transactions.{
  Atomic, Implements, if-Implements, run-Implements, and_then-Implements, transaction-Atomic,
  when_open-Atomic, ◌then_do◌,
}
use amr_warehouse_collaborat.Edge.MapStore.{
  package_row, upload_map_package, insert_package, active_row, merge_active, set_active,
  upload_body, upload_at, upload_tables,
}

reading-Implements :
    {X : Type 0} (f : Tables → X) (p : X → Tables → Option Tables)
    (m : X → Connection Tables → Bool × Connection Tables)
    → ((x : X) → Implements (p x) (m x))
    → Implements (λ t. p (f t) t) (λ c. m (f c.tables) c)
reading-Implements f p m im = record {
  bracket = λ c. (im (f c.tables)).bracket c;
  opened = λ c. (im (f c.tables)).opened c;
  sound = λ c h. (im (f c.tables)).sound c h;
  reliable = λ c e. (im (f c.tables)).reliable c e;
  complete = λ c e h. (im (f c.tables)).complete c e h;
}

abbrev upload_pure : MapPackage → String → ℕ → Tables → Option Tables
upload_pure p now id t =
    if p.activate
    then (done (insert_package p now) then_do done (set_active p.warehouse_id id p.version now)) t
    else done (insert_package p now) t

upload_body-Implements :
    (p : MapPackage) (now : String) (id : ℕ)
    → Implements (upload_pure p now id) (upload_body p now id)
unfolding upload_body
upload_body-Implements p now id =
    if-Implements p.activate _ _ _ _
      (and_then-Implements _ _ _ _ (run-Implements _) (run-Implements _)) (run-Implements _)

-- UploadMapPackage under any schedule of failing calls either inserts the package and, if it asks
-- for that, makes it the active map of its warehouse, and reports success; or changes no table and
-- reports failure.
pub upload-Atomic : (p : MapPackage) (now : String) → Atomic (upload_tables p now) (upload_at p now)
unfolding upload_at
upload-Atomic p now = when_open-Atomic _ _ (
    transaction-Atomic _ _ (
      reading-Implements (λ t. t.next_package) (upload_pure p now) (upload_body p now)
        (upload_body-Implements p now)))

abbrev pub is_named_by : ActiveMapRow → PackageRow → Bool
is_named_by a m =
    eqb m.id a.package_id && m.warehouse_id == a.warehouse_id && m.version == a.version

-- The ids of packages are below the counter, and each active map names a stored package of its
-- warehouse and version.
pub record IsRegistered (t : Tables) : Type 0 where
  pub fresh : All (λ m. m.id < t.next_package) t.packages
  pub active : All (λ a. any (is_named_by a) t.packages ≡ true) t.active_maps

pub insert_package-inv :
    (p : MapPackage) (now : String) (t t' : Tables)
    → done (insert_package p now) t ≡ some t'
    → (t' ≡ record t {
      packages = t.packages ++ package_row p t.next_package now ∷ [];
      next_package = suc t.next_package;
    })
      × (any (package_clash (package_row p t.next_package now)) t.packages ≡ false)
unfolding done insert_package insert_row
insert_package-inv p now t t' h = ground arith

abbrev pub activated : String → ℕ → String → String → Tables → Tables
activated warehouse_id id version now t = record t {
  active_maps =
      upsert_row active_map_clash merge_active (active_row warehouse_id id version now)
        t.active_maps;
}

pub upload_tables-inv :
    (p : MapPackage) (now : String) (t t' : Tables)
    → upload_tables p now t ≡ some t'
    → (u : Tables) × (done (insert_package p now) t ≡ some u)
      × (t' ≡ (if p.activate then activated p.warehouse_id t.next_package p.version now u else u))
unfolding done set_active
upload_tables-inv p now t t' h = ground arith

older : (n : ℕ) (rows : List PackageRow) → All (λ m. m.id < n) rows → All (λ m. m.id < suc n) rows
older n rows = All-map _ _ (λ m h. omega arith) rows

still_named :
    (m : PackageRow) (rows : List PackageRow) (maps : List ActiveMapRow)
    → All (λ a. any (is_named_by a) rows ≡ true) maps
    → All (λ a. any (is_named_by a) (rows ++ m ∷ []) ≡ true) maps
still_named m rows maps =
    All-map _ _ (λ a h. ground (arith, any-append (is_named_by a) rows (m ∷ []))) maps

same_warehouse :
    (warehouse_id : String) (id : ℕ) (version now : String) (a : ActiveMapRow)
    → active_map_clash (active_row warehouse_id id version now) a ≡ true
    → a.warehouse_id ≡ warehouse_id
unfolding active_map_clash active_row
same_warehouse warehouse_id id version now a e = (eq_iff a.warehouse_id warehouse_id).0 e

upserted :
    (P : ActiveMapRow → Type 0) (warehouse_id : String) (id : ℕ) (version now : String)
    (maps : List ActiveMapRow)
    → ((a : ActiveMapRow)
        → a.warehouse_id ≡ warehouse_id
        → a.package_id ≡ id
        → a.version ≡ version
        → P a)
    → All P maps
    → All P (upsert_row active_map_clash merge_active (active_row warehouse_id id version now) maps)
unfolding upsert_row active_row merge_active
upserted P warehouse_id id version now [] f h = (f _ refl refl refl, tt)
upserted P warehouse_id id version now (a ∷ maps) f h =
    elim (Bool-cases (active_map_clash (active_row warehouse_id id version now) a)) [
      | inl e ↦ rw e (f _ (same_warehouse warehouse_id id version now a e) refl refl, h.1)
      | inr e ↦ rw e (h.0, upserted P warehouse_id id version now maps f h.1)
    ]

-- What the map of a warehouse is after it was set.
pub find-upserted :
    (warehouse_id : String) (id : ℕ) (version now : String) (maps : List ActiveMapRow)
    → (a : ActiveMapRow) × (find
          (λ x. x.warehouse_id == warehouse_id)
          (upsert_row active_map_clash merge_active (active_row warehouse_id id version now) maps)
        ≡ some a)
      × (a.package_id ≡ id)
unfolding upsert_row active_row merge_active active_map_clash
find-upserted warehouse_id id version now [] =
    (active_row warehouse_id id version now, rw (eq_refl warehouse_id) refl, refl)
find-upserted warehouse_id id version now (a ∷ maps) =
    elim (Bool-cases (a.warehouse_id == warehouse_id)) [
      | inl e ↦ (merge_active a (active_row warehouse_id id version now), rw e (rw e refl), refl)
      | inr e ↦
          let (b, found, same) = find-upserted warehouse_id id version now maps in
          (b, rw e (rw e found), same)
    ]

set_active-IsRegistered :
    (warehouse_id : String) (id : ℕ) (version now : String) (t : Tables)
    → IsRegistered t
    → any (λ m. eqb m.id id && m.warehouse_id == warehouse_id && m.version == version) t.packages
      ≡ true
    → IsRegistered (activated warehouse_id id version now t)
set_active-IsRegistered warehouse_id id version now t g h = record {
  fresh = g.fresh;
  active =
      upserted (λ a. any (is_named_by a) t.packages ≡ true) warehouse_id id version now
        t.active_maps (λ a e f k. rw (e, f, k) h) g.active;
}

insert_package-IsRegistered :
    (p : MapPackage) (now : String) (t u : Tables)
    → IsRegistered t
    → done (insert_package p now) t ≡ some u
    → IsRegistered u
      × (any
            (λ m.
              eqb m.id t.next_package && m.warehouse_id == p.warehouse_id && m.version == p.version)
            u.packages
          ≡ true)
unfolding package_row
insert_package-IsRegistered p now t u g h =
    let m = package_row p t.next_package now in
    let (e, free) = insert_package-inv p now t u h in
    rw e (
      record {
        fresh =
            All-append (λ x. x.id < suc t.next_package) t.packages (m ∷ [])
              (older t.next_package t.packages g.fresh) (omega arith, tt);
        active = still_named m t.packages t.active_maps g.active;
      },
      ground (
        arith,
        eq_refl p.warehouse_id,
        eq_refl p.version,
        any-append
            (λ x.
              eqb x.id t.next_package && x.warehouse_id == p.warehouse_id && x.version == p.version)
            t.packages (m ∷ []),
      ),
    )

upload_tables-IsRegistered :
    (p : MapPackage) (now : String) (t t' : Tables)
    → IsRegistered t
    → upload_tables p now t ≡ some t'
    → IsRegistered t'
upload_tables-IsRegistered p now t t' g h =
    let (u, inserted, last) = upload_tables-inv p now t t' h in
    let (registered, named) = insert_package-IsRegistered p now t u g inserted in
    elim (Bool-cases p.activate) [
      | inl e ↦
          subst IsRegistered (sym (last ∙ rw e refl))
            (set_active-IsRegistered p.warehouse_id t.next_package p.version now u registered named)
      | inr e ↦ subst IsRegistered (sym (last ∙ rw e refl)) registered
    ]

-- UploadMapPackage on a quiet connection, where no transaction is open and no BEGIN, COMMIT or
-- ROLLBACK fails, keeps the registry, whether it succeeds
-- or fails and whichever calls of prepare and step fail: ids stay below the counter, and every
-- active map names a stored package with its warehouse and version.
pub upload_map_package-IsRegistered :
    (p : MapPackage) (c : Connection Tables)
    → c.saved ≡ quiet
    → IsRegistered c.tables
    → IsRegistered (upload_map_package p c).1.tables
unfolding upload_map_package
upload_map_package-IsRegistered p c closed registered =
    (Atomic-IsSafe IsRegistered _ _ (upload-Atomic p c.clock)
      (λ t t' v h. upload_tables-IsRegistered p c.clock t t' v h) c
      (record { closed = closed; holds = registered })).holds
