-- ===== src/Edge/Allocations/Balance.antt =====
-- The relation between tbl_task_goods_status and tbl_task_goods_allocation
-- (edge_server/src/database/sqlite_db.cpp).
use amr_warehouse_collaborat.Prelude.{
  ℤ, pos, ◌+ℤ◌, ◌≡◌, ◌∙◌, String, ◌==◌, eq_iff, Bool, true, ◌&&◌, List, [], ◌∷◌, ◌++◌, any, All,
  arith, if◌then◌else◌,
}
use amr_warehouse_collaborat.Edge.Rows.{change_rows}
use amr_warehouse_collaborat.Edge.Rows.Laws.{Unique, Unique-change_rows, any-change_rows}
use amr_warehouse_collaborat.Edge.Rows.Sums.{sum_rows, sum_rows-append}
use amr_warehouse_collaborat.Edge.Schema.{
  Tables, StatusRow, AllocationRow, status_check, status_clash, allocation_clash,
}
use amr_warehouse_collaborat.Edge.Allocations.{is_status_of}

-- What an allocation adds to the quantities of one row of goods, counting one state only.
unfoldable pub amount_of : String → StatusRow → AllocationRow → ℤ
amount_of state r a =
    if is_status_of a.task_id a.goods_id r && a.state == state then a.quantity else pos 0

unfoldable pub total_of : String → List AllocationRow → StatusRow → ℤ
total_of state rows r = sum_rows (amount_of state r) rows

-- Both quantities of a row are the sums over the allocations for it.
abbrev pub Tallies : List AllocationRow → StatusRow → Type 0
Tallies rows r =
    (r.in_progress_quantity ≡ total_of "IN_PROGRESS" rows r)
    × (r.completed_quantity ≡ total_of "COMPLETED" rows r)

-- Every row is within its CHECK (so total = in progress + completed + pending, all of them ≥ 0);
-- keys are unique; the quantities tally with the allocations; each allocation is for goods that
-- have a row of quantities.
pub record IsBalanced (t : Tables) : Type 0 where
  pub checked : All (λ r. status_check r ≡ true) t.statuses
  pub keyed : Unique status_clash t.statuses
  pub identified : Unique allocation_clash t.allocations
  pub tallied : All (Tallies t.allocations) t.statuses
  pub covered : All (λ a. any (is_status_of a.task_id a.goods_id) t.statuses ≡ true) t.allocations

-- An UPDATE of tbl_task_goods_status keeps its keys and its CHECKs, and the rows that the
-- allocations refer to.
module _ (hit : StatusRow → Bool) (change : StatusRow → StatusRow)
    (same_key : (r : StatusRow)
      → ((change r).task_id ≡ r.task_id) × ((change r).goods_id ≡ r.goods_id)) where
  pub keyed_change :
      (rows : List StatusRow)
      → Unique status_clash rows
      → Unique status_clash (change_rows hit change rows)
  unfolding status_clash
  keyed_change rows u =
      Unique-change_rows status_clash hit change rows (λ x y. rw ((same_key y).0, (same_key y).1))
        (λ x y. rw ((same_key x).0, (same_key x).1)) u

  same_status :
      (task_id goods_id : String) (r : StatusRow)
      → is_status_of task_id goods_id (change r) ≡ is_status_of task_id goods_id r
  unfolding is_status_of
  same_status task_id goods_id r = λ i. (same_key r).0 i == task_id && (same_key r).1 i == goods_id

  pub covered_change :
      (rows : List StatusRow) (allocs : List AllocationRow)
      → All (λ a. any (is_status_of a.task_id a.goods_id) rows ≡ true) allocs
      → All
          (λ a. any (is_status_of a.task_id a.goods_id) (change_rows hit change rows) ≡ true)
          allocs
  covered_change rows [] h = tt
  covered_change rows (a ∷ allocs) h = (
    any-change_rows (is_status_of a.task_id a.goods_id) hit change rows
          (same_status a.task_id a.goods_id)
        ∙ h.0,
    covered_change rows allocs h.1,
  )

  pub same_total :
      (state : String) (allocs : List AllocationRow) (r : StatusRow)
      → total_of state allocs (change r) ≡ total_of state allocs r
  unfolding total_of amount_of
  same_total state allocs r = λ i.
      sum_rows
        (λ a.
          if same_status a.task_id a.goods_id r i && a.state == state then a.quantity else pos 0)
        allocs

-- Rows that name one task and one kind of goods clash.
pub one_status :
    (task_id goods_id : String) (x y : StatusRow)
    → is_status_of task_id goods_id x ≡ true
    → is_status_of task_id goods_id y ≡ true
    → status_clash y x ≡ true
unfolding is_status_of status_clash
one_status task_id goods_id x y h k = ground (
  arith,
  eq_iff x.task_id task_id,
  eq_iff y.task_id task_id,
  eq_iff x.task_id y.task_id,
  eq_iff x.goods_id goods_id,
  eq_iff y.goods_id goods_id,
  eq_iff x.goods_id y.goods_id,
)

pub allocation_clash_symm : (x y : AllocationRow) → allocation_clash y x ≡ allocation_clash x y
unfolding allocation_clash
allocation_clash_symm x y = ground (
  arith,
  eq_iff x.request_id y.request_id,
  eq_iff y.request_id x.request_id,
  eq_iff x.robot_id y.robot_id,
  eq_iff y.robot_id x.robot_id,
)

pub total_of-append :
    (state : String) (allocs : List AllocationRow) (a : AllocationRow) (r : StatusRow)
    → total_of state (allocs ++ a ∷ []) r ≡ total_of state allocs r +ℤ amount_of state r a
unfolding total_of
total_of-append state allocs a r = sum_rows-append (amount_of state r) allocs a

pub status_clash_symm : (x y : StatusRow) → status_clash y x ≡ status_clash x y
unfolding status_clash
status_clash_symm x y = ground (
  arith,
  eq_iff x.task_id y.task_id,
  eq_iff y.task_id x.task_id,
  eq_iff x.goods_id y.goods_id,
  eq_iff y.goods_id x.goods_id,
)
