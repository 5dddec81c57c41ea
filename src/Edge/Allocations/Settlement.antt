-- ===== src/Edge/Allocations/Settlement.antt =====
-- SettleGoodsAllocation and the balance of quantities and allocations
-- (edge_server/src/database/sqlite_db.cpp).
use amr_warehouse_collaborat.Prelude.{
  ℤ, pos, ◌+ℤ◌, ◌-ℤ◌, +ℤ-zero, -ℤ_of_+ℤ, ◌≡◌, refl, String, ◌==◌, Bool, true, false, ◌&&◌, some,
  List, any, find, All, arith, if◌then◌else◌, eq_iff,
}
use amr_warehouse_collaborat.Edge.Rows.{change_rows}
use amr_warehouse_collaborat.Edge.Rows.Laws.{
  Unique, change_rows-All, change_rows-All_both, Unique-change_rows, checked-change_rows,
}
use amr_warehouse_collaborat.Edge.Rows.Sums.{sum_rows-change_rows}
use amr_warehouse_collaborat.Edge.Schema.{
  Tables, StatusRow, AllocationRow, status_check, allocation_clash,
}
use amr_warehouse_collaborat.Edge.Allocations.{
  is_status_of, is_active, settle, give_back, settle_tables, settles_as,
}
use amr_warehouse_collaborat.Edge.Allocations.Balance.{
  amount_of, total_of, Tallies, IsBalanced, keyed_change, covered_change, same_total,
}
use amr_warehouse_collaborat.Edge.Allocations.Settled.{
  one_active, found_active, settle_tables-Settled, not_in_progress,
}

module _ (request_id robot_id : String) where
  module _ (state now : String) where
    abbrev hit : AllocationRow → Bool
    hit = is_active request_id robot_id

    give_back_key :
        (quantity : ℤ) (r : StatusRow)
        → ((give_back state quantity now r).task_id ≡ r.task_id)
          × ((give_back state quantity now r).goods_id ≡ r.goods_id)
    unfolding give_back
    give_back_key quantity r = ground arith

    give_back_in_progress :
        (quantity : ℤ) (r : StatusRow)
        → (give_back state quantity now r).in_progress_quantity ≡ r.in_progress_quantity -ℤ quantity
    unfolding give_back
    give_back_in_progress quantity r = ground arith

    give_back_completed :
        (quantity : ℤ) (r : StatusRow)
        → (give_back state quantity now r).completed_quantity
          ≡ r.completed_quantity +ℤ (if state == "COMPLETED" then quantity else pos 0)
    unfolding give_back
    give_back_completed quantity r = ground (arith, +ℤ-zero r.completed_quantity)

    total_settle :
        (counted : String) (r : StatusRow) (rows : List AllocationRow) (a : AllocationRow)
        → Unique allocation_clash rows
        → find hit rows ≡ some a
        → total_of counted (change_rows hit (settle state now) rows) r +ℤ amount_of counted r a
          ≡ total_of counted rows r +ℤ amount_of counted r (settle state now a)
    unfolding total_of
    total_settle counted r rows a u f =
        sum_rows-change_rows allocation_clash hit (one_active request_id robot_id)
          (amount_of counted r) (settle state now) rows a u f

    module _ (a : AllocationRow) (active : a.state ≡ "IN_PROGRESS")
        (final : settles_as state ≡ true) (r : StatusRow) where
      abbrev mine : Bool
      mine = is_status_of a.task_id a.goods_id r

      before_in_progress : amount_of "IN_PROGRESS" r a ≡ (if mine then a.quantity else pos 0)
      unfolding amount_of
      before_in_progress = ground (arith, eq_iff a.state "IN_PROGRESS")

      before_completed : amount_of "COMPLETED" r a ≡ pos 0
      unfolding amount_of
      before_completed = rw active (ground arith)

      after_in_progress : amount_of "IN_PROGRESS" r (settle state now a) ≡ pos 0
      unfolding amount_of settle
      after_in_progress = rw (not_in_progress request_id robot_id state now final) (ground arith)

      after_completed :
          amount_of "COMPLETED" r (settle state now a)
          ≡ (if mine && state == "COMPLETED" then a.quantity else pos 0)
      unfolding amount_of settle
      after_completed = refl

      in_progress_tally :
          (allocs : List AllocationRow)
          → Unique allocation_clash allocs
          → find hit allocs ≡ some a
          → total_of "IN_PROGRESS" (change_rows hit (settle state now) allocs) r
              +ℤ (if mine then a.quantity else pos 0)
            ≡ total_of "IN_PROGRESS" allocs r
      in_progress_tally allocs u f = ground (
        arith,
        total_settle "IN_PROGRESS" r allocs a u f,
        before_in_progress,
        after_in_progress,
        +ℤ-zero (total_of "IN_PROGRESS" allocs r),
      )

      completed_tally :
          (allocs : List AllocationRow)
          → Unique allocation_clash allocs
          → find hit allocs ≡ some a
          → total_of "COMPLETED" (change_rows hit (settle state now) allocs) r
            ≡ total_of "COMPLETED" allocs r
              +ℤ (if mine && state == "COMPLETED" then a.quantity else pos 0)
      completed_tally allocs u f = ground (
        arith,
        total_settle "COMPLETED" r allocs a u f,
        before_completed,
        after_completed,
        +ℤ-zero (total_of "COMPLETED" (change_rows hit (settle state now) allocs) r),
      )

      -- The row of the allocation gives its quantity back; every other row is as it was.
      mine_tally :
          (allocs : List AllocationRow)
          → Unique allocation_clash allocs
          → find hit allocs ≡ some a
          → mine ≡ true
          → Tallies allocs r
          → Tallies (change_rows hit (settle state now) allocs) (give_back state a.quantity now r)
      mine_tally allocs u f m (p, q) = (
        ground (
          arith,
          give_back_in_progress a.quantity r,
          same_total (is_status_of a.task_id a.goods_id) (give_back state a.quantity now)
              (give_back_key a.quantity) "IN_PROGRESS" (change_rows hit (settle state now) allocs)
              r,
          in_progress_tally allocs u f,
          -ℤ_of_+ℤ (total_of "IN_PROGRESS" (change_rows hit (settle state now) allocs) r) a.quantity
              (total_of "IN_PROGRESS" allocs r),
        ),
        ground (
          arith,
          give_back_completed a.quantity r,
          same_total (is_status_of a.task_id a.goods_id) (give_back state a.quantity now)
              (give_back_key a.quantity) "COMPLETED" (change_rows hit (settle state now) allocs) r,
          completed_tally allocs u f,
        ),
      )

      other_tally :
          (allocs : List AllocationRow)
          → Unique allocation_clash allocs
          → find hit allocs ≡ some a
          → mine ≡ false
          → Tallies allocs r
          → Tallies (change_rows hit (settle state now) allocs) r
      other_tally allocs u f m (p, q) = (
        ground (
          arith,
          in_progress_tally allocs u f,
          +ℤ-zero (total_of "IN_PROGRESS" (change_rows hit (settle state now) allocs) r),
        ),
        ground (arith, completed_tally allocs u f, +ℤ-zero (total_of "COMPLETED" allocs r)),
      )

    settled_covered :
        (rows : List StatusRow) (allocs : List AllocationRow)
        → All (λ a. any (is_status_of a.task_id a.goods_id) rows ≡ true) allocs
        → All
            (λ a. any (is_status_of a.task_id a.goods_id) rows ≡ true)
            (change_rows hit (settle state now) allocs)
    unfolding settle
    settled_covered rows allocs =
        change_rows-All (λ a. any (is_status_of a.task_id a.goods_id) rows ≡ true) hit
          (settle state now) allocs (λ a e h. h)

    settled_identified :
        (allocs : List AllocationRow)
        → Unique allocation_clash allocs
        → Unique allocation_clash (change_rows hit (settle state now) allocs)
    unfolding settle allocation_clash
    settled_identified allocs =
        Unique-change_rows allocation_clash hit (settle state now) allocs (λ x y. refl)
          (λ x y. refl)

    -- SettleGoodsAllocation keeps the balance: when its two statements are done on tables whose
    -- quantities tally with the allocations, they tally afterwards, no CHECK is broken, and all
    -- keys are still unique.
    pub settle-IsBalanced :
        (t t' : Tables)
        → IsBalanced t
        → settle_tables request_id robot_id state now t ≡ some t'
        → IsBalanced t'
    settle-IsBalanced t t' b h =
        let (a, s) = settle_tables-Settled request_id robot_id state now t t' h in
        let active = found_active request_id robot_id a t.allocations s.found in
        let key = is_status_of a.task_id a.goods_id in
        let change = give_back state a.quantity now in
        let tallied =
          change_rows-All_both (Tallies t.allocations)
            (Tallies (change_rows hit (settle state now) t.allocations)) key change t.statuses
            (λ r m. mine_tally a active s.final r t.allocations b.identified s.found m)
            (λ r m. other_tally a active s.final r t.allocations b.identified s.found m)
            b.tallied in
        record {
          checked =
              rw s.statuses
                (checked-change_rows status_check key change t.statuses s.within b.checked);
          keyed =
              rw s.statuses (keyed_change key change (give_back_key a.quantity) t.statuses b.keyed);
          identified = rw s.allocations (settled_identified t.allocations b.identified);
          tallied = rw (s.statuses, s.allocations) tallied;
          covered =
              rw (s.statuses, s.allocations)
                (covered_change key change (give_back_key a.quantity) t.statuses _
                  (settled_covered t.statuses t.allocations b.covered));
        }
