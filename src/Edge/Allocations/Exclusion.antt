-- ===== src/Edge/Allocations/Exclusion.antt =====
-- A second ApproveGoodsAllocation or SettleGoodsAllocation for a request of a robot
-- (edge_server/src/database/sqlite_db.cpp).
use amr_warehouse_collaborat.Edge.Sql.{quiet}
use amr_warehouse_collaborat.Prelude.{
  ℤ, ◌≡◌, ap, ◌∙◌, String, eq_refl, true, false, [], ◌∷◌, any, any-append, find, arith, Bool-cases,
  inl, inr,
}
use amr_warehouse_collaborat.Edge.Rows.Laws.{find-change_rows-none}
use amr_warehouse_collaborat.Edge.Schema.{Tables, AllocationRow, allocation_clash}
use amr_warehouse_collaborat.Edge.Sql.{Connection}
use amr_warehouse_collaborat.Edge.Allocations.{
  approve_goods_allocation, new_allocation, settle_goods_allocation, is_active, settle, settles_as,
}
use amr_warehouse_collaborat.Edge.Allocations.Atomicity.{approve-Atomic, settle-Atomic}
use amr_warehouse_collaborat.Edge.Allocations.Approval.{Approved, approve_tables-Approved}
use amr_warehouse_collaborat.Edge.Allocations.Settled.{settle_tables-Settled, not_in_progress}

module _ (request_id robot_id task goods task' goods' : String) (q q' : ℤ) (now now' : String) where
  second_clash :
      allocation_clash
        (new_allocation request_id task' goods' robot_id q' now')
        (new_allocation request_id task goods robot_id q now)
      ≡ true
  unfolding allocation_clash new_allocation
  second_clash = ground (arith, eq_refl request_id, eq_refl robot_id)

  pub not-Approved_twice :
      (t t' u u' : Tables)
      → Approved request_id task goods robot_id q now t t'
      → u.allocations ≡ t'.allocations
      → Approved request_id task' goods' robot_id q' now' u u'
      → ⊥
  not-Approved_twice t t' u u' first same second =
      let fresh = new_allocation request_id task goods robot_id q now in
      let clash = allocation_clash (new_allocation request_id task' goods' robot_id q' now') in
      ground (
        arith,
        second_clash,
        first.allocations,
        second.unused,
        same,
        ap (any clash) same,
        ap (any clash) first.allocations,
        any-append clash t.allocations (fresh ∷ []),
      )

  -- After ApproveGoodsAllocation has succeeded for a request of a robot, every later approval for
  -- the same request and robot fails while the allocations stay as they are, whatever its task,
  -- goods, quantity and time and whatever else the tables hold or which calls fail.
  pub approve_once :
      (c d : Connection Tables)
      → c.saved ≡ quiet
      → d.saved ≡ quiet
      → (approve_goods_allocation request_id task goods robot_id q now c).0 ≡ true
      → d.tables.allocations
        ≡ (approve_goods_allocation request_id task goods robot_id q now c).1.tables.allocations
      → (approve_goods_allocation request_id task' goods' robot_id q' now' d).0 ≡ false
  approve_once c d e f h same =
      let first =
        approve_tables-Approved request_id task goods robot_id q now c.tables _
          ((approve-Atomic request_id task goods robot_id q now).committed c e h) in
      elim (Bool-cases (approve_goods_allocation request_id task' goods' robot_id q' now' d).0) [
        | inr failed ↦ failed
        | inl done ↦ absurd (
            not-Approved_twice c.tables _ d.tables _ first same (
              approve_tables-Approved request_id task' goods' robot_id q' now' d.tables _
                ((approve-Atomic request_id task' goods' robot_id q' now').committed d f done)))
      ]

module _ (request_id robot_id state now : String) where
  settled_inactive :
      settles_as state ≡ true
      → (a : AllocationRow) → is_active request_id robot_id (settle state now a) ≡ false
  unfolding is_active settle
  settled_inactive f a = rw (not_in_progress request_id robot_id state now f) (ground arith)

  -- After SettleGoodsAllocation has succeeded for a request of a robot, every later settlement for
  -- them fails while the allocations stay as they are, in whatever state and at whatever time, and
  -- whatever else the tables hold or which calls fail: a quantity is given back once.
  pub settle_once :
      (state' now' : String) (c d : Connection Tables)
      → c.saved ≡ quiet
      → d.saved ≡ quiet
      → (settle_goods_allocation request_id robot_id state now c).0 ≡ true
      → d.tables.allocations
        ≡ (settle_goods_allocation request_id robot_id state now c).1.tables.allocations
      → (settle_goods_allocation request_id robot_id state' now' d).0 ≡ false
  settle_once state' now' c d e f h same =
      let (a, first) =
        settle_tables-Settled request_id robot_id state now c.tables _
          ((settle-Atomic request_id robot_id state now).committed c e h) in
      elim (Bool-cases (settle_goods_allocation request_id robot_id state' now' d).0) [
        | inr failed ↦ failed
        | inl done ↦
            let (b, second) =
              settle_tables-Settled request_id robot_id state' now' d.tables _
                ((settle-Atomic request_id robot_id state' now').committed d f done) in
            ground (
              arith,
              second.found,
              ap (find (is_active request_id robot_id)) (same ∙ first.allocations),
              find-change_rows-none (is_active request_id robot_id) (settle state now)
                  c.tables.allocations (settled_inactive first.final),
            )
      ]
