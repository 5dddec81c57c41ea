-- ===== src/Edge/Allocations/Settled.antt =====
-- The rows after a SettleGoodsAllocation that is done
-- (edge_server/src/database/sqlite_db.cpp).
use amr_warehouse_collaborat.Prelude.{
  ◌≡◌, String, ◌==◌, Bool, true, false, not, ◌||◌, some, List, [], ◌∷◌, all, find, arith,
  Bool-cases, Option-cases, inl, inr, eq_iff,
}
use amr_warehouse_collaborat.Edge.Rows.{change_rows, update_rows}
use amr_warehouse_collaborat.Edge.Schema.{Tables, AllocationRow, status_check, allocation_clash}
use amr_warehouse_collaborat.Edge.Sql.{changed}
use amr_warehouse_collaborat.Edge.Allocations.{
  is_status_of, is_active, settle, settle_statement, give_back, give_back_statement,
  active_allocation, settle_tables, settles_as,
}

module _ (request_id robot_id : String) where
  -- Two active allocations of one request and robot clash.
  pub one_active :
      (x y : AllocationRow)
      → is_active request_id robot_id x ≡ true
      → is_active request_id robot_id y ≡ true
      → allocation_clash y x ≡ true
  unfolding is_active allocation_clash
  one_active x y h k = ground (
    arith,
    eq_iff x.request_id request_id,
    eq_iff y.request_id request_id,
    eq_iff x.request_id y.request_id,
    eq_iff x.robot_id robot_id,
    eq_iff y.robot_id robot_id,
    eq_iff x.robot_id y.robot_id,
  )

  pub found_active :
      (a : AllocationRow) (rows : List AllocationRow)
      → find (is_active request_id robot_id) rows ≡ some a
      → a.state ≡ "IN_PROGRESS"
  unfolding is_active
  found_active a [] h = ground arith
  found_active a (x ∷ rows) h = ground (arith, eq_iff x.state "IN_PROGRESS", found_active a rows)

  module _ (state now : String) where
    abbrev hit : AllocationRow → Bool
    hit = is_active request_id robot_id

    -- The rows after a settlement that is done, for the allocation `a` that was found.
    pub record Settled (a : AllocationRow) (t t' : Tables) : Type 0 where
      pub found : find hit t.allocations ≡ some a
      pub allocations : t'.allocations ≡ change_rows hit (settle state now) t.allocations
      pub statuses :
          t'.statuses
          ≡ change_rows
              (is_status_of a.task_id a.goods_id)
              (give_back state a.quantity now)
              t.statuses
      pub within :
          all
            (λ r.
              not (is_status_of a.task_id a.goods_id r)
              || status_check (give_back state a.quantity now r))
            t.statuses
          ≡ true
      pub final : settles_as state ≡ true
      pub tasks : t'.tasks ≡ t.tasks

    settle-inv :
        (t t' : Tables)
        → changed (settle_statement request_id robot_id state now) t ≡ some t'
        → t' ≡ record t { allocations = change_rows hit (settle state now) t.allocations }
    unfolding changed settle_statement update_rows
    settle-inv t t' h = ground arith

    give_back-inv :
        (a : AllocationRow) (t t' : Tables)
        → changed (give_back_statement a.task_id a.goods_id state a.quantity now) t ≡ some t'
        → (t' ≡ record t {
          statuses =
              change_rows
                (is_status_of a.task_id a.goods_id)
                (give_back state a.quantity now)
                t.statuses;
        })
          × (all
                (λ r.
                  not (is_status_of a.task_id a.goods_id r)
                  || status_check (give_back state a.quantity now r))
                t.statuses
              ≡ true)
    unfolding changed give_back_statement update_rows
    give_back-inv a t t' h = ground arith

    pub settle_tables-Settled :
        (t t' : Tables)
        → settle_tables request_id robot_id state now t ≡ some t'
        → (a : AllocationRow) × Settled a t t'
    unfolding active_allocation
    settle_tables-Settled t t' h = elim (Bool-cases (settles_as state)) [
      | inr e ↦ absurd (ground arith)
      | inl e ↦ elim (Option-cases (find hit t.allocations)) [
        | inl n ↦ absurd (ground arith)
        | inr (a, n) ↦
            elim (Option-cases (changed (settle_statement request_id robot_id state now) t)) [
              | inl m ↦ absurd (ground arith)
              | inr (u, m) ↦ (a, ground (arith, settle-inv t u m, give_back-inv a u t'))
            ]
      ]
    ]

    pub not_in_progress : settles_as state ≡ true → (state == "IN_PROGRESS") ≡ false
    not_in_progress f = ground (
      arith,
      eq_iff state "COMPLETED",
      eq_iff state "ABORTED",
      eq_iff state "IN_PROGRESS",
      eq_iff "COMPLETED" "IN_PROGRESS",
      eq_iff "ABORTED" "IN_PROGRESS",
    )
