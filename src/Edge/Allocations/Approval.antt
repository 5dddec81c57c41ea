-- ===== src/Edge/Allocations/Approval.antt =====
-- ApproveGoodsAllocation and the balance of quantities and allocations
-- (edge_server/src/database/sqlite_db.cpp).
use amr_warehouse_collaborat.Prelude.{
  ◌<◌, ℤ, pos, leb_ℤ, +ℤ-zero, ◌≡◌, refl, String, Bool, true, false, not, ◌&&◌, ◌||◌, some, List,
  [], ◌∷◌, ◌++◌, any, all, All, All-append, All-zip, arith, Option-cases, inl, inr, if◌then◌else◌,
}
use amr_warehouse_collaborat.Edge.Rows.{insert_row, change_rows, count_rows, update_rows}
use amr_warehouse_collaborat.Edge.Rows.Laws.{
  Unique, change_rows-All_both, Unique-append, checked-change_rows, key_is_hit,
}
use amr_warehouse_collaborat.Edge.Schema.{
  Tables, StatusRow, AllocationRow, status_check, status_clash, allocation_check, allocation_clash,
}
use amr_warehouse_collaborat.Edge.Sql.{done, changed}
use amr_warehouse_collaborat.Edge.Allocations.{
  is_status_of, reserve, reserve_statement, new_allocation, allocate_statement, approve_tables,
}
use amr_warehouse_collaborat.Edge.Allocations.Balance.{
  amount_of, total_of, Tallies, IsBalanced, keyed_change, covered_change, same_total, one_status,
  allocation_clash_symm, total_of-append,
}

module _ (request_id task_id goods_id robot_id : String) (quantity : ℤ) (now : String) where
  abbrev hit : StatusRow → Bool
  hit r = is_status_of task_id goods_id r && leb_ℤ quantity r.pending_quantity

  abbrev fresh : AllocationRow
  fresh = new_allocation request_id task_id goods_id robot_id quantity now

  reserve_key :
      (r : StatusRow)
      → ((reserve quantity now r).task_id ≡ r.task_id)
        × ((reserve quantity now r).goods_id ≡ r.goods_id)
  unfolding reserve
  reserve_key r = (refl, refl)

  -- The rows after an approval that is done.
  pub record Approved (t t' : Tables) : Type 0 where
    pub statuses : t'.statuses ≡ change_rows hit (reserve quantity now) t.statuses
    pub some_hit : 0 < count_rows hit t.statuses
    pub within : all (λ r. not (hit r) || status_check (reserve quantity now r)) t.statuses ≡ true
    pub allocations : t'.allocations ≡ t.allocations ++ fresh ∷ []
    pub positive : allocation_check fresh ≡ true
    pub unused : any (allocation_clash fresh) t.allocations ≡ false
    pub tasks : t'.tasks ≡ t.tasks

  reserve-inv :
      (t t' : Tables)
      → changed (reserve_statement task_id goods_id quantity now) t ≡ some t'
      → (t' ≡ record t { statuses = change_rows hit (reserve quantity now) t.statuses })
        × (0 < count_rows hit t.statuses)
        × (all (λ r. not (hit r) || status_check (reserve quantity now r)) t.statuses ≡ true)
  unfolding changed reserve_statement update_rows
  reserve-inv t t' h = ground arith

  allocate-inv :
      (t t' : Tables)
      → done (allocate_statement fresh) t ≡ some t'
      → (t' ≡ record t { allocations = t.allocations ++ fresh ∷ [] })
        × (allocation_check fresh ≡ true)
        × (any (allocation_clash fresh) t.allocations ≡ false)
  unfolding done allocate_statement insert_row
  allocate-inv t t' h = ground arith

  pub approve_tables-Approved :
      (t t' : Tables)
      → approve_tables request_id task_id goods_id robot_id quantity now t ≡ some t'
      → Approved t t'
  approve_tables-Approved t t' h =
      elim (Option-cases (changed (reserve_statement task_id goods_id quantity now) t)) [
        | inl e ↦ absurd (ground arith)
        | inr (u, e) ↦ ground (arith, reserve-inv t u e, allocate-inv u t')
      ]

  amount_in_progress :
      (r : StatusRow)
      → amount_of "IN_PROGRESS" r fresh
        ≡ (if is_status_of task_id goods_id r then quantity else pos 0)
  unfolding amount_of new_allocation
  amount_in_progress r = ground arith

  amount_completed : (r : StatusRow) → amount_of "COMPLETED" r fresh ≡ pos 0
  unfolding amount_of new_allocation
  amount_completed r = ground arith

  -- A row that is reserved from, and one that the new allocation is not for.
  reserved_tally :
      (allocs : List AllocationRow) (r : StatusRow)
      → hit r ≡ true
      → Tallies allocs r
      → Tallies (allocs ++ fresh ∷ []) (reserve quantity now r)
  unfolding reserve
  reserved_tally allocs r h (p, q) = (
    ground (
      arith,
      amount_in_progress r,
      total_of-append "IN_PROGRESS" allocs fresh r,
      same_total hit (reserve quantity now) reserve_key "IN_PROGRESS" (allocs ++ fresh ∷ []) r,
    ),
    ground (
      arith,
      amount_completed r,
      total_of-append "COMPLETED" allocs fresh r,
      same_total hit (reserve quantity now) reserve_key "COMPLETED" (allocs ++ fresh ∷ []) r,
      +ℤ-zero (total_of "COMPLETED" allocs r),
    ),
  )

  other_tally :
      (allocs : List AllocationRow) (r : StatusRow)
      → is_status_of task_id goods_id r ≡ false
      → Tallies allocs r
      → Tallies (allocs ++ fresh ∷ []) r
  other_tally allocs r h (p, q) = (
    ground (
      arith,
      amount_in_progress r,
      total_of-append "IN_PROGRESS" allocs fresh r,
      +ℤ-zero (total_of "IN_PROGRESS" allocs r),
    ),
    ground (
      arith,
      amount_completed r,
      total_of-append "COMPLETED" allocs fresh r,
      +ℤ-zero (total_of "COMPLETED" allocs r),
    ),
  )

  tallied_approval :
      (allocs : List AllocationRow) (rows : List StatusRow)
      → Unique status_clash rows
      → 0 < count_rows hit rows
      → All (Tallies allocs) rows
      → All (Tallies (allocs ++ fresh ∷ [])) (change_rows hit (reserve quantity now) rows)
  tallied_approval allocs rows u n h =
      change_rows-All_both
        (λ r. (is_status_of task_id goods_id r ≡ true → hit r ≡ true) × Tallies allocs r)
        (Tallies (allocs ++ fresh ∷ [])) hit (reserve quantity now) rows
        (λ r e k. reserved_tally allocs r e k.1)
        (λ r e k. other_tally allocs r (miss r (k.0) e) k.1)
        (All-zip _ (Tallies allocs) rows
          (key_is_hit status_clash (is_status_of task_id goods_id) hit (one_status task_id goods_id)
            (λ x e. ground arith) rows u n)
          h)
    where
      miss :
          (r : StatusRow)
          → (is_status_of task_id goods_id r ≡ true → hit r ≡ true)
          → hit r ≡ false
          → is_status_of task_id goods_id r ≡ false
      miss r k e = ground arith

  any_of_count :
      (rows : List StatusRow)
      → 0 < count_rows hit rows
      → any (is_status_of task_id goods_id) rows ≡ true
  unfolding count_rows
  any_of_count [] h = elim h [ ]
  any_of_count (r ∷ rows) h = ground (arith, any_of_count rows)

  -- ApproveGoodsAllocation keeps the balance: when its two statements are done on tables whose
  -- quantities tally with the allocations, they tally afterwards, no CHECK is broken, and all keys
  -- are still unique.
  pub approve-IsBalanced :
      (t t' : Tables)
      → IsBalanced t
      → approve_tables request_id task_id goods_id robot_id quantity now t ≡ some t'
      → IsBalanced t'
  approve-IsBalanced t t' b h = record {
    checked =
        rw a.statuses (
          checked-change_rows status_check hit (reserve quantity now) t.statuses a.within
            b.checked);
    keyed = rw a.statuses (keyed_change hit (reserve quantity now) reserve_key t.statuses b.keyed);
    identified = rw a.allocations (
        Unique-append allocation_clash fresh t.allocations allocation_clash_symm a.unused
          b.identified);
    tallied =
        rw (a.statuses, a.allocations)
          (tallied_approval t.allocations t.statuses b.keyed a.some_hit b.tallied);
    covered =
        rw (a.statuses, a.allocations)
          (covered_change hit (reserve quantity now) reserve_key t.statuses
            (t.allocations ++ fresh ∷ [])
            (All-append _ t.allocations (fresh ∷ []) b.covered
              (unfold new_allocation in any_of_count t.statuses a.some_hit, tt)));
  }
    where
      a : Approved t t'
      a = approve_tables-Approved t t' h
