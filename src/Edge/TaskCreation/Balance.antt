-- ===== src/Edge/TaskCreation/Balance.antt =====
-- CreateTask as a transaction, and the balance of quantities and allocations
-- (edge_server/src/database/sqlite_db.cpp).
use amr_warehouse_collaborat.Prelude.{
  pos, ◌+ℤ◌, ◌≡◌, refl, sym, String, true, false, some, List, [], ◌∷◌, ◌++◌, any, All, All-append,
  arith, Option-cases, inl, inr, eq_iff, any-append,
}
use amr_warehouse_collaborat.Edge.Types.{TaskGoods, TransportTask}
use amr_warehouse_collaborat.Edge.Rows.{insert_row}
use amr_warehouse_collaborat.Edge.Rows.Laws.{Unique-append}
use amr_warehouse_collaborat.Edge.Rows.Sums.{sum_rows}
use amr_warehouse_collaborat.Edge.Schema.{
  Tables, StatusRow, AllocationRow, status_check, status_clash,
}
use amr_warehouse_collaborat.Edge.Sql.{done}
use amr_warehouse_collaborat.Edge.Sql.Transactions.{
  Atomic, Implements, run-Implements, and_then-Implements, transaction-Atomic, when_open-Atomic,
}
use amr_warehouse_collaborat.Edge.Allocations.{is_status_of}
use amr_warehouse_collaborat.Edge.Allocations.Balance.{
  amount_of, total_of, Tallies, IsBalanced, status_clash_symm,
}
use amr_warehouse_collaborat.Edge.TaskCreation.{
  insert_task, insert_goods, new_status, insert_status, insert_task_event, insert_goods_rows,
  create_task, goods_tables, create_tables,
}

-- What does not touch quantities or allocations.
abbrev pub SameLedger : Tables → Tables → Type 0
SameLedger t t' = (t'.statuses ≡ t.statuses) × (t'.allocations ≡ t.allocations)

pub SameLedger-IsBalanced : (t t' : Tables) → SameLedger t t' → IsBalanced t → IsBalanced t'
SameLedger-IsBalanced t t' (s, a) b = record {
  checked = rw s b.checked;
  keyed = rw s b.keyed;
  identified = rw a b.identified;
  tallied = rw (s, a) b.tallied;
  covered = rw (s, a) b.covered;
}

pub insert_goods-inv :
    (task_id : String) (g : TaskGoods) (t t' : Tables)
    → done (insert_goods task_id g) t ≡ some t'
    → SameLedger t t'
unfolding done insert_goods insert_row
insert_goods-inv task_id g t t' h = ground arith

pub insert_task-inv :
    (task : TransportTask) (t t' : Tables) → done (insert_task task) t ≡ some t' → SameLedger t t'
unfolding done insert_task insert_row
insert_task-inv task t t' h = ground arith

pub insert_task_event-inv :
    (task_id state reason source timestamp : String) (t t' : Tables)
    → done (insert_task_event task_id state reason source timestamp) t ≡ some t'
    → SameLedger t t' × (t'.tasks ≡ t.tasks)
unfolding done insert_task_event
insert_task_event-inv task_id state reason source timestamp t t' h = ground arith

pub insert_status-inv :
    (task_id now : String) (g : TaskGoods) (t t' : Tables)
    → done (insert_status task_id now g) t ≡ some t'
    → (t'.statuses ≡ t.statuses ++ new_status task_id now g ∷ [])
      × (t'.allocations ≡ t.allocations)
      × (status_check (new_status task_id now g) ≡ true)
      × (any (status_clash (new_status task_id now g)) t.statuses ≡ false)
unfolding done insert_status insert_row
insert_status-inv task_id now g t t' h = ground arith

module _ (task_id now : String) (g : TaskGoods) where
  abbrev fresh : StatusRow
  fresh = new_status task_id now g

  -- Nothing is allocated of goods that no row is for.
  unallocated :
      (rows : List StatusRow) (a : AllocationRow)
      → any (status_clash fresh) rows ≡ false
      → any (is_status_of a.task_id a.goods_id) rows ≡ true
      → is_status_of a.task_id a.goods_id fresh ≡ false
  unfolding status_clash is_status_of
  unallocated [] a h k = ground arith
  unallocated (r ∷ rows) a h k = ground (
    arith,
    unallocated rows a,
    eq_iff r.task_id fresh.task_id,
    eq_iff r.goods_id fresh.goods_id,
    eq_iff r.task_id a.task_id,
    eq_iff r.goods_id a.goods_id,
    eq_iff fresh.task_id a.task_id,
    eq_iff fresh.goods_id a.goods_id,
  )

  fresh_amount :
      (counted : String) (a : AllocationRow)
      → is_status_of a.task_id a.goods_id fresh ≡ false
      → amount_of counted fresh a ≡ pos 0
  unfolding amount_of
  fresh_amount counted a h = rw h refl

  fresh_total :
      (counted : String) (rows : List StatusRow) (allocs : List AllocationRow)
      → any (status_clash fresh) rows ≡ false
      → All (λ a. any (is_status_of a.task_id a.goods_id) rows ≡ true) allocs
      → total_of counted allocs fresh ≡ pos 0
  unfolding total_of sum_rows
  fresh_total counted rows [] h c = refl
  fresh_total counted rows (a ∷ allocs) h c =
      rw (fresh_amount counted a (unallocated rows a h c.0), fresh_total counted rows allocs h c.1)
        (unfold ◌+ℤ◌ in refl)

  still_covered :
      (rows : List StatusRow) (allocs : List AllocationRow)
      → All (λ a. any (is_status_of a.task_id a.goods_id) rows ≡ true) allocs
      → All (λ a. any (is_status_of a.task_id a.goods_id) (rows ++ fresh ∷ []) ≡ true) allocs
  still_covered rows [] c = tt
  still_covered rows (a ∷ allocs) c = (
    ground (arith, c.0, any-append (is_status_of a.task_id a.goods_id) rows (fresh ∷ [])),
    still_covered rows allocs c.1,
  )

  insert_status-IsBalanced :
      (t t' : Tables)
      → IsBalanced t
      → done (insert_status task_id now g) t ≡ some t'
      → IsBalanced t'
  insert_status-IsBalanced t t' b h =
      let (rows, allocs, ok, new) = insert_status-inv task_id now g t t' h in
      let tally : Tallies t.allocations fresh = (
        unfold new_status in sym (fresh_total "IN_PROGRESS" t.statuses t.allocations new b.covered),
        unfold new_status in sym (fresh_total "COMPLETED" t.statuses t.allocations new b.covered),
      ) in
      record {
        checked = rw rows (All-append _ t.statuses (fresh ∷ []) b.checked (ok, tt));
        keyed = rw rows (Unique-append status_clash fresh t.statuses status_clash_symm new b.keyed);
        identified = rw allocs b.identified;
        tallied =
            rw (rows, allocs)
              (All-append (Tallies t.allocations) t.statuses (fresh ∷ []) b.tallied (tally, tt));
        covered = rw (rows, allocs) (still_covered t.statuses t.allocations b.covered);
      }

goods_tables-IsBalanced :
    (task : TransportTask) (goods : List TaskGoods) (t t' : Tables)
    → IsBalanced t
    → goods_tables task goods t ≡ some t'
    → IsBalanced t'
unfolding goods_tables
goods_tables-IsBalanced task [] t t' b h =
    SameLedger-IsBalanced t t' (insert_task_event-inv _ _ _ _ _ t t' h).0 b
goods_tables-IsBalanced task (g ∷ rest) t t' b h =
    elim (Option-cases (done (insert_goods task.task_id g) t)) [
      | inl e ↦ absurd (ground arith)
      | inr (u, e) ↦ elim (Option-cases (done (insert_status task.task_id task.updated_at g) u)) [
        | inl m ↦ absurd (ground arith)
        | inr (v, m) ↦
            goods_tables-IsBalanced task rest v t'
              (insert_status-IsBalanced task.task_id task.updated_at g u v
                (SameLedger-IsBalanced t u (insert_goods-inv task.task_id g t u e) b) m)
              (ground arith)
      ]
    ]

-- CreateTask keeps the balance: the rows of a new task start with nothing in progress or completed,
-- and no allocation is for them yet.
pub create-IsBalanced :
    (task : TransportTask) (t t' : Tables)
    → IsBalanced t
    → create_tables task t ≡ some t'
    → IsBalanced t'
create-IsBalanced task t t' b h = elim (Option-cases (done (insert_task task) t)) [
  | inl e ↦ absurd (ground arith)
  | inr (u, e) ↦
      goods_tables-IsBalanced task task.goods u t'
        (SameLedger-IsBalanced t u (insert_task-inv task t u e) b) (ground arith)
]

goods_rows-Implements :
    (task : TransportTask) (goods : List TaskGoods)
    → Implements (goods_tables task goods) (insert_goods_rows task goods)
unfolding goods_tables insert_goods_rows
goods_rows-Implements task [] = run-Implements _
goods_rows-Implements task (g ∷ rest) =
    and_then-Implements _ _ _ _ (run-Implements _)
      (and_then-Implements _ _ _ _ (run-Implements _) (goods_rows-Implements task rest))

-- CreateTask of any task, on a quiet connection, where no transaction is open and no BEGIN, COMMIT or
-- ROLLBACK fails, and under any schedule of failing calls of prepare and step: it either inserts
-- the task, both rows of each of its goods and the first event, and reports success, or changes no
-- table and reports failure, and leaves the connection quiet. With the database open and no failing
-- call it fails only when one of these statements is refused.
pub create-Atomic : (task : TransportTask) → Atomic (create_tables task) (create_task task)
unfolding create_task
create-Atomic task = when_open-Atomic _ _ (
    transaction-Atomic _ _
      (and_then-Implements _ _ _ _ (run-Implements _) (goods_rows-Implements task task.goods)))
