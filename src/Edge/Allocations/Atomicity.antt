-- ===== src/Edge/Allocations/Atomicity.antt =====
-- ApproveGoodsAllocation and SettleGoodsAllocation as transactions
-- (edge_server/src/database/sqlite_db.cpp).
use amr_warehouse_collaborat.Prelude.{
  refl, ℤ, String, Bool, true, false, Option, none, some, ◌≡◌, [], ◌∷◌, arith, if◌then◌else◌,
}
use amr_warehouse_collaborat.Edge.Schema.{Tables, AllocationRow}
use amr_warehouse_collaborat.Edge.Sql.{
  Connection, done, changed, run, ◌and_then◌, when_open, rollback, no_transaction, in_transaction,
}
use amr_warehouse_collaborat.Edge.Sql.Transactions.{
  Implements, transaction_uncommitted, Atomic, run-Implements, and_then-Implements,
  transaction-Atomic, when_open-Atomic, select_then-Atomic,
}
use amr_warehouse_collaborat.Edge.Allocations.{
  approve_goods_allocation, approve_tables, reserve_statement, allocate_statement, new_allocation,
  settle_goods_allocation, settle_tables, settle_selected, settle_statement, give_back_statement,
  active_allocation, settles_as,
}

abbrev approve_body :
    String → String → String → String → ℤ → String → Connection Tables → Bool × Connection Tables
approve_body request_id task_id goods_id robot_id quantity now =
    run (changed (reserve_statement task_id goods_id quantity now))
    and_then run (
        done
          (allocate_statement (new_allocation request_id task_id goods_id robot_id quantity now)))

approve-Implements :
    (request_id task_id goods_id robot_id : String) (quantity : ℤ) (now : String)
    → Implements
        (approve_tables request_id task_id goods_id robot_id quantity now)
        (approve_body request_id task_id goods_id robot_id quantity now)
approve-Implements request_id task_id goods_id robot_id quantity now =
    and_then-Implements _ _ _ _
      (run-Implements (changed (reserve_statement task_id goods_id quantity now)))
      (run-Implements (
        done
          (allocate_statement (new_allocation request_id task_id goods_id robot_id quantity now))))

-- ApproveGoodsAllocation with any arguments, on a quiet connection, where no transaction is open and
-- no BEGIN, COMMIT or ROLLBACK fails, and under any schedule of failing calls of prepare and step:
-- it either does both its UPDATE and its INSERT and reports success, or changes no table and reports
-- failure, and leaves the connection quiet. With the database open and no failing call it fails only
-- when one of the two statements is refused or matches no row.
pub approve-Atomic :
    (request_id task_id goods_id robot_id : String) (quantity : ℤ) (now : String)
    → Atomic
        (approve_tables request_id task_id goods_id robot_id quantity now)
        (approve_goods_allocation request_id task_id goods_id robot_id quantity now)
unfolding approve_goods_allocation
approve-Atomic request_id task_id goods_id robot_id quantity now =
    when_open-Atomic _ _ (
      transaction-Atomic _ _ (approve-Implements request_id task_id goods_id robot_id quantity now))

-- ApproveGoodsAllocation does not see a COMMIT that fails, here where its BEGIN does not: when it
-- reports success, the connection shows both its UPDATE and its INSERT, but the transaction is still
-- open, and a ROLLBACK, as the next function that fails calls it, takes the approval back.
pub approve_uncommitted :
    (request_id task_id goods_id robot_id : String) (quantity : ℤ) (now : String)
    (c : Connection Tables)
    → c.saved ≡ no_transaction (false ∷ true ∷ [])
    → (approve_goods_allocation request_id task_id goods_id robot_id quantity now c).0 ≡ true
    → let after =
        (approve_goods_allocation request_id task_id goods_id robot_id quantity now c).1 in
      (approve_tables request_id task_id goods_id robot_id quantity now c.tables
        ≡ some after.tables)
      × (after.saved ≡ in_transaction [] c.tables)
      × ((rollback after).tables ≡ c.tables)
unfolding approve_goods_allocation when_open rollback
approve_uncommitted request_id task_id goods_id robot_id quantity now c e h = ground (
  arith,
  transaction_uncommitted _ _ (approve-Implements request_id task_id goods_id robot_id quantity now)
      c e,
)

settle_selected-Atomic :
    (request_id robot_id state now : String) (a : AllocationRow)
    → Atomic
        (λ t. elim (changed (settle_statement request_id robot_id state now) t) [
          | none ↦ none
          | some t' ↦ changed (give_back_statement a.task_id a.goods_id state a.quantity now) t'
        ])
        (settle_selected request_id robot_id state now a)
unfolding settle_selected
settle_selected-Atomic request_id robot_id state now a = transaction-Atomic _ _ (
    and_then-Implements _ _ _ _
      (run-Implements (changed (settle_statement request_id robot_id state now)))
      (run-Implements (changed (give_back_statement a.task_id a.goods_id state a.quantity now))))

module _ {T : Type 0} where
  -- A test on an argument, before the connection is touched.
  pub if-Atomic :
      (b : Bool) (p : T → Option T) (m : Connection T → Bool × Connection T)
      → Atomic p m
      → Atomic (λ t. if b then p t else none) (λ c. if b then m c else (false, c))
  if-Atomic true p m am = am
  if-Atomic false p m am = record {
    closed = λ c e. e;
    opened = λ c. refl;
    committed = λ c e h. ground arith;
    undone = λ c e h. refl;
    reliable = λ c e. e;
    complete = λ c e o f h. refl;
  }

-- SettleGoodsAllocation with any arguments, on a quiet connection, where no transaction is open and no
-- BEGIN, COMMIT or ROLLBACK fails, and under any schedule of failing calls of prepare and step: it
-- either does both its UPDATEs for the active allocation that it found and reports success, or
-- changes no table and reports failure, and leaves the connection quiet. With the database open and
-- no failing call it fails only when the state is neither COMPLETED nor ABORTED, when no active
-- allocation has that request and robot, or when an UPDATE is refused or matches no row.
pub settle-Atomic :
    (request_id robot_id state now : String)
    → Atomic
        (settle_tables request_id robot_id state now)
        (settle_goods_allocation request_id robot_id state now)
unfolding settle_goods_allocation
settle-Atomic request_id robot_id state now = when_open-Atomic _ _ (
    if-Atomic (settles_as state) _ _ (
      select_then-Atomic (active_allocation request_id robot_id) _ _
        (λ a. settle_selected-Atomic request_id robot_id state now a)))
