-- ===== src/Edge/Sql/Transactions/Steps.antt =====
-- The writing calls of edge_server/src/database/sqlite_db.cpp as steps on the tables: one statement,
-- statements in sequence, and a transaction.
use amr_warehouse_collaborat.Edge.Sql.{quiet}
use amr_warehouse_collaborat.Prelude.{
  if◌then◌else◌, ◌≡◌, Bool, true, false, Option, none, some, [], ◌∷◌, arith,
}
use amr_warehouse_collaborat.Edge.Sql.{
  no_transaction, in_transaction, Connection, run, ◌and_then◌, transaction, when_open,
  begin_transaction,
}

module _ {T : Type 0} where
  -- First `p`, then `q`, if `p` is not refused.
  infixr 30 ◌then_do◌
  abbrev pub ◌then_do◌ : (T → Option T) → (T → Option T) → T → Option T
  ◌then_do◌ p q t = elim (p t) [ none ↦ none | some t' ↦ q t' ]

  -- `m` does `p` when it reports success, and leaves the transaction bracket alone. With no
  -- failing call it reports success exactly when `p` is not refused.
  pub record Implements (p : T → Option T) (m : Connection T → Bool × Connection T) : Type 0 where
    pub bracket : (c : Connection T) → (m c).1.saved ≡ c.saved
    pub opened : (c : Connection T) → (m c).1.is_open ≡ c.is_open
    pub sound : (c : Connection T) → (m c).0 ≡ true → p c.tables ≡ some (m c).1.tables
    pub reliable : (c : Connection T) → c.faults ≡ [] → (m c).1.faults ≡ []
    pub complete : (c : Connection T) → c.faults ≡ [] → (m c).0 ≡ false → p c.tables ≡ none

  pub run-Implements : (p : T → Option T) → Implements p (run p)
  unfolding run
  run-Implements p = record {
    bracket = λ c. ground arith;
    opened = λ c. ground arith;
    sound = λ c h. ground arith;
    reliable = λ c e. ground arith;
    complete = λ c e h. ground arith;
  }

  pub and_then-Implements :
      (p q : T → Option T) (m k : Connection T → Bool × Connection T)
      → Implements p m
      → Implements q k
      → Implements (p then_do q) (m and_then k)
  unfolding ◌and_then◌
  and_then-Implements p q m k im ik = record {
    bracket = λ c. ground (arith, im.bracket c, ik.bracket (m c).1);
    opened = λ c. ground (arith, im.opened c, ik.opened (m c).1);
    sound = λ c h. ground (arith, im.sound c, ik.sound (m c).1);
    reliable = λ c e. ground (arith, im.reliable c e, ik.reliable (m c).1);
    complete =
        λ c e h. ground (arith, im.reliable c e, im.complete c e, im.sound c, ik.complete (m c).1);
  }

  -- What a client of the database relies on, whatever calls of prepare and step fail, on a connection
  -- that is quiet: success means that `p` was done as a whole, failure means that no table changed,
  -- and the connection stays quiet. With the database open and no failing call, failure means that `p` is refused.
  pub record Atomic (p : T → Option T) (m : Connection T → Bool × Connection T) : Type 0 where
    pub closed : (c : Connection T) → c.saved ≡ quiet → (m c).1.saved ≡ quiet
    pub opened : (c : Connection T) → (m c).1.is_open ≡ c.is_open
    pub committed :
        (c : Connection T) → c.saved ≡ quiet → (m c).0 ≡ true → p c.tables ≡ some (m c).1.tables
    pub undone : (c : Connection T) → c.saved ≡ quiet → (m c).0 ≡ false → (m c).1.tables ≡ c.tables
    pub reliable : (c : Connection T) → c.faults ≡ [] → (m c).1.faults ≡ []
    pub complete :
        (c : Connection T)
        → c.saved ≡ quiet
        → c.is_open ≡ true
        → c.faults ≡ []
        → (m c).0 ≡ false
        → p c.tables ≡ none

  pub transaction-Atomic :
      (p : T → Option T) (body : Connection T → Bool × Connection T)
      → Implements p body
      → Atomic p (transaction body)
  unfolding transaction
  transaction-Atomic p body ib = record {
    closed = λ c e. ground (arith, ib.bracket (begin_transaction c));
    opened = λ c. ground (arith, ib.opened (begin_transaction c), ib.opened c);
    committed = λ c e h. ground (arith, ib.sound (begin_transaction c));
    undone = λ c e h. ground (arith, ib.bracket (begin_transaction c));
    reliable = λ c e. ground (arith, ib.reliable (begin_transaction c), ib.reliable c e);
    complete = λ c e o f h. ground (arith, ib.complete (begin_transaction c));
  }

  -- A COMMIT that fails is not seen: the transaction has reported success and is still open.
  pub transaction_uncommitted :
      (p : T → Option T) (body : Connection T → Bool × Connection T)
      → Implements p body
      → (c : Connection T) → c.saved ≡ no_transaction (false ∷ true ∷ [])
      → (transaction body c).0 ≡ true
      → (p c.tables ≡ some (transaction body c).1.tables)
        × ((transaction body c).1.saved ≡ in_transaction [] c.tables)
  unfolding transaction begin_transaction
  transaction_uncommitted p body ib c e h =
      ground (arith, ib.bracket (begin_transaction c), ib.sound (begin_transaction c))

  pub when_open-Atomic :
      (p : T → Option T) (m : Connection T → Bool × Connection T)
      → Atomic p m
      → Atomic p (when_open m)
  unfolding when_open
  when_open-Atomic p m am = record {
    closed = λ c e. ground (arith, am.closed c e);
    opened = λ c. ground (arith, am.opened c);
    committed = λ c e h. ground (arith, am.committed c e);
    undone = λ c e h. ground (arith, am.undone c e);
    reliable = λ c e. ground (arith, am.reliable c e);
    complete = λ c e o f h. ground (arith, am.complete c e o f);
  }

  -- A single statement outside a transaction is atomic by itself.
  pub run-Atomic : (p : T → Option T) → Atomic p (run p)
  unfolding run
  run-Atomic p = record {
    closed = λ c e. ground arith;
    opened = λ c. ground arith;
    committed = λ c e h. ground arith;
    undone = λ c e h. ground arith;
    reliable = λ c e. ground arith;
    complete = λ c e o f h. ground arith;
  }

  pub if-Implements :
      (b : Bool) (p q : T → Option T) (m k : Connection T → Bool × Connection T)
      → Implements p m
      → Implements q k
      → Implements (λ t. if b then p t else q t) (if b then m else k)
  if-Implements true p q m k im ik = im
  if-Implements false p q m k im ik = ik
