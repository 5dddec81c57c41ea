-- ===== src/Edge/Sql/Transactions/Reads.antt =====
-- The reading calls of edge_server/src/database/sqlite_db.cpp, and a transaction after a SELECT.
use amr_warehouse_collaborat.Edge.Sql.{quiet}
use amr_warehouse_collaborat.Prelude.{
  ◌≡◌, refl, inl, inr, Bool, true, false, Option, none, some, List, [], ◌∷◌, arith, Option-cases,
}
use amr_warehouse_collaborat.Edge.Sql.{Connection, call, fetch, query, query_one, select_then}
use amr_warehouse_collaborat.Edge.Sql.Transactions.Steps.{Atomic}

-- Reading changes only the schedule of failures.
module _ {T : Type 0} where
  pub record SameTables (c d : Connection T) : Type 0 where
    pub tables : d.tables ≡ c.tables
    pub saved : d.saved ≡ c.saved
    pub opened : d.is_open ≡ c.is_open
    pub reliable : c.faults ≡ [] → d.faults ≡ []

  pub call-SameTables : (c : Connection T) → SameTables c (call c).1
  unfolding call
  call-SameTables c = ground arith

module _ {T R : Type 0} where
  fetch-SameTables : (rows : List R) (c : Connection T) → SameTables c (fetch rows c).1
  unfolding fetch
  fetch-SameTables [] c = call-SameTables c
  fetch-SameTables (r ∷ rs) c = ground (arith, call-SameTables c, fetch-SameTables rs (call c).1)

  pub query-SameTables : (rows : T → List R) (c : Connection T) → SameTables c (query rows c).1
  unfolding query
  query-SameTables rows c =
      ground (arith, call-SameTables c, fetch-SameTables (rows (call c).1.tables) (call c).1)

  fetch_all : (rows : List R) (c : Connection T) → c.faults ≡ [] → (fetch rows c).0 ≡ rows
  unfolding fetch call
  fetch_all [] c e = refl
  fetch_all (r ∷ rs) c e = ground (arith, fetch_all rs (call c).1, call-SameTables c)

  -- With no failing call a SELECT reads every row.
  pub query_all :
      (rows : T → List R) (c : Connection T)
      → c.faults ≡ []
      → (query rows c).0 ≡ some (rows c.tables)
  unfolding query call
  query_all rows c e =
      ground (arith, fetch_all (rows (call c).1.tables) (call c).1, call-SameTables c)

  pub query_one-SameTables :
      (row : T → Option R) (c : Connection T) → SameTables c (query_one row c).1
  unfolding query_one
  query_one-SameTables row c = ground (arith, call-SameTables c, call-SameTables (call c).1)

  pub query_one_reliable :
      (row : T → Option R) (c : Connection T) → c.faults ≡ [] → (query_one row c).0 ≡ row c.tables
  unfolding query_one call
  query_one_reliable row c e = ground arith

  -- A row that was read is one that the tables hold.
  pub query_one_sound :
      (row : T → Option R) (c : Connection T) (r : R)
      → (query_one row c).0 ≡ some r
      → row c.tables ≡ some r
  unfolding query_one call
  query_one_sound row c r h = ground arith

  abbrev pub on_row : (T → Option R) → (R → T → Option T) → T → Option T
  on_row row p t = elim (row t) [ none ↦ none | some r ↦ p r t ]

  -- The two ways that `select_then` goes on.
  pub select_then-none :
      (row : T → Option R) (k : R → Connection T → Bool × Connection T) (c : Connection T)
      → (query_one row c).0 ≡ none
      → select_then row k c ≡ (false, (query_one row c).1)
  unfolding select_then
  select_then-none row k c e = rw (e, select_then)

  pub select_then-some :
      (row : T → Option R) (k : R → Connection T → Bool × Connection T) (c : Connection T) (r : R)
      → (query_one row c).0 ≡ some r
      → select_then row k c ≡ k r (query_one row c).1
  unfolding select_then
  select_then-some row k c r e = rw (e, select_then)

  module _ (row : T → Option R) (p : R → T → Option T) (k : R → Connection T → Bool × Connection T)
      (ak : (r : R) → Atomic (p r) (k r)) where
    select_closed : (c : Connection T) → c.saved ≡ quiet → (select_then row k c).1.saved ≡ quiet
    select_closed c e = elim (Option-cases (query_one row c).0) [
      | inl n ↦ ground (arith, select_then-none row k c n, query_one-SameTables row c)
      | inr (r, n) ↦ ground (
        arith,
        select_then-some row k c r n,
        query_one-SameTables row c,
        (ak r).closed (query_one row c).1,
      )
    ]

    select_opened : (c : Connection T) → (select_then row k c).1.is_open ≡ c.is_open
    select_opened c = elim (Option-cases (query_one row c).0) [
      | inl n ↦ ground (arith, select_then-none row k c n, query_one-SameTables row c)
      | inr (r, n) ↦ ground (
        arith,
        select_then-some row k c r n,
        query_one-SameTables row c,
        (ak r).opened (query_one row c).1,
      )
    ]

    select_committed :
        (c : Connection T)
        → c.saved ≡ quiet
        → (select_then row k c).0 ≡ true
        → on_row row p c.tables ≡ some (select_then row k c).1.tables
    select_committed c e h = elim (Option-cases (query_one row c).0) [
      | inl n ↦ ground (arith, select_then-none row k c n)
      | inr (r, n) ↦ ground (
        arith,
        select_then-some row k c r n,
        query_one-SameTables row c,
        query_one_sound row c r n,
        (ak r).committed (query_one row c).1,
      )
    ]

    select_undone :
        (c : Connection T)
        → c.saved ≡ quiet
        → (select_then row k c).0 ≡ false
        → (select_then row k c).1.tables ≡ c.tables
    select_undone c e h = elim (Option-cases (query_one row c).0) [
      | inl n ↦ ground (arith, select_then-none row k c n, query_one-SameTables row c)
      | inr (r, n) ↦ ground (
        arith,
        select_then-some row k c r n,
        query_one-SameTables row c,
        (ak r).undone (query_one row c).1,
      )
    ]

    select_reliable : (c : Connection T) → c.faults ≡ [] → (select_then row k c).1.faults ≡ []
    select_reliable c e = elim (Option-cases (query_one row c).0) [
      | inl n ↦ ground (arith, select_then-none row k c n, query_one-SameTables row c)
      | inr (r, n) ↦ ground (
        arith,
        select_then-some row k c r n,
        query_one-SameTables row c,
        (ak r).reliable (query_one row c).1,
      )
    ]

    select_complete :
        (c : Connection T)
        → c.saved ≡ quiet
        → c.is_open ≡ true
        → c.faults ≡ []
        → (select_then row k c).0 ≡ false
        → on_row row p c.tables ≡ none
    select_complete c e o f h = elim (Option-cases (query_one row c).0) [
      | inl n ↦ ground (arith, query_one_reliable row c f)
      | inr (r, n) ↦ ground (
        arith,
        select_then-some row k c r n,
        query_one-SameTables row c,
        query_one_reliable row c f,
        (ak r).complete (query_one row c).1,
      )
    ]

    pub select_then-Atomic : Atomic (on_row row p) (select_then row k)
    select_then-Atomic = record {
      closed = select_closed;
      opened = select_opened;
      committed = select_committed;
      undone = select_undone;
      reliable = select_reliable;
      complete = select_complete;
    }
