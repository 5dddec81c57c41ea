-- ===== src/Edge/Sql.antt =====
-- How edge_server/src/database/sqlite_db.cpp talks to SQLite: one connection, under one mutex.
-- The schedule of failing library calls is data of the connection, and no theorem chooses it.
pub mod Transactions
pub mod Keeps
use amr_warehouse_collaborat.Prelude.{
  ℕ, zero, suc, String, Bool, true, false, not, Option, none, some, List, [], ◌∷◌, if◌then◌else◌,
}

-- Whether a transaction is open, and then the tables at its BEGIN; `faults` says of the next calls of
-- BEGIN, COMMIT and ROLLBACK whether they fail, and past its end they do not.
pub data Transaction (T : Type 0) : Type 0 where
  no_transaction : (faults : List Bool) → Transaction T
  in_transaction : (faults : List Bool) → (tables : T) → Transaction T

-- No transaction is open, and no BEGIN, COMMIT or ROLLBACK is going to fail.
abbrev pub quiet : {T : Type 0} → Transaction T
quiet = no_transaction []

-- `is_open` is `m_pDB != nullptr`; `saved` is the transaction of the connection;
-- `faults` says of the next calls of prepare and step whether they fail for a reason of the
-- engine (memory, disk, lock), and past its end they do not; `clock` is CURRENT_TIMESTAMP.
pub record Connection (T : Type 0) : Type 0 where
  pub is_open : Bool
  pub tables : T
  pub saved : Transaction T
  pub faults : List Bool
  pub clock : String

module _ {T : Type 0} where
  take_fault : List Bool → Connection T → Bool × Connection T
  take_fault [] c = (true, c)
  take_fault (fault ∷ rest) c = (not fault, record c { faults = rest })

  -- sqlite3_prepare_v2 or sqlite3_step: true when the engine does not fail.
  unfoldable pub call : Connection T → Bool × Connection T
  unfolding take_fault
  call c = take_fault c.faults c

  -- A statement maps the tables to the number of rows it changed and the new tables, and to `none`
  -- when a constraint refuses it. `sqlite3_step(stmt) == SQLITE_DONE`:
  unfoldable pub done : (T → Option (ℕ × T)) → T → Option T
  done f t = elim (f t) [ none ↦ none | some (n, t') ↦ some t' ]

  keep_changed : ℕ × T → Option T
  keep_changed (zero, t) = none
  keep_changed (suc n, t) = some t

  -- `sqlite3_step(stmt) == SQLITE_DONE && sqlite3_changes(m_pDB) > 0`.
  unfoldable pub changed : (T → Option (ℕ × T)) → T → Option T
  unfolding keep_changed
  changed f t = elim (f t) [ none ↦ none | some r ↦ keep_changed r ]

  apply_to : Option T → Connection T → Bool × Connection T
  apply_to none c = (false, c)
  apply_to (some t) c = (true, record c { tables = t })

  -- Prepare and step one statement that writes.
  unfoldable pub run : (T → Option T) → Connection T → Bool × Connection T
  unfolding call apply_to
  run p c =
      let (prepared, c₁) = call c in
      if prepared
      then (let (stepped, c₂) = call c₁ in
          if stepped then apply_to (p c₂.tables) c₂ else (false, c₂))
      else (false, c₁)

  -- `if(!first) { Rollback(); return false; }`, then the rest of the transaction.
  infixr 30 ◌and_then◌
  unfoldable pub ◌and_then◌ :
      (Connection T → Bool × Connection T)
      → (Connection T → Bool × Connection T)
      → Connection T
      → Bool × Connection T
  ◌and_then◌ m k c = let (good, c') = m c in if good then k c' else (false, c')

  -- BEGIN is an error inside a transaction. Its callers do not see whether it failed, and the
  -- statements that follow a BEGIN that failed are each on their own.
  begin_in : Transaction T → Connection T → Connection T
  begin_in (no_transaction []) c = record c { saved = in_transaction [] c.tables }
  begin_in (no_transaction (fault ∷ rest)) c = record c {
    saved = if fault then no_transaction rest else in_transaction rest c.tables;
  }
  begin_in (in_transaction faults tables) c = c

  unfoldable pub begin_transaction : Connection T → Connection T
  unfolding begin_in
  begin_transaction c = begin_in c.saved c

  -- COMMIT is an error outside a transaction, and one that fails leaves the transaction open; its
  -- callers do not see it either.
  commit_in : Transaction T → Connection T → Connection T
  commit_in (no_transaction faults) c = c
  commit_in (in_transaction [] tables) c = record c { saved = no_transaction [] }
  commit_in (in_transaction (fault ∷ rest) tables) c = record c {
    saved = if fault then in_transaction rest tables else no_transaction rest;
  }

  unfoldable pub commit : Connection T → Connection T
  unfolding commit_in
  commit c = commit_in c.saved c

  rollback_in : Transaction T → Connection T → Connection T
  rollback_in (no_transaction faults) c = c
  rollback_in (in_transaction [] tables) c = record c { tables = tables; saved = no_transaction [] }
  rollback_in (in_transaction (fault ∷ rest) tables) c =
      if fault
      then record c { saved = in_transaction rest tables }
      else record c { tables = tables; saved = no_transaction rest }

  unfoldable pub rollback : Connection T → Connection T
  unfolding rollback_in
  rollback c = rollback_in c.saved c

  finish : Bool → Connection T → Bool × Connection T
  unfolding commit rollback
  finish true c = (true, commit c)
  finish false c = (false, rollback c)

  -- BeginTransaction, a body that ends in `Rollback(); return false` on each failure, Commit.
  unfoldable pub transaction :
      (Connection T → Bool × Connection T) → Connection T → Bool × Connection T
  unfolding begin_transaction finish
  transaction body c = let (good, c') = body (begin_transaction c) in finish good c'

  -- `if(!m_pDB) return false;` before anything else.
  unfoldable pub when_open :
      (Connection T → Bool × Connection T) → Connection T → Bool × Connection T
  when_open m c = if c.is_open then m c else (false, c)

-- The loop `while(sqlite3_step(stmt) == SQLITE_ROW)`: it also ends at a step that fails.
module _ {T R : Type 0} where
  unfoldable pub fetch : List R → Connection T → List R × Connection T
  fetch [] c = ([], (call c).1)
  fetch (r ∷ rs) c =
      let (stepped, c') = call c in
      let (rest, c'') = fetch rs c' in if stepped then (r ∷ rest, c'') else ([], c')

  -- Prepare a SELECT and read its rows; `none` when prepare fails.
  unfoldable pub query : (T → List R) → Connection T → Option (List R) × Connection T
  query rows c =
      let (prepared, c') = call c in
      if prepared
      then (let (found, c'') = fetch (rows c'.tables) c' in (some found, c''))
      else (none, c')

  -- Prepare a SELECT and step it once: `none` unless the step gives SQLITE_ROW.
  unfoldable pub query_one : (T → Option R) → Connection T → Option R × Connection T
  query_one row c =
      let (prepared, c₁) = call c in
      if prepared
      then (let (stepped, c₂) = call c₁ in if stepped then (row c₂.tables, c₂) else (none, c₂))
      else (none, c₁)

  -- `if(sqlite3_step(stmt) != SQLITE_ROW) return false;`, then the rest with that row.
  unfoldable pub select_then :
      (T → Option R) → (R → Connection T → Bool × Connection T) → Connection T → Bool × Connection T
  select_then row k c =
      let (found, c') = query_one row c in elim found [ none ↦ (false, c') | some r ↦ k r c' ]
