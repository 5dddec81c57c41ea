-- ===== src/Edge/Sql/Transactions/Ready.antt =====
-- The calls of edge_server/src/database/sqlite_db.cpp on a database that works.
use amr_warehouse_collaborat.Edge.Sql.{quiet}
use amr_warehouse_collaborat.Prelude.{
  ◌≡◌, sym, subst, All, ◌∙◌, inl, inr, Bool, true, false, Option, none, some, List, [], ◌∷◌, arith,
  Bool-cases,
}
use amr_warehouse_collaborat.Edge.Sql.{Connection, call, fetch, query}
use amr_warehouse_collaborat.Edge.Sql.Transactions.Steps.{Atomic}
use amr_warehouse_collaborat.Edge.Sql.Transactions.Reads.{SameTables, call-SameTables}

-- A connection that is open, outside any transaction, and before calls that do not fail.
pub record IsReady {T : Type 0} (c : Connection T) : Type 0 where
  pub opened : c.is_open ≡ true
  pub closed : c.saved ≡ quiet
  pub reliable : c.faults ≡ []

module _ {T : Type 0} where
  pub Atomic-done :
      (p : T → Option T) (m : Connection T → Bool × Connection T) (c : Connection T) (t : T)
      → Atomic p m
      → IsReady c
      → p c.tables ≡ some t
      → ((m c).0 ≡ true) × ((m c).1.tables ≡ t) × IsReady (m c).1
  Atomic-done p m c t am r h =
      let ok : (m c).0 ≡ true = ground (arith, am.complete c r.closed r.opened r.reliable) in
      (
        ok,
        ground (arith, am.committed c r.closed ok),
        record {
          opened = am.opened c ∙ r.opened;
          closed = am.closed c r.closed;
          reliable = am.reliable c r.reliable;
        },
      )

  pub Atomic-refused :
      (p : T → Option T) (m : Connection T → Bool × Connection T) (c : Connection T)
      → Atomic p m
      → IsReady c
      → p c.tables ≡ none
      → ((m c).0 ≡ false) × ((m c).1.tables ≡ c.tables) × IsReady (m c).1
  Atomic-refused p m c am r h =
      let failed : (m c).0 ≡ false = ground (arith, am.committed c r.closed) in
      (
        failed,
        am.undone c r.closed failed,
        record {
          opened = am.opened c ∙ r.opened;
          closed = am.closed c r.closed;
          reliable = am.reliable c r.reliable;
        },
      )

  pub SameTables-IsReady : (c d : Connection T) → SameTables c d → IsReady c → IsReady d
  SameTables-IsReady c d s r = record {
    opened = s.opened ∙ r.opened;
    closed = s.saved ∙ r.closed;
    reliable = s.reliable r.reliable;
  }

module _ {T R : Type 0} where
  fetch-All :
      (P : R → Type 0) (rows : List R) (c : Connection T) → All P rows → All P (fetch rows c).0
  unfolding fetch
  fetch-All P [] c h = tt
  fetch-All P (r ∷ rs) c h = elim (Bool-cases (call c).0) [
    | inl e ↦ rw e (h.0, fetch-All P rs (call c).1 h.1)
    | inr e ↦ rw e tt
  ]

  -- What holds of every row of a table holds of the rows that a SELECT reads, however early it ends.
  pub query-All :
      (P : R → Type 0) (rows : T → List R) (c : Connection T) (found : List R)
      → All P (rows c.tables)
      → (query rows c).0 ≡ some found
      → All P found
  unfolding query
  query-All P rows c found h e = elim (Bool-cases (call c).0) [
    | inr n ↦ absurd (ground arith)
    | inl n ↦
        let read : (fetch (rows (call c).1.tables) (call c).1).0 ≡ found = ground arith in
        subst (All P) read (
          fetch-All P (rows (call c).1.tables) (call c).1
            (subst (λ (t : T). All P (rows t)) (sym (call-SameTables c).tables) h))
  ]
