-- ===== src/Edge/Sql/Keeps.antt =====
-- Invariants of the tables between transactions, one rule for each kind of database call.
use amr_warehouse_collaborat.Edge.Sql.{quiet}
use amr_warehouse_collaborat.Prelude.{
  ◌≡◌, sym, ◌∙◌, subst, Bool, Option, some, List, Bool-cases, inl, inr,
}
use amr_warehouse_collaborat.Edge.Sql.{Connection, query, query_one}
use amr_warehouse_collaborat.Edge.Sql.Transactions.{
  Atomic, SameTables, query-SameTables, query_one-SameTables,
}

-- `P` holds of the tables, and the connection is quiet.
pub record IsSafe {T : Type 0} (P : T → Type 0) (c : Connection T) : Type 0 where
  pub closed : c.saved ≡ quiet
  pub holds : P c.tables

module _ {T : Type 0} (P : T → Type 0) where
  pub Atomic-IsSafe :
      (p : T → Option T) (m : Connection T → Bool × Connection T)
      → Atomic p m
      → ((t t' : T) → P t → p t ≡ some t' → P t')
      → (c : Connection T) → IsSafe P c
      → IsSafe P (m c).1
  Atomic-IsSafe p m am keep c s = elim (Bool-cases (m c).0) [
    | inl e ↦ record {
      closed = am.closed c s.closed;
      holds = keep c.tables (m c).1.tables s.holds (am.committed c s.closed e);
    }
    | inr e ↦ record {
      closed = am.closed c s.closed;
      holds = subst P (sym (am.undone c s.closed e)) s.holds;
    }
  ]

  pub SameTables-IsSafe : (c d : Connection T) → SameTables c d → IsSafe P c → IsSafe P d
  SameTables-IsSafe c d e s = record {
    closed = e.saved ∙ s.closed;
    holds = subst P (sym e.tables) s.holds;
  }

  module _ {R : Type 0} where
    pub query-IsSafe :
        (rows : T → List R) (c : Connection T) → IsSafe P c → IsSafe P (query rows c).1
    query-IsSafe rows c = SameTables-IsSafe c (query rows c).1 (query-SameTables rows c)

    pub query_one-IsSafe :
        (row : T → Option R) (c : Connection T) → IsSafe P c → IsSafe P (query_one row c).1
    query_one-IsSafe row c = SameTables-IsSafe c (query_one row c).1 (query_one-SameTables row c)
