-- ===== src/Edge/Rows.antt =====
-- The three row statements that the SQL texts of edge_server/src/database/sqlite_db.cpp are made
-- of. A table is the list of its rows in the order of insertion.
pub mod Laws
pub mod Sums
use amr_warehouse_collaborat.Prelude.{
  ℕ, suc, ◌+◌, Bool, true, false, not, ◌&&◌, ◌||◌, Option, none, some, List, [], ◌∷◌, ◌++◌, any,
  all, if◌then◌else◌,
}

module _ {R : Type 0} where
  -- INSERT: refused when a CHECK fails or when a row that is there clashes with the new one in a
  -- UNIQUE or PRIMARY KEY constraint.
  unfoldable pub insert_row : (R → Bool) → (R → R → Bool) → R → List R → Option (List R)
  insert_row check clash r rows =
      if check r && not (any (clash r) rows) then some (rows ++ r ∷ []) else none

  -- INSERT … ON CONFLICT DO UPDATE: the row that clashes is overwritten by `merge old new`.
  unfoldable pub upsert_row : (R → R → Bool) → (R → R → R) → R → List R → List R
  upsert_row clash merge r [] = r ∷ []
  upsert_row clash merge r (x ∷ rows) =
      if clash r x then merge x r ∷ rows else x ∷ upsert_row clash merge r rows

  -- The rows that a WHERE clause holds of.
  unfoldable pub count_rows : (R → Bool) → List R → ℕ
  count_rows hit [] = 0
  count_rows hit (x ∷ rows) = let n = count_rows hit rows in if hit x then suc n else n

  unfoldable pub change_rows : (R → Bool) → (R → R) → List R → List R
  change_rows hit change [] = []
  change_rows hit change (x ∷ rows) = (if hit x then change x else x) ∷ change_rows hit change rows

  -- UPDATE … WHERE: refused when a changed row fails a CHECK. No statement changes a key column.
  unfoldable pub update_rows : (R → Bool) → (R → Bool) → (R → R) → List R → Option (ℕ × List R)
  unfolding count_rows change_rows
  update_rows check hit change rows =
      if all (λ r. not (hit r) || check (change r)) rows
      then some (count_rows hit rows, change_rows hit change rows)
      else none
