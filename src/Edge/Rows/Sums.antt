-- ===== src/Edge/Rows/Sums.antt =====
-- Sums over the rows of a table, and how a statement moves them.
use amr_warehouse_collaborat.Prelude.{
  ℤ, pos, pos_part, neg_part, ◌+ℤ◌, int_laws, +ℤ_assoc, ◌≡◌, refl, ◌∙◌, ap, sym, Bool, true, false,
  some, List, [], ◌∷◌, ◌++◌, any, find, arith, Bool-cases, inl, inr,
}
use amr_warehouse_collaborat.Edge.Rows.{change_rows}
use amr_warehouse_collaborat.Edge.Rows.Laws.{Unique, change_rows_none}

module _ {R : Type 0} where
  unfoldable pub sum_rows : (R → ℤ) → List R → ℤ
  sum_rows amount [] = pos 0
  sum_rows amount (x ∷ rows) = amount x +ℤ sum_rows amount rows

  pub sum_rows-append :
      (amount : R → ℤ) (rows : List R) (r : R)
      → sum_rows amount (rows ++ r ∷ []) ≡ sum_rows amount rows +ℤ amount r
  unfolding sum_rows
  sum_rows-append amount [] r = omega int_laws
  sum_rows-append amount (x ∷ rows) r =
      ap (λ (n : ℤ). amount x +ℤ n) (sum_rows-append amount rows r)
      ∙ sym (+ℤ_assoc (amount x) (sum_rows amount rows) (amount r))

  pub sum_rows_zero :
      (amount : R → ℤ) (p : R → Bool) (rows : List R)
      → ((r : R) → p r ≡ false → amount r ≡ pos 0)
      → any p rows ≡ false
      → sum_rows amount rows ≡ pos 0
  unfolding sum_rows
  sum_rows_zero amount p [] f h = refl
  sum_rows_zero amount p (x ∷ rows) f h =
      rw (f x (ground arith), sum_rows_zero amount p rows f (ground arith)) (omega int_laws)

  module _ (clash : R → R → Bool) (hit : R → Bool)
      (one_key : (x y : R) → hit x ≡ true → hit y ≡ true → clash y x ≡ true) where
    no_hit :
        (x : R) (rows : List R)
        → hit x ≡ true
        → any (λ y. clash y x) rows ≡ false
        → any hit rows ≡ false
    no_hit x [] k h = refl
    no_hit x (y ∷ rows) k h = ground (arith, one_key x y, no_hit x rows)

    -- An UPDATE by a unique key moves a sum by what it does to the one row.
    pub sum_rows-change_rows :
        (amount : R → ℤ) (change : R → R) (rows : List R) (a : R)
        → Unique clash rows
        → find hit rows ≡ some a
        → sum_rows amount (change_rows hit change rows) +ℤ amount a
          ≡ sum_rows amount rows +ℤ amount (change a)
    unfolding sum_rows change_rows
    sum_rows-change_rows amount change [] a u h = ground arith
    sum_rows-change_rows amount change (x ∷ rows) a u h = elim (Bool-cases (hit x)) [
      | inl e ↦
          let same : x ≡ a = ground arith in
          rw (e, change_rows_none hit change rows (no_hit x rows e u.0), ← same) (omega int_laws)
      | inr e ↦ rw e (
          omega (
            int_laws,
            ap pos_part (sum_rows-change_rows amount change rows a u.1 (ground arith)),
            ap neg_part (sum_rows-change_rows amount change rows a u.1 (ground arith)),
          ))
    ]
