-- ===== src/Edge/Rows/Laws.antt =====
-- The row statements of edge_server/src/database/sqlite_db.cpp and searches of the rows.
use mathlib.Core.Path.{fun_ext}
use amr_warehouse_collaborat.Prelude.{
  ℕ, ◌<◌, ◌≡◌, refl, ◌∙◌, Bool, true, false, not, ◌||◌, none, some, List, [], ◌∷◌, ◌++◌, any, all,
  find, any-append, All, arith, Bool-cases, inl, inr, if◌then◌else◌,
}
use amr_warehouse_collaborat.Edge.Rows.{insert_row, change_rows, count_rows, update_rows}

module _ {R : Type 0} where
  -- No two rows clash.
  abbrev pub Unique : (R → R → Bool) → List R → Type 0
  Unique clash [] = Unit
  Unique clash (x ∷ rows) = (any (λ y. clash y x) rows ≡ false) × Unique clash rows

  pub insert_row-inv :
      (check : R → Bool) (clash : R → R → Bool) (r : R) (rows rows' : List R)
      → insert_row check clash r rows ≡ some rows'
      → (rows' ≡ rows ++ r ∷ []) × (check r ≡ true) × (any (clash r) rows ≡ false)
  unfolding insert_row
  insert_row-inv check clash r rows rows' h = ground arith

  pub change_rows-All {κ} :
      (P : R → Type κ) (hit : R → Bool) (change : R → R) (rows : List R)
      → ((r : R) → hit r ≡ true → P r → P (change r))
      → All P rows
      → All P (change_rows hit change rows)
  unfolding change_rows
  change_rows-All P hit change [] f h = tt
  change_rows-All P hit change (x ∷ rows) f h =
      (one (hit x) refl, change_rows-All P hit change rows f h.1)
    where
      one : (b : Bool) → hit x ≡ b → P (if hit x then change x else x)
      one true e = rw e (f x e h.0)
      one false e = rw e h.0

  -- The rows of an UPDATE, each by the branch that it takes.
  pub change_rows-All_both {κ ι} :
      (P : R → Type κ) (Q : R → Type ι) (hit : R → Bool) (change : R → R) (rows : List R)
      → ((r : R) → hit r ≡ true → P r → Q (change r))
      → ((r : R) → hit r ≡ false → P r → Q r)
      → All P rows
      → All Q (change_rows hit change rows)
  unfolding change_rows
  change_rows-All_both P Q hit change [] f g h = tt
  change_rows-All_both P Q hit change (x ∷ rows) f g h =
      (one (hit x) refl, change_rows-All_both P Q hit change rows f g h.1)
    where
      one : (b : Bool) → hit x ≡ b → Q (if hit x then change x else x)
      one true e = rw e (f x e h.0)
      one false e = rw e (g x e h.0)

  pub change_rows_none :
      (hit : R → Bool) (change : R → R) (rows : List R)
      → any hit rows ≡ false
      → change_rows hit change rows ≡ rows
  unfolding change_rows
  change_rows_none hit change [] h = refl
  change_rows_none hit change (x ∷ rows) h = ground (arith, change_rows_none hit change rows)

  pub any-change_rows :
      (p hit : R → Bool) (change : R → R) (rows : List R)
      → ((r : R) → p (change r) ≡ p r)
      → any p (change_rows hit change rows) ≡ any p rows
  unfolding change_rows
  any-change_rows p hit change [] f = refl
  any-change_rows p hit change (x ∷ rows) f =
      ground (arith, f x, any-change_rows p hit change rows f)

  -- A change of columns that are no key keeps the keys apart.
  pub Unique-change_rows :
      (clash : R → R → Bool) (hit : R → Bool) (change : R → R) (rows : List R)
      → ((x y : R) → clash (change y) x ≡ clash y x)
      → ((x y : R) → clash y (change x) ≡ clash y x)
      → Unique clash rows
      → Unique clash (change_rows hit change rows)
  unfolding change_rows
  Unique-change_rows clash hit change [] f g u = tt
  Unique-change_rows clash hit change (x ∷ rows) f g u =
      (one (hit x) refl, Unique-change_rows clash hit change rows f g u.1)
    where
      rest :
          (z : R) → any (λ y. clash y z) (change_rows hit change rows) ≡ any (λ y. clash y z) rows
      rest z = any-change_rows (λ y. clash y z) hit change rows (λ r. f z r)

      swapped : any (λ y. clash y (change x)) rows ≡ any (λ y. clash y x) rows
      swapped = rw (fun_ext (λ y. g x y)) refl

      one :
          (b : Bool)
          → hit x ≡ b
          → any (λ y. clash y (if hit x then change x else x)) (change_rows hit change rows) ≡ false
      one true e = rw e (rest (change x) ∙ swapped ∙ u.0)
      one false e = rw e (rest x ∙ u.0)

  pub Unique-append :
      (clash : R → R → Bool) (r : R) (rows : List R)
      → ((x y : R) → clash y x ≡ clash x y)
      → any (clash r) rows ≡ false
      → Unique clash rows
      → Unique clash (rows ++ r ∷ [])
  Unique-append clash r [] s h u = (refl, tt)
  Unique-append clash r (x ∷ rows) s h u = (
    ground (arith, any-append (λ y. clash y x) rows (r ∷ []), s x r),
    Unique-append clash r rows s (ground arith) u.1,
  )

  pub update_rows-inv :
      (check hit : R → Bool) (change : R → R) (rows : List R) (n : ℕ) (rows' : List R)
      → update_rows check hit change rows ≡ some (n, rows')
      → (rows' ≡ change_rows hit change rows)
        × (n ≡ count_rows hit rows)
        × (all (λ r. not (hit r) || check (change r)) rows ≡ true)
  unfolding update_rows
  update_rows-inv check hit change rows n rows' h = ground arith

  -- An UPDATE that succeeds leaves every row within its CHECK.
  pub checked-change_rows :
      (check hit : R → Bool) (change : R → R) (rows : List R)
      → all (λ r. not (hit r) || check (change r)) rows ≡ true
      → All (λ r. check r ≡ true) rows
      → All (λ r. check r ≡ true) (change_rows hit change rows)
  unfolding change_rows
  checked-change_rows check hit change [] h c = tt
  checked-change_rows check hit change (x ∷ rows) h c =
      (ground (arith, c.0), checked-change_rows check hit change rows (ground arith) c.1)

  -- Rows with one key: where some row is hit, every row of the key is.
  module _ (clash : R → R → Bool) (key hit : R → Bool)
      (one_key : (x y : R) → key x ≡ true → key y ≡ true → clash y x ≡ true)
      (keyed : (x : R) → hit x ≡ true → key x ≡ true) where
    no_key :
        (x : R) (rows : List R)
        → key x ≡ true
        → any (λ y. clash y x) rows ≡ false
        → any key rows ≡ false
    no_key x [] k h = refl
    no_key x (y ∷ rows) k h = ground (arith, one_key x y, no_key x rows)

    no_hit : (rows : List R) → any key rows ≡ false → count_rows hit rows ≡ 0
    unfolding count_rows
    no_hit [] h = refl
    no_hit (x ∷ rows) h = ground (arith, keyed x, no_hit rows)

    vacuous : (rows : List R) → any key rows ≡ false → All (λ r. key r ≡ true → hit r ≡ true) rows
    vacuous [] h = tt
    vacuous (x ∷ rows) h = ((λ k. ground arith), vacuous rows (ground arith))

    pub key_is_hit :
        (rows : List R)
        → Unique clash rows
        → 0 < count_rows hit rows
        → All (λ r. key r ≡ true → hit r ≡ true) rows
    unfolding count_rows
    key_is_hit [] u h = tt
    key_is_hit (x ∷ rows) u h = elim (Bool-cases (hit x)) [
      | inl e ↦ ((λ k. e), vacuous rows (no_key x rows (keyed x e) u.0))
      | inr e ↦ (
        (λ k. absurd (ground (arith, no_hit rows (no_key x rows k u.0)))),
        key_is_hit rows u.1 (ground arith),
      )
    ]

module _ {R : Type 0} where
  -- Looking a key up after an UPDATE of its rows, when the change keeps the key.
  pub find-change_rows :
      (hit : R → Bool) (change : R → R) (rows : List R) (r : R)
      → ((x : R) → hit (change x) ≡ hit x)
      → find hit rows ≡ some r
      → find hit (change_rows hit change rows) ≡ some (change r)
  unfolding change_rows
  find-change_rows hit change [] r f h = ground arith
  find-change_rows hit change (x ∷ rows) r f h =
      ground (arith, f x, find-change_rows hit change rows r f)

  -- An UPDATE that ends its own WHERE clause leaves nothing to find.
  pub find-change_rows-none :
      (hit : R → Bool) (change : R → R) (rows : List R)
      → ((x : R) → hit (change x) ≡ false)
      → find hit (change_rows hit change rows) ≡ none
  unfolding change_rows
  find-change_rows-none hit change [] f = refl
  find-change_rows-none hit change (x ∷ rows) f =
      ground (arith, f x, find-change_rows-none hit change rows f)

  pub find-append_none :
      (hit : R → Bool) (rows : List R) (r : R)
      → any hit rows ≡ false
      → hit r ≡ true
      → find hit (rows ++ r ∷ []) ≡ some r
  find-append_none hit [] r h k = ground arith
  find-append_none hit (x ∷ rows) r h k = ground (arith, find-append_none hit rows r)

  pub find-append_some :
      (p : R → Bool) (rows more : List R) (r : R)
      → find p rows ≡ some r
      → find p (rows ++ more) ≡ some r
  find-append_some p [] more r h = ground arith
  find-append_some p (x ∷ rows) more r h = ground (arith, find-append_some p rows more r)

  -- An UPDATE that keeps what a search looks at finds the same row, changed if it was hit.
  pub find-change_rows_same :
      (p hit : R → Bool) (change : R → R) (rows : List R) (r : R)
      → ((x : R) → p (change x) ≡ p x)
      → find p rows ≡ some r
      → find p (change_rows hit change rows) ≡ some (if hit r then change r else r)
  unfolding change_rows
  find-change_rows_same p hit change [] r f h = ground arith
  find-change_rows_same p hit change (x ∷ rows) r f h =
      ground (arith, f x, find-change_rows_same p hit change rows r f)

  -- An UPDATE that hits none of the rows that a search accepts changes nothing it finds.
  pub find-change_rows_apart :
      (p hit : R → Bool) (change : R → R) (rows : List R)
      → ((x : R) → p (change x) ≡ p x)
      → ((x : R) → p x ≡ true → hit x ≡ false)
      → find p (change_rows hit change rows) ≡ find p rows
  unfolding change_rows
  find-change_rows_apart p hit change [] f g = refl
  find-change_rows_apart p hit change (x ∷ rows) f g =
      ground (arith, f x, g x, find-change_rows_apart p hit change rows f g)
