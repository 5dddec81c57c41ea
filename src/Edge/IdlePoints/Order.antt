-- ===== src/Edge/IdlePoints/Order.antt =====
-- In which order IdlePointAllocator hands out its points.
use amr_warehouse_collaborat.Prelude.{
  ℕ, zero, suc, ◌≡◌, refl, ap, sym, ◌∙◌, Bool, true, false, Option, none, some, List, [], ◌∷◌,
  length, inl, inr, ◌⊎◌,
}
use amr_warehouse_collaborat.Edge.IdlePoints.{IdlePoint, Allocator, take_free, allocate}

module _ {P : Type 0} where
  -- One flag for each point.
  abbrev pub IsAligned : Allocator P → Type 0
  IsAligned a = length a.points ≡ length a.occupied

  -- The poses of the points whose flag is not set, in the order of the package.
  unfoldable pub free_of : List (IdlePoint P) → List Bool → List P
  free_of [] occupied = []
  free_of (p ∷ points) [] = []
  free_of (p ∷ points) (false ∷ occupied) = p.pose ∷ free_of points occupied
  free_of (p ∷ points) (true ∷ occupied) = free_of points occupied

  unfoldable pub free_poses : Allocator P → List P
  unfolding free_of
  free_poses a = free_of a.points a.occupied

  unfoldable pub first : List P → Option P
  first [] = none
  first (p ∷ ps) = some p

  unfoldable pub others : List P → List P
  others [] = []
  others (p ∷ ps) = ps

  take_free_lem :
      (points : List (IdlePoint P)) (occupied : List Bool)
      → (take_free points occupied ≡ none) × (free_of points occupied ≡ [])
        ⊎ ((x : IdlePoint P) × (occupied' : List Bool) × (take_free points occupied
              ≡ some (x, occupied'))
            × (free_of points occupied ≡ x.pose ∷ free_of points occupied')
            × (length occupied' ≡ length occupied))
  unfolding take_free free_of
  take_free_lem [] occupied = inl (refl, refl)
  take_free_lem (p ∷ points) [] = inl (refl, refl)
  take_free_lem (p ∷ points) (false ∷ occupied) = inr (p, true ∷ occupied, refl, refl, refl)
  take_free_lem (p ∷ points) (true ∷ occupied) = elim (take_free_lem points occupied) [
    | inl (e, f) ↦ inl (rw e refl, f)
    | inr (x, occupied', e, f, n) ↦ inr (x, true ∷ occupied', rw e refl, f, ap suc n)
  ]

  pub allocate_lem :
      (a : Allocator P)
      → IsAligned a
      → ((allocate a).0 ≡ first (free_poses a))
        × (free_poses (allocate a).1 ≡ others (free_poses a))
        × ((allocate a).1.points ≡ a.points)
        × IsAligned (allocate a).1
  unfolding allocate free_poses first others
  allocate_lem a aligned = elim (take_free_lem a.points a.occupied) [
    | inl (e, f) ↦ rw (allocate, free_poses, e, f) (refl, refl, refl, aligned)
    | inr (x, occupied', e, f, n) ↦
        rw (allocate, free_poses, e, f) (refl, refl, refl, aligned ∙ sym n)
  ]

  -- `allocate` called `n` times.
  unfoldable pub allocate_times : ℕ → Allocator P → List (Option P) × Allocator P
  unfolding allocate
  allocate_times zero a = ([], a)
  allocate_times (suc n) a =
      let (pose, a') = allocate a in let (poses, a'') = allocate_times n a' in (pose ∷ poses, a'')

  -- The first `n` of some poses, filled up with `none`.
  unfoldable pub first_of : ℕ → List P → List (Option P)
  unfolding first others
  first_of zero ps = []
  first_of (suc n) ps = first ps ∷ first_of n (others ps)

  -- `n` calls of `allocate` on an allocator with one flag for each point return the poses of its
  -- free points in the order of the package, each once, and then nothing any more.
  pub allocations_in_order :
      (n : ℕ) (a : Allocator P) → IsAligned a → (allocate_times n a).0 ≡ first_of n (free_poses a)
  unfolding allocate_times first_of
  allocations_in_order zero a aligned = refl
  allocations_in_order (suc n) a aligned =
      let (pose, free, points, aligned') = allocate_lem a aligned in
      rw pose (
        ap (λ ps. first (free_poses a) ∷ ps)
          (allocations_in_order n (allocate a).1 aligned' ∙ ap (first_of n) free))
