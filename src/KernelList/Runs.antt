-- ===== src/KernelList/Runs.antt =====
-- `find_end_of_run`, and how many runs a list has.
use operating_system_col.Base.{
  ℕ, suc, ◌+◌, ◌≤◌, ◌<◌, ◌≡◌, refl, inl, inr, Bool, true, false, List, [], ◌∷◌, ◌++◌, arith,
  Bool-cases, length, ap,
}
use operating_system_col.KernelList.{find_end_of_run}
use operating_system_col.KernelList.Order.{IsOrder, Bounds, IsSorted}

module _ {ℓ} {A : Type ℓ} (less : A → A → Bool) where
  -- The number of places where an element is less than the one before it.
  abbrev pub drop_at : A → List A → ℕ
  drop_at x [] = 0
  drop_at x (y ∷ ys) = elim (less y x) [ true ↦ 1 | false ↦ 0 ]

  abbrev pub descents : List A → ℕ
  descents [] = 0
  descents (x ∷ xs) = drop_at x xs + descents xs

  pub drop_at-le : (x : A) (xs : List A) → drop_at x xs ≤ 1
  drop_at-le x [] = omega arith
  drop_at-le x (y ∷ ys) = ground arith

  pub descents-append : (xs ys : List A) → descents (xs ++ ys) ≤ descents xs + descents ys + 1
  descents-append [] ys = omega arith
  descents-append (x ∷ []) ys = omega (arith, drop_at-le x ys)
  descents-append (x ∷ y ∷ xs) ys = omega (arith, descents-append (y ∷ xs) ys)

  pub descents-sorted : (xs : List A) → IsSorted less xs → descents xs ≡ 0
  descents-sorted [] s = refl
  descents-sorted (x ∷ []) s = omega arith
  descents-sorted (x ∷ y ∷ xs) s = ground (arith, descents-sorted (y ∷ xs) s.1)

  -- What is left to descend behind a run that ends before `rest`.
  abbrev pub behind : List A → ℕ
  behind [] = 0
  behind (y ∷ ys) = suc (descents (y ∷ ys))

  pub run-append :
      (x : A) (xs : List A)
      → (find_end_of_run less x xs).0 ++ (find_end_of_run less x xs).1 ≡ x ∷ xs
  unfolding find_end_of_run
  run-append x [] = refl
  run-append x (y ∷ ys) = elim (Bool-cases (less y x)) [
    | inl e ↦ rw (e, find_end_of_run)
    | inr e ↦ rw (e, find_end_of_run) (ap (λ l. x ∷ l) (run-append y ys))
  ]

  pub behind-run : (x : A) (xs : List A) → descents (x ∷ xs) ≡ behind (find_end_of_run less x xs).1
  unfolding find_end_of_run
  behind-run x [] = omega arith
  behind-run x (y ∷ ys) = ground (arith, behind-run y ys)

  pub length-run :
      (x : A) (xs : List A)
      → (0 < length (find_end_of_run less x xs).0)
        × (length (find_end_of_run less x xs).0 + length (find_end_of_run less x xs).1
            ≡ length (x ∷ xs))
  unfolding find_end_of_run
  length-run x [] = (omega arith, omega arith)
  length-run x (y ∷ ys) = ground (arith, length-run y ys)

module _ {ℓ} {A : Type ℓ} {less : A → A → Bool} (order : IsOrder less) where
  pub Bounds-run :
      (a x : A) (xs : List A) → less x a ≡ false → Bounds less a (find_end_of_run less x xs).0
  unfolding find_end_of_run
  Bounds-run a x [] h = (h, tt)
  Bounds-run a x (y ∷ ys) h = elim (Bool-cases (less y x)) [
    | inl e ↦ rw (e, find_end_of_run) (h, tt)
    | inr e ↦ rw (e, find_end_of_run) (h, Bounds-run a y ys (order.not_less_trans a x y h e))
  ]

  pub run-IsSorted : (x : A) (xs : List A) → IsSorted less (find_end_of_run less x xs).0
  unfolding find_end_of_run
  run-IsSorted x [] = (tt, tt)
  run-IsSorted x (y ∷ ys) = elim (Bool-cases (less y x)) [
    | inl e ↦ rw (e, find_end_of_run) (tt, tt)
    | inr e ↦ rw (e, find_end_of_run) (Bounds-run x y ys e, run-IsSorted y ys)
  ]
