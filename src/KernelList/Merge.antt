-- ===== src/KernelList/Merge.antt =====
-- `inplace_merge` and `find_end_of_run`.
use mathlib.Core.List.{Perm, perm_middle}
use mathlib.Core.List.Perm
use operating_system_col.Base.{
  ◌+◌, ◌≡◌, inl, inr, Bool, List, [], ◌∷◌, ◌++◌, arith, Bool-cases, length, append-nil,
}
use operating_system_col.KernelList.{inplace_merge}
use operating_system_col.KernelList.Order.{IsOrder, Bounds, IsSorted, Bounds-trans}

module _ {ℓ} {A : Type ℓ} {less : A → A → Bool} (order : IsOrder less) where
  pub Bounds-merge :
      (a : A) (xs ys : List A)
      → Bounds less a xs
      → Bounds less a ys
      → Bounds less a (inplace_merge less xs ys)
  unfolding inplace_merge
  Bounds-merge a [] ys p q = q
  Bounds-merge a (x ∷ xs) [] p q = p
  Bounds-merge a (x ∷ xs) (y ∷ ys) p q = elim (Bool-cases (less y x)) [
    | inl e ↦ rw (e, inplace_merge) (q.0, Bounds-merge a (x ∷ xs) ys p q.1)
    | inr e ↦ rw (e, inplace_merge) (p.0, Bounds-merge a xs (y ∷ ys) p.1 q)
  ]

  pub inplace_merge-perm : (xs ys : List A) → Perm (inplace_merge less xs ys) (xs ++ ys)
  unfolding inplace_merge
  inplace_merge-perm [] ys = Perm.refl ys
  inplace_merge-perm (x ∷ xs) [] = rw append-nil (Perm.refl (x ∷ xs))
  inplace_merge-perm (x ∷ xs) (y ∷ ys) = elim (Bool-cases (less y x)) [
    | inl e ↦
        rw (e, inplace_merge)
          (Perm.trans (Perm.cons y (inplace_merge-perm (x ∷ xs) ys))
            (Perm.symm (perm_middle (x ∷ xs) ys)))
    | inr e ↦ rw (e, inplace_merge) (Perm.cons x (inplace_merge-perm xs (y ∷ ys)))
  ]

  pub inplace_merge-IsSorted :
      (xs ys : List A)
      → IsSorted less xs
      → IsSorted less ys
      → IsSorted less (inplace_merge less xs ys)
  unfolding inplace_merge
  inplace_merge-IsSorted [] ys s t = t
  inplace_merge-IsSorted (x ∷ xs) [] s t = s
  inplace_merge-IsSorted (x ∷ xs) (y ∷ ys) s t = elim (Bool-cases (less y x)) [
    | inl e ↦
        let below = order.asym y x e in
        rw (e, inplace_merge)
          (
            Bounds-merge y (x ∷ xs) ys (below, Bounds-trans order y x xs below s.0) t.0,
            inplace_merge-IsSorted (x ∷ xs) ys s t.1,
          )
    | inr e ↦
        rw (e, inplace_merge)
          (
            Bounds-merge x xs (y ∷ ys) s.0 (e, Bounds-trans order x y ys e t.0),
            inplace_merge-IsSorted xs (y ∷ ys) s.1 t,
          )
  ]

  pub length-merge : (xs ys : List A) → length (inplace_merge less xs ys) ≡ length xs + length ys
  unfolding inplace_merge
  length-merge [] ys = omega arith
  length-merge (x ∷ xs) [] = omega arith
  length-merge (x ∷ xs) (y ∷ ys) = elim (Bool-cases (less y x)) [
    | inl e ↦ rw (e, inplace_merge) (omega (arith, length-merge (x ∷ xs) ys))
    | inr e ↦ rw (e, inplace_merge) (omega (arith, length-merge xs (y ∷ ys)))
  ]
