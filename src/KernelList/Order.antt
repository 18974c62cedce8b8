-- ===== src/KernelList/Order.antt =====
-- Ordered lists, and `list_insert_ordered`.
use mathlib.Core.List.{Perm}
use mathlib.Core.List.Perm
use operating_system_col.Base.{
  ◌≡◌, refl, ap, inl, inr, Bool, true, false, List, [], ◌∷◌, ◌++◌, All, arith, Bool-cases, ltb, ℕ,
}
use operating_system_col.KernelList.{insert_ordered}

-- What the list code needs of a comparator: "not less" is reflexive enough and transitive.
pub record IsOrder {ℓ} {A : Type ℓ} (less : A → A → Bool) : Type ℓ where
  pub asym : (a b : A) → less a b ≡ true → less b a ≡ false
  pub not_less_trans : (a b c : A) → less b a ≡ false → less c b ≡ false → less c a ≡ false

-- The comparators of the kernel: the greater key comes first.
abbrev pub by_key {ℓ} : {A : Type ℓ} → (A → ℕ) → A → A → Bool
by_key key a b = ltb (key b) (key a)

pub by_key-IsOrder {ℓ} : {A : Type ℓ} (key : A → ℕ) → IsOrder (by_key key)
by_key-IsOrder key = record {
  asym = λ a b h. ground arith;
  not_less_trans = λ a b c h k. ground arith;
}

module _ {ℓ} {A : Type ℓ} (less : A → A → Bool) where
  -- No element of the list is less than `x`.
  abbrev pub Bounds : A → List A → Type 0
  Bounds x = All (λ y. less y x ≡ false)

  abbrev pub IsSorted : List A → Type 0
  IsSorted [] = Unit
  IsSorted (x ∷ xs) = Bounds x xs × IsSorted xs

module _ {ℓ} {A : Type ℓ} (less : A → A → Bool) (P : A → Type 0) where
  pub All-insert : (x : A) (l : List A) → P x → All P l → All P (insert_ordered less x l)
  unfolding insert_ordered
  All-insert x [] p q = (p, tt)
  All-insert x (y ∷ l) p q = elim (Bool-cases (less x y)) [
    | inl e ↦ rw e (p, q)
    | inr e ↦ rw e (q.0, All-insert x l p q.1)
  ]

  pub All-insert_inv : (x : A) (l : List A) → All P (insert_ordered less x l) → P x × All P l
  unfolding insert_ordered
  All-insert_inv x [] p = (p.0, tt)
  All-insert_inv x (y ∷ l) p = elim (Bool-cases (less x y)) [
    | inl e ↦ rw (e, insert_ordered) at p
    | inr e ↦
        let q = rw (e, insert_ordered) at p in let r = All-insert_inv x l q.1 in (r.0, (q.0, r.1))
  ]

module _ {ℓ} {A : Type ℓ} {less : A → A → Bool} (order : IsOrder less) where
  pub Bounds-trans : (a b : A) (l : List A) → less b a ≡ false → Bounds less b l → Bounds less a l
  Bounds-trans a b [] h p = tt
  Bounds-trans a b (c ∷ l) h p = (order.not_less_trans a b c h p.0, Bounds-trans a b l h p.1)

  pub Bounds-insert :
      (a x : A) (l : List A)
      → less x a ≡ false
      → Bounds less a l
      → Bounds less a (insert_ordered less x l)
  unfolding insert_ordered
  Bounds-insert a x [] h p = (h, tt)
  Bounds-insert a x (y ∷ l) h p = elim (Bool-cases (less x y)) [
    | inl e ↦ rw e (h, p)
    | inr e ↦ rw e (p.0, Bounds-insert a x l h p.1)
  ]

  pub insert_ordered-IsSorted :
      (x : A) (l : List A) → IsSorted less l → IsSorted less (insert_ordered less x l)
  unfolding insert_ordered
  insert_ordered-IsSorted x [] s = (tt, tt)
  insert_ordered-IsSorted x (y ∷ l) s = elim (Bool-cases (less x y)) [
    | inl e ↦ rw e ((order.asym x y e, Bounds-trans x y l (order.asym x y e) s.0), s)
    | inr e ↦ rw e (Bounds-insert y x l e s.0, insert_ordered-IsSorted x l s.1)
  ]

  pub insert_ordered-perm : (x : A) (l : List A) → Perm (insert_ordered less x l) (x ∷ l)
  unfolding insert_ordered
  insert_ordered-perm x [] = Perm.refl _
  insert_ordered-perm x (y ∷ l) = elim (Bool-cases (less x y)) [
    | inl e ↦ rw e (Perm.refl _)
    | inr e ↦ rw e (Perm.trans (Perm.cons y (insert_ordered-perm x l)) (Perm.swap x y l))
  ]

-- Where `insert_ordered` puts `x`: behind everything that it is not less than, before the rest.
pub record Placed {ℓ} {A : Type ℓ} (less : A → A → Bool) (x : A) (l out : List A) : Type ℓ where
  pub front : List A
  pub back : List A
  pub before : l ≡ front ++ back
  pub after : out ≡ front ++ x ∷ back
  pub not_less : All (λ y. less x y ≡ false) front
  pub bounds : All (λ y. less y x ≡ false) back

module _ {ℓ} {A : Type ℓ} {less : A → A → Bool} (order : IsOrder less) where
  Placed-cons :
      (x y : A) (l out : List A)
      → less x y ≡ false
      → Placed less x l out
      → Placed less x (y ∷ l) (y ∷ out)
  Placed-cons x y l out e p = record {
    front = y ∷ p.front;
    back = p.back;
    before = ap (λ r. y ∷ r) p.before;
    after = ap (λ r. y ∷ r) p.after;
    not_less = (e, p.not_less);
    bounds = p.bounds;
  }

  -- Into a list in order, `list_insert_ordered` puts an element behind all elements that it is not
  -- less than, so behind those of its own key, and before elements none of which is less than it.
  -- Nothing else moves.
  pub insert_ordered-Placed :
      (x : A) (l : List A) → IsSorted less l → Placed less x l (insert_ordered less x l)
  unfolding insert_ordered
  insert_ordered-Placed x [] s = record {
    front = [];
    back = [];
    before = refl;
    after = refl;
    not_less = tt;
    bounds = tt;
  }
  insert_ordered-Placed x (y ∷ l) s = elim (Bool-cases (less x y)) [
    | inl e ↦ rw e (record {
      front = [];
      back = y ∷ l;
      before = refl;
      after = refl;
      not_less = tt;
      bounds = (order.asym x y e, Bounds-trans order x y l (order.asym x y e) s.0);
    })
    | inr e ↦ rw e (Placed-cons x y l (insert_ordered less x l) e (insert_ordered-Placed x l s.1))
  ]
