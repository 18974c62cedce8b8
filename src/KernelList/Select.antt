-- ===== src/KernelList/Select.antt =====
-- lib/kernel/list.c: what `is_sorted` answers, `list_max`, `list_min`, `list_unique`, and the ends of a list.
use operating_system_col.Base.{
  ◌≡◌, ◌≢◌, refl, inl, inr, Bool, true, false, not, ◌&&◌, Option, none, some, List, [], ◌∷◌, ◌++◌,
  ◌↔◌, Bool-cases, if◌then◌else◌,
}
use operating_system_col.KernelList.{sorted_from, is_sorted}
use operating_system_col.KernelList.Order.{IsOrder, Bounds, IsSorted, Bounds-trans}

module _ {ℓ} {A : Type ℓ} where
  -- The end of an empty list is an `ASSERT` that fails.
  unfoldable pub list_front : List A → Option A
  list_front [] = none
  list_front (x ∷ xs) = some x

  unfoldable pub list_pop_front : List A → Option (A × List A)
  list_pop_front [] = none
  list_pop_front (x ∷ xs) = some (x, xs)

module _ {ℓ} {A : Type ℓ} (less : A → A → Bool) where
  -- The loop of `list_max`, `max` being the greatest so far.
  unfoldable pub max_from : A → List A → A
  max_from max [] = max
  max_from max (e ∷ es) = max_from (if less max e then e else max) es

  -- `none` stands for the tail of the list.
  unfoldable pub list_max : List A → Option A
  list_max [] = none
  list_max (x ∷ xs) = some (max_from x xs)

  unfoldable pub min_from : A → List A → A
  min_from min [] = min
  min_from min (e ∷ es) = min_from (if less e min then e else min) es

  unfoldable pub list_min : List A → Option A
  list_min [] = none
  list_min (x ∷ xs) = some (min_from x xs)

  -- The loop of `list_unique` from `elem` on: what stays, and the duplicates in order.
  unfoldable pub unique_from : A → List A → List A × List A
  unique_from elem [] = (elem ∷ [], [])
  unique_from elem (next ∷ rest) =
      let same = unique_from elem rest in
      let other = unique_from next rest in
      if not (less elem next) && not (less next elem)
      then (same.0, next ∷ same.1)
      else (elem ∷ other.0, other.1)

  -- The list, and `duplicates` when it is not NULL.
  unfoldable pub list_unique : List A → List A → List A × List A
  list_unique [] duplicates = ([], duplicates)
  list_unique (x ∷ xs) duplicates =
      let (kept, dropped) = unique_from x xs in (kept, duplicates ++ dropped)

module _ {ℓ} {A : Type ℓ} {less : A → A → Bool} (order : IsOrder less) where
  sorted_from-true :
      (x : A) (l : List A) → sorted_from less x l ≡ true → Bounds less x l × IsSorted less l
  unfolding sorted_from
  sorted_from-true x [] h = (tt, tt)
  sorted_from-true x (y ∷ ys) h = elim (Bool-cases (less y x)) [
    | inl b ↦ absurd (false≢true (rw (b, sorted_from) at h))
    | inr b ↦
        let (bounds, sorted) = sorted_from-true y ys (rw (b, sorted_from) at h) in
        ((b, Bounds-trans order x y ys b bounds), (bounds, sorted))
  ]
    where
      false≢true : false ≢ true
      false≢true q = cc (q)

  sorted_from-IsSorted :
      (x : A) (l : List A) → Bounds less x l → IsSorted less l → sorted_from less x l ≡ true
  unfolding sorted_from
  sorted_from-IsSorted x [] b s = refl
  sorted_from-IsSorted x (y ∷ ys) b s = rw b.0 (sorted_from-IsSorted y ys s.0 s.1)

  -- For every comparator that is an order, `is_sorted`, which compares neighbours only, answers true
  -- exactly if no element of the list is
  -- less than one before it.
  pub is_sorted-IsSorted : (l : List A) → (is_sorted less l ≡ true) ↔ IsSorted less l
  unfolding is_sorted
  is_sorted-IsSorted [] = (λ h. tt, λ s. refl)
  is_sorted-IsSorted (x ∷ xs) =
      (λ h. sorted_from-true x xs h, λ s. sorted_from-IsSorted x xs s.0 s.1)
