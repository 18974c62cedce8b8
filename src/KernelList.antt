-- ===== src/KernelList.antt =====
-- lib/kernel/list.c: the operations of the kernel's doubly linked list.
-- A list is the sequence of its elements between head and tail. `less` is the comparator that the
-- callers pass (`Compare`, `Compare2`, `Compare3`).
pub mod Order
pub mod Merge
pub mod Runs
pub mod Sort
pub mod Select
pub mod Greatest
pub mod Unique
pub mod Tests
use operating_system_col.Base.{
  ℕ, zero, suc, ◌+◌, Bool, true, false, List, [], ◌∷◌, ◌++◌, length, ltb, if◌then◌else◌, Option,
  none, some, ◌&&◌,
}

module _ {ℓ} {A : Type ℓ} (less : A → A → Bool) where
  -- The loop stops at the first element that the new one is less than.
  unfoldable pub insert_ordered : A → List A → List A
  insert_ordered x [] = x ∷ []
  insert_ordered x (y ∷ ys) = if less x y then x ∷ y ∷ ys else y ∷ insert_ordered x ys

  -- The run that starts at `x`, and what follows it.
  unfoldable pub find_end_of_run : A → List A → List A × List A
  find_end_of_run x [] = (x ∷ [], [])
  find_end_of_run x (y ∷ ys) =
      let (run, rest) = find_end_of_run y ys in
      if less y x then (x ∷ [], y ∷ ys) else (x ∷ run, rest)

  unfoldable pub inplace_merge : List A → List A → List A
  inplace_merge [] ys = ys
  inplace_merge (x ∷ xs) [] = x ∷ xs
  inplace_merge (x ∷ xs) (y ∷ ys) = elim (less y x) [
    | true ↦ y ∷ inplace_merge (x ∷ xs) ys
    | false ↦ x ∷ inplace_merge xs (y ∷ ys)
  ]

  -- The loop of `is_sorted` behind the element `x`.
  unfoldable pub sorted_from : A → List A → Bool
  sorted_from x [] = true
  sorted_from x (y ∷ ys) = if less y x then false else sorted_from y ys

  unfoldable pub is_sorted : List A → Bool
  is_sorted [] = true
  is_sorted (x ∷ xs) = sorted_from x xs

  -- What a round of the inner loop makes of its merged run and of the rest.
  abbrev pub add_run : List A → Option (List A × ℕ) → Option (List A × ℕ)
  add_run merged none = none
  add_run merged (some (l, count)) = some (merged ++ l, suc count)

  -- One pass of `list_sort`, the inner `for` loop: the list that it leaves, and `output_run_cnt`.
  -- `none` is a failed `ASSERT` of `inplace_merge`, or the end of the fuel, which bounds the rounds;
  -- each round removes an element at least.
  unfoldable pub sort_pass : ℕ → List A → Option (List A × ℕ)
  sort_pass zero [] = some ([], 0)
  sort_pass zero (x ∷ xs) = none
  sort_pass (suc fuel) [] = some ([], 0)
  sort_pass (suc fuel) (x ∷ xs) =
      let (run, rest) = find_end_of_run x xs in
      elim rest [
        | [] ↦ some (run, 1)
        | y ∷ ys ↦
            let (second, later) = find_end_of_run y ys in
            elim (is_sorted run && is_sorted second) [
              | false ↦ none
              | true ↦ add_run (inplace_merge run second) (sort_pass fuel later)
            ]
      ]

  -- The outer `do ... while (output_run_cnt > 1)`. The fuel bounds the passes; `none` is its end.
  unfoldable pub sort_loop : ℕ → List A → Option (List A)
  sort_loop zero l = none
  sort_loop (suc fuel) l = elim (sort_pass (length l) l) [
    | none ↦ none
    | some (l', count) ↦ elim (ltb 1 count) [ true ↦ sort_loop fuel l' | false ↦ some l' ]
  ]

  -- The last `ASSERT` of `list_sort`.
  abbrev pub assert_sorted : Option (List A) → Option (List A)
  assert_sorted none = none
  assert_sorted (some l) = if is_sorted l then some l else none

  -- `list_sort` with its `ASSERT`s; `none` is a failed one, or a loop that has not ended.
  unfoldable pub sort_checked : List A → Option (List A)
  sort_checked l = assert_sorted (sort_loop (suc (length l)) l)

  abbrev pub sorted_or : List A → Option (List A) → List A
  sorted_or l none = l
  sorted_or l (some l') = l'

  -- The list that `list_sort` leaves. For the comparators of its callers `sort_checked` is never
  -- `none`.
  unfoldable pub list_sort : List A → List A
  list_sort l = sorted_or l (sort_checked l)
