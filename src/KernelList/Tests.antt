-- ===== src/KernelList/Tests.antt =====
-- Runs of the list functions, and the theorems at them.
use mathlib.Core.List.{Perm}
use operating_system_col.Base.{ℕ, ◌≡◌, some, List, [], ◌∷◌}
use operating_system_col.KernelList.{list_sort, sort_checked}
use operating_system_col.KernelList.Order.{IsSorted, by_key, by_key-IsOrder}
use operating_system_col.KernelList.Sort.{list_sort_lem}

abbrev numbers : List ℕ
numbers = 3 ∷ 1 ∷ 4 ∷ 1 ∷ 5 ∷ []

list_sort_lem_example :
    Perm (list_sort (by_key (λ (n : ℕ). n)) numbers) numbers
    × IsSorted (by_key (λ (n : ℕ). n)) (list_sort (by_key (λ (n : ℕ). n)) numbers)
    × (sort_checked (by_key (λ (n : ℕ). n)) numbers
        ≡ some (list_sort (by_key (λ (n : ℕ). n)) numbers))
list_sort_lem_example = list_sort_lem (by_key-IsOrder λ (n : ℕ). n) numbers
