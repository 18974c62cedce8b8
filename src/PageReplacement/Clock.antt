-- ===== src/PageReplacement/Clock.antt =====
-- The ring of the functions `Clock` and `N_Chance` of G/A6/Top/src/main.c.
use operating_system_col.Base.{
  ℕ, zero, suc, ◌+◌, ◌-◌, ◌*◌, Bool, true, false, Option, none, some, List, [], ◌∷◌, ◌++◌,
  if◌then◌else◌, ltb, ◌==◌,
}
use operating_system_col.PageReplacement.{
  ◌>>=◌, LinkedList, no_nodes, Policy, Table, start, simulate,
}

-- The integers, for `useBit`, which is compared with `1 - n` and may fall below 0.
pub data ℤ : Type 0 where
  pos : ℕ → ℤ
  negsuc : ℕ → ℤ

abbrev pub increase : ℤ → ℤ
increase (pos n) = pos (suc n)
increase (negsuc zero) = pos 0
increase (negsuc (suc n)) = negsuc n

abbrev pub decrease : ℤ → ℤ
decrease (pos zero) = negsuc 0
decrease (pos (suc n)) = pos n
decrease (negsuc n) = negsuc (suc n)

abbrev pub one_minus : ℕ → ℤ
one_minus zero = pos 1
one_minus (suc zero) = pos 0
one_minus (suc (suc n)) = negsuc n

abbrev pub equal : ℤ → ℤ → Bool
equal (pos m) (pos n) = m == n
equal (pos m) (negsuc n) = false
equal (negsuc m) (pos n) = false
equal (negsuc m) (negsuc n) = m == n

-- A node of the ring.
pub record ClockNode : Type 0 where
  pub address : ℕ
  pub insert_time : ℕ
  pub use_bit : ℤ

-- The nodes of a ring are those from `hand` on, once around. The new node is put before `hand`,
-- and `hand` is set to it.
unfoldable pub list_insert_D : ℕ → ℕ → LinkedList ClockNode → LinkedList ClockNode
list_insert_D t i lst =
    let node : ClockNode = record { address = i; insert_time = t; use_bit = pos 1 } in
    record {
      nodes = if lst.size == 0 then node ∷ [] else node ∷ lst.nodes;
      size = lst.size + 1;
      ended = true;
    }

-- `INT_MAX`
abbrev pub int_max : ℕ
int_max = 2147483647

-- `rem` and `mn` after a node whose `useBit` is `1 - n`; `none` is `rem` before it is set.
abbrev pub earlier : ClockNode → Option ClockNode → Option ClockNode
earlier x none = if ltb x.insert_time int_max then some x else none
earlier x (some r) = if ltb x.insert_time r.insert_time then some x else some r

abbrev pub visit : ℕ → ClockNode → ClockNode
visit n x = if equal x.use_bit (one_minus n) then x else record x { use_bit = decrease x.use_bit }

abbrev pub choose : ℕ → ClockNode → Option ClockNode → Option ClockNode
choose n x rem = if equal x.use_bit (one_minus n) then earlier x rem else rem

-- The loop of `list_pop_D`, for a number of rounds that is left, on the ring from `temp` on.
unfoldable pub sweep : ℕ → ℕ → List ClockNode → Option ClockNode → List ClockNode × Option ClockNode
sweep n zero ring rem = (ring, rem)
sweep n (suc steps) [] rem = ([], rem)
sweep n (suc steps) (x ∷ xs) rem = sweep n steps (xs ++ visit n x ∷ []) (choose n x rem)

-- The node is known by its address: no page stands in the ring twice.
abbrev pub unlink : ℕ → List ClockNode → List ClockNode
unlink a [] = []
unlink a (x ∷ xs) = if x.address == a then xs else x ∷ unlink a xs

-- Behind the loop. `rem` is read even if it was never set.
abbrev pub remove_chosen :
    ℕ → List ClockNode × Option ClockNode → Option (Option ℕ × LinkedList ClockNode)
remove_chosen size (ring, none) = none
remove_chosen size (ring, some r) =
    some (some r.address, record { nodes = unlink r.address ring; size = size - 1; ended = true })

unfoldable pub list_pop_D : ℕ → LinkedList ClockNode → Option (Option ℕ × LinkedList ClockNode)
list_pop_D n lst =
    if lst.size == 0
    then some (none, lst)
    else remove_chosen lst.size (sweep n (lst.size * n) lst.nodes none)

-- `none`: the loop never ends if no node has the address.
unfoldable pub use_again : ℕ → List ClockNode → Option (List ClockNode)
use_again i [] = none
use_again i (x ∷ xs) =
    let rest = use_again i xs in
    if x.address == i
    then some (record x { use_bit = increase x.use_bit } ∷ xs)
    else (rest >>= λ ys. some (x ∷ ys))

unfoldable pub set_use_bit : ℕ → LinkedList ClockNode → Option (LinkedList ClockNode)
set_use_bit i lst = use_again i lst.nodes >>= λ ns. some (record lst { nodes = ns })

abbrev pub n_chance : ℕ → Policy (LinkedList ClockNode)
n_chance n = record {
  size = λ l. l.size;
  pop = list_pop_D n;
  add = list_insert_D;
  touch = set_use_bit;
}

-- `N_Chance`; `Clock` is the same with 1 for `n`.
unfoldable pub run_n_chance : ℕ → ℕ → ℕ → List ℕ → Option (Table (LinkedList ClockNode))
run_n_chance n pages frames refs = simulate (n_chance n) pages frames 0 refs (start no_nodes)

unfoldable pub run_clock : ℕ → ℕ → List ℕ → Option (Table (LinkedList ClockNode))
run_clock pages frames refs = simulate (n_chance 1) pages frames 0 refs (start no_nodes)
