-- ===== src/PageReplacement.antt =====
-- G/A6/Top/src/main.c: the simulator of page replacement policies.
-- The five loops of the source differ in what they do with the list of resident pages. The loop is
-- here once, over a `Policy`, and the policies are those of the source. `none` is a step that C
-- leaves undefined: an access through NULL or out of the array `present`, a failed `assert`, or a
-- pointer that was never set.
pub mod Laws
pub mod Resident
pub mod Fifo
pub mod Lru
pub mod Recency
pub mod LastUse
pub mod Belady
pub mod Clock
pub mod NoEviction
pub mod Tests
pub mod Recount
pub mod Lfu
use operating_system_col.Base.{
  ℕ, ◌+◌, ◌-◌, ◌*◌, Bool, true, false, Option, none, some, List, [], ◌∷◌, ◌++◌, ltb, ◌==◌,
  if◌then◌else◌, zero, suc, not, ◌&&◌, ◌||◌,
}

infixl 5 ◌>>=◌
abbrev pub ◌>>=◌ {ℓ κ} : {A : Type ℓ} {B : Type κ} → Option A → (A → Option B) → Option B
none >>= f = none
some a >>= f = f a

-- `struct LinkedList`: the nodes that are reached from `head`, and the field `size`. `tail` is the
-- last of the nodes if there is one. `list_push` and `list_insert` leave the `next` of a new node as
-- `malloc` gives it: `zeroed` says whether that reads as NULL, and `ended` whether the code has set the
-- `next` of the last node to NULL, or `malloc` has. Else a read of that pointer is undefined.
pub record LinkedList (A : Type 0) : Type 0 where
  pub nodes : List A
  pub size : ℕ
  pub ended : Bool

abbrev pub no_nodes : {A : Type 0} → LinkedList A
no_nodes = record { nodes = []; size = 0; ended = true }

abbrev pub is_nil : {A : Type 0} → List A → Bool
is_nil [] = true
is_nil (x ∷ xs) = false

-- An operation that reads the last `next` if the second Boolean is true.
abbrev pub reading : {A : Type 0} {B : Type 0} → Bool → Bool → LinkedList A → Option B → Option B
reading zeroed reads lst r = if not (zeroed || lst.ended) && reads then none else r

abbrev pub pop_head : {A : Type 0} → Bool → LinkedList A → List A → Option (Option A × LinkedList A)
pop_head zeroed lst [] = none
pop_head zeroed lst (x ∷ xs) =
    reading zeroed (is_nil xs) lst (some (some x, record lst { nodes = xs; size = lst.size - 1 }))

-- The inner `none` is the result -1. The new `head` is compared with NULL.
unfoldable pub list_pop : {A : Type 0} → Bool → LinkedList A → Option (Option A × LinkedList A)
list_pop zeroed lst = if lst.size == 0 then some (none, lst) else pop_head zeroed lst lst.nodes

-- `tail->next = node`, which no traversal from `head` sees when `head` is NULL.
abbrev pub link_tail : {A : Type 0} → A → List A → List A
link_tail x [] = []
link_tail x (y ∷ ys) = y ∷ ys ++ x ∷ []

unfoldable pub list_push : {A : Type 0} → Bool → A → LinkedList A → LinkedList A
list_push zeroed x lst = record {
  nodes = if lst.size == 0 then x ∷ [] else link_tail x lst.nodes;
  size = lst.size + 1;
  ended = zeroed;
}

-- A node of the LFU list.
pub record Node : Type 0 where
  pub address : ℕ
  pub count : ℕ

unfoldable pub list_insert : Bool → ℕ → LinkedList Node → LinkedList Node
list_insert zeroed i lst =
    let node : Node = record { address = i; count = 1 } in
    record {
      nodes = if lst.size == 0 then node ∷ [] else node ∷ lst.nodes;
      size = lst.size + 1;
      ended = if lst.size == 0 then zeroed else lst.ended;
    }

-- `move_back` for an address that is not at the head: the list behind the head with the node moved
-- to its end, or `none` if there is no such node.
unfoldable pub bubble : ℕ → List ℕ → Option (List ℕ)
bubble i [] = none
bubble i (x ∷ xs) =
    let rest = bubble i xs in if x == i then some (xs ++ x ∷ []) else (rest >>= λ ys. some (x ∷ ys))

-- When the node at the head is the only one, `head` is set to its `next`, which is NULL, and is not
-- set again. A node that is not found leaves the list as it is, and then the caller's `assert`
-- fails.
abbrev pub move_nodes : ℕ → List ℕ → Option (List ℕ)
move_nodes i [] = none
move_nodes i (x ∷ xs) =
    if x == i then some (link_tail x xs) else (bubble i xs >>= λ ys. some (x ∷ ys))

-- At the head only the `next` of the head is read; elsewhere the code goes on to the end of the list.
abbrev pub move_reads : ℕ → List ℕ → Bool
move_reads i [] = true
move_reads i (x ∷ xs) = if x == i then is_nil xs else true

-- The moved node gets NULL as its `next`.
unfoldable pub move_back : Bool → ℕ → LinkedList ℕ → Option (LinkedList ℕ)
move_back zeroed i lst =
    reading zeroed (move_reads i lst.nodes) lst
      (move_nodes i lst.nodes >>= λ ns. some (record lst { nodes = ns; ended = true }))

-- The node goes behind the nodes of a lower count that follow it.
unfoldable pub settle : Node → List Node → List Node
settle x [] = x ∷ []
settle x (y ∷ ys) = if ltb y.count x.count then y ∷ settle x ys else x ∷ y ∷ ys

unfoldable pub recount : ℕ → List Node → Option (List Node)
recount i [] = none
recount i (x ∷ xs) =
    let rest = recount i xs in
    if x.address == i
    then some (settle (record x { count = x.count + 1 }) xs)
    else (rest >>= λ ys. some (x ∷ ys))

abbrev pub count_nodes : ℕ → List Node → Option (List Node)
count_nodes i [] = some []
count_nodes i (x ∷ xs) = recount i (x ∷ xs)

-- Whether the walk behind a node with this new count reads the last `next`.
abbrev pub settle_reads : ℕ → List Node → Bool
settle_reads count [] = true
settle_reads count (y ∷ ys) =
    let rest = settle_reads count ys in if ltb y.count count then rest else false

-- Whether `update_count` does.
abbrev pub count_reads : ℕ → List Node → Bool
count_reads i [] = false
count_reads i (x ∷ []) = true
count_reads i (x ∷ y ∷ ys) =
    let rest = count_reads i (y ∷ ys) in
    if x.address == i then settle_reads (x.count + 1) (y ∷ ys) else rest

unfoldable pub update_count : Bool → ℕ → LinkedList Node → Option (LinkedList Node)
update_count zeroed i lst =
    reading zeroed (count_reads i lst.nodes) lst
      (count_nodes i lst.nodes >>= λ ns. some (record lst { nodes = ns }))

-- What the loops need of their list. `add` has the time of the round, which the clock keeps.
pub record Policy (S : Type 0) : Type 0 where
  pub size : S → ℕ
  pub pop : S → Option (Option ℕ × S)
  pub add : ℕ → ℕ → S → S
  pub touch : ℕ → S → Option S

abbrev pub fifo : Bool → Policy (LinkedList ℕ)
fifo zeroed = record {
  size = λ l. l.size;
  pop = list_pop zeroed;
  add = λ t i l. list_push zeroed i l;
  touch = λ i l. some l;
}

abbrev pub lru : Bool → Policy (LinkedList ℕ)
lru zeroed = record {
  size = λ l. l.size;
  pop = list_pop zeroed;
  add = λ t i l. list_push zeroed i l;
  touch = move_back zeroed;
}

abbrev pub address_of : Option Node × LinkedList Node → Option (Option ℕ × LinkedList Node)
address_of (none, l) = some (none, l)
address_of (some x, l) = some (some x.address, l)

abbrev pub lfu : Bool → Policy (LinkedList Node)
lfu zeroed = record {
  size = λ l. l.size;
  pop = λ l. list_pop zeroed l >>= address_of;
  add = λ t i l. list_insert zeroed i l;
  touch = update_count zeroed;
}

-- The state of a loop: its list, the array `present` and the count of faults.
pub record Table (S : Type 0) : Type 0 where
  pub list : S
  pub present : ℕ → Bool
  pub page_faults : ℕ

-- `present` has `frames + 5` entries.
unfoldable pub read_present : {S : Type 0} → ℕ → ℕ → Table S → Option Bool
read_present frames i t = if ltb i (frames + 5) then some (t.present i) else none

-- The index `none` is -1.
unfoldable pub write_present : {S : Type 0} → ℕ → Option ℕ → Bool → Table S → Option (Table S)
write_present frames none b t = none
write_present frames (some i) b t =
    if ltb i (frames + 5)
    then some (record t { present = λ j. if j == i then b else t.present j })
    else none

module _ {S : Type 0} (p : Policy S) (pages frames : ℕ) where
  unfoldable pub hit : ℕ → Table S → Option (Table S)
  hit i t = p.touch i t.list >>= λ l. some (record t { list = l })

  unfoldable pub load : ℕ → ℕ → Table S → Option (Table S)
  load timer i t =
      write_present frames (some i) true
        (record t { list = p.add timer i t.list; page_faults = t.page_faults + 1 })

  unfoldable pub replace : ℕ → ℕ → Table S → Option (Table S)
  replace timer i t = do
    (rem, l) ← p.pop t.list
    t' ←
        write_present frames (some i) true
          (record t { list = p.add timer i l; page_faults = t.page_faults + 1 })
    write_present frames rem false t'

  -- One turn of the loop, on the page `i`.
  unfoldable pub round : ℕ → ℕ → Table S → Option (Table S)
  round timer i t = do
    present ← read_present frames i t
    if p.size t.list == pages
        then (if present then hit i t else replace timer i t)
        else (if present then hit i t else load timer i t)

  -- The loop. The list has the value of `i` in each turn.
  unfoldable pub simulate : ℕ → List ℕ → Table S → Option (Table S)
  simulate timer [] t = some t
  simulate timer (i ∷ is) t = round timer i t >>= simulate (timer + 1) is

abbrev pub start : {S : Type 0} → S → Table S
start s = record { list = s; present = λ i. false; page_faults = 0 }

-- The functions `FIFO`, `LFU` and `LRU`, on the numbers that they read from the file; `zeroed` says
-- whether the memory that `malloc` gives reads as NULL.
unfoldable pub run_fifo : Bool → ℕ → ℕ → List ℕ → Option (Table (LinkedList ℕ))
run_fifo zeroed pages frames refs = simulate (fifo zeroed) pages frames 0 refs (start no_nodes)

unfoldable pub run_lfu : Bool → ℕ → ℕ → List ℕ → Option (Table (LinkedList Node))
run_lfu zeroed pages frames refs = simulate (lfu zeroed) pages frames 0 refs (start no_nodes)

unfoldable pub run_lru : Bool → ℕ → ℕ → List ℕ → Option (Table (LinkedList ℕ))
run_lru zeroed pages frames refs = simulate (lru zeroed) pages frames 0 refs (start no_nodes)
