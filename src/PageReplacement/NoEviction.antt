-- ===== src/PageReplacement/NoEviction.antt =====
-- The first eviction of `Clock`.
use operating_system_col.Base.{
  Bool, ℕ, suc, ◌+◌, ◌*◌, ◌≤◌, ◌<◌, ◌≡◌, refl, sym, ap, ◌∙◌, inl, inr, Bool, false, Option, none,
  some, List, [], ◌∷◌, ◌++◌, length, arith, Bool-cases, ltb, ◌==◌, All, append_assoc,
}
use operating_system_col.PageReplacement.{
  ◌>>=◌, LinkedList, no_nodes, Table, start, read_present, write_present, hit, load, replace, round,
  simulate,
}
use operating_system_col.PageReplacement.Clock.{
  pos, increase, ClockNode, list_insert_D, sweep, visit, choose, remove_chosen, list_pop_D,
  use_again, set_use_bit, n_chance, run_clock,
}

-- The bit of every node is set.
abbrev pub AllSet : List ClockNode → Type 0
AllSet = All λ x. (n : ℕ) × (x.use_bit ≡ pos (suc n))

-- On such a ring, one sweep chooses no node.
sweep-none : (xs ys : List ClockNode) → AllSet xs → (sweep 1 (length xs) (xs ++ ys) none).1 ≡ none
unfolding sweep
sweep-none [] ys a = refl
sweep-none (x ∷ xs) ys a =
    let none_chosen : choose 1 x none ≡ none = rw a.0.1 (ground arith) in
    rw none_chosen (
      ap (λ l. (sweep 1 (length xs) l none).1) (append_assoc xs ys (visit 1 x ∷ []))
      ∙ sweep-none xs (ys ++ visit 1 x ∷ []) a.1)

behind_sweep :
    (size : ℕ) (out : List ClockNode × Option ClockNode)
    → out.1 ≡ none
    → remove_chosen size out ≡ none
behind_sweep size (ring, none) e = refl
behind_sweep size (ring, some r) e = cc

append_nothing : (l : List ClockNode) → l ++ [] ≡ l
append_nothing [] = refl
append_nothing (x ∷ l) = ap (λ r. x ∷ r) (append_nothing l)

popped_nothing :
    (nodes : List ClockNode) (size : ℕ) (ended : Bool)
    → size ≡ length nodes
    → 0 < size
    → AllSet nodes
    → list_pop_D 1 (record { nodes = nodes; size = size; ended = ended }) ≡ none
unfolding list_pop_D
popped_nothing nodes size ended v h a =
    let some_left : (size == 0) ≡ false = ground arith in
    let once : size * 1 ≡ length nodes = omega (arith, v) in
    rw (some_left, once)
      (behind_sweep size (sweep 1 (length nodes) nodes none) (
        ap (λ l. (sweep 1 (length nodes) l none).1) (sym (append_nothing nodes))
        ∙ sweep-none nodes [] a))

-- The step, if it is defined, leads to a state with the property.
abbrev pub IfDefined {ℓ} : {A : Type ℓ} → (A → Type 0) → Option A → Type 0
IfDefined P none = Unit
IfDefined P (some a) = P a

IfDefined-bind {ℓ κ} :
    {A : Type ℓ} {B : Type κ} (P : A → Type 0) (Q : B → Type 0) (o : Option A) (f : A → Option B)
    → IfDefined P o
    → ((a : A) → P a → IfDefined Q (f a))
    → IfDefined Q (o >>= f)
IfDefined-bind P Q none f p g = tt
IfDefined-bind P Q (some a) f p g = g a p

-- Nothing has left the ring yet.
pub record Unevicted (capacity : ℕ) (t : Table (LinkedList ClockNode)) : Type 0 where
  pub set : AllSet t.list.nodes
  pub counted : t.list.size ≡ length t.list.nodes
  pub all_faults : t.page_faults ≡ t.list.size
  pub bounded : t.list.size ≤ capacity

used_again :
    (i : ℕ) (l : List ClockNode)
    → AllSet l
    → IfDefined (λ l'. AllSet l' × (length l' ≡ length l)) (use_again i l)
unfolding use_again
used_again i [] a = tt
used_again i (x ∷ xs) a = elim (Bool-cases (x.address == i)) [
  | inl e ↦ rw (e, use_again) (((suc a.0.0, ap increase a.0.1), a.1), refl)
  | inr e ↦
      rw (e, use_again)
        (IfDefined-bind (λ l'. AllSet l' × (length l' ≡ length xs))
          (λ l'. AllSet l' × (length l' ≡ suc (length xs))) (use_again i xs) _ (used_again i xs a.1)
          λ ys (b, n). ((a.0, b), ap suc n))
]

inserted :
    (timer i : ℕ) (nodes : List ClockNode) (size : ℕ) (ended : Bool)
    → size ≡ length nodes
    → AllSet nodes
    → (size + 1
        ≡ length
            (list_insert_D timer i (record { nodes = nodes; size = size; ended = ended })).nodes)
      × AllSet (list_insert_D timer i (record { nodes = nodes; size = size; ended = ended })).nodes
unfolding list_insert_D
inserted timer i nodes size ended v a = elim (Bool-cases (size == 0)) [
  | inl e ↦ rw e (ground arith, ((0, refl), tt))
  | inr e ↦ rw e (omega (arith, v), ((0, refl), a))
]

module _ (capacity frames : ℕ) (some_room : 0 < capacity) where
  hit-Unevicted :
      (i : ℕ) (t : Table (LinkedList ClockNode))
      → Unevicted capacity t
      → IfDefined (Unevicted capacity) (hit (n_chance 1) capacity frames i t)
  unfolding hit set_use_bit
  hit-Unevicted i t u =
      IfDefined-bind
        (λ (l : LinkedList ClockNode).
          AllSet l.nodes × (l.size ≡ length l.nodes) × (l.size ≡ t.list.size))
        (Unevicted capacity) (set_use_bit i t.list) _
        (IfDefined-bind _ _ (use_again i t.list.nodes) _ (used_again i t.list.nodes u.set)
          λ ns (b, n). (b, u.counted ∙ sym n, refl))
        λ l (b, c, z). record {
          set = b;
          counted = c;
          all_faults = u.all_faults ∙ sym z;
          bounded = omega (arith, u.bounded, z);
        }

  load-Unevicted :
      (timer i : ℕ) (t : Table (LinkedList ClockNode))
      → Unevicted capacity t
      → t.list.size < capacity
      → IfDefined (Unevicted capacity) (load (n_chance 1) capacity frames timer i t)
  unfolding load write_present list_insert_D
  load-Unevicted timer i t u room = elim (Bool-cases (ltb i (frames + 5))) [
    | inl e ↦
        let (grown, set) = inserted timer i t.list.nodes t.list.size t.list.ended u.counted u.set in
        rw e (record {
          set = set;
          counted = grown;
          all_faults = omega (arith, u.all_faults);
          bounded = omega (arith, room);
        })
    | inr e ↦ rw e tt
  ]

  replace-undefined :
      (timer i : ℕ) (t : Table (LinkedList ClockNode))
      → Unevicted capacity t
      → 0 < t.list.size
      → replace (n_chance 1) capacity frames timer i t ≡ none
  unfolding replace
  replace-undefined timer i t u h =
      rw (popped_nothing t.list.nodes t.list.size t.list.ended u.counted h u.set) refl

  round-Unevicted :
      (timer i : ℕ) (t : Table (LinkedList ClockNode))
      → Unevicted capacity t
      → IfDefined (Unevicted capacity) (round (n_chance 1) capacity frames timer i t)
  unfolding round
  round-Unevicted timer i t u =
      IfDefined-bind (λ _. Unit) (Unevicted capacity) (read_present frames i t) _ (read i)
        λ present _. elim (Bool-cases (t.list.size == capacity)) [
          | inl e ↦ elim (Bool-cases present) [
            | inl b ↦ rw (e, b) (hit-Unevicted i t u)
            | inr b ↦ rw (e, b, replace-undefined timer i t u (ground arith)) tt
          ]
          | inr e ↦ elim (Bool-cases present) [
            | inl b ↦ rw (e, b) (hit-Unevicted i t u)
            | inr b ↦ rw (e, b) (load-Unevicted timer i t u (ground (arith, u.bounded)))
          ]
        ]
    where
      always : (o : Option Bool) → IfDefined (λ _. Unit) o
      always none = tt
      always (some b) = tt

      read : (j : ℕ) → IfDefined (λ _. Unit) (read_present frames j t)
      read j = always (read_present frames j t)

  simulate-Unevicted :
      (timer : ℕ) (refs : List ℕ) (t : Table (LinkedList ClockNode))
      → Unevicted capacity t
      → IfDefined (Unevicted capacity) (simulate (n_chance 1) capacity frames timer refs t)
  unfolding simulate
  simulate-Unevicted timer [] t u = u
  simulate-Unevicted timer (i ∷ refs) t u =
      IfDefined-bind (Unevicted capacity) (Unevicted capacity)
        (round (n_chance 1) capacity frames timer i t) _ (round-Unevicted timer i t u)
        λ t' u'. simulate-Unevicted (timer + 1) refs t' u'

-- With at least one page frame, a run of `Clock` that C defines to its end has evicted nothing: its
-- faults are the nodes of its ring, at most as many as there are page frames, and every bit is
-- still set. So `Clock` is undefined from the first fault at which the frames are full:
-- `list_pop_D` then returns through `rem`, which was never set.
pub run_clock-Unevicted :
    (pages frames : ℕ) (refs : List ℕ)
    → 0 < pages
    → IfDefined (Unevicted pages) (run_clock pages frames refs)
unfolding run_clock
run_clock-Unevicted pages frames refs room =
    simulate-Unevicted pages frames room 0 refs (start no_nodes)
      (record { set = tt; counted = refl; all_faults = refl; bounded = omega arith })
