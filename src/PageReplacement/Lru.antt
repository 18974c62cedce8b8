-- ===== src/PageReplacement/Lru.antt =====
-- `move_back`, and LRU over it.
use operating_system_col.Base.{
  Bool, ℕ, suc, ◌+◌, ◌≤◌, ◌<◌, ◌≡◌, ◌≢◌, refl, sym, ap, ◌∙◌, inl, inr, true, false, none, some,
  List, [], ◌∷◌, ◌++◌, length, arith, if◌then◌else◌, Bool-cases, lt→ltb, ◌==◌, All, length-append,
}
use operating_system_col.PageReplacement.{
  LinkedList, no_nodes, list_pop, list_push, bubble, move_nodes, move_back, lru, Table, start,
  read_present, write_present, hit, load, round, simulate, run_lru,
}
use operating_system_col.PageReplacement.Laws.{count, Succeeds, Succeeds-bind, Succeeds-mono, Laws}
use operating_system_col.PageReplacement.Resident.{Resident, Ran, simulate-Ran}
use operating_system_col.PageReplacement.Fifo.{
  IsCounted, count-append, Popped, list_pop-Popped, list_push-IsCounted, list_push-size,
  count-list_push, front_Entered, front_Evicted,
}

-- The same pages in another order, `i` at the end.
pub record Moved (i : ℕ) (l l' : List ℕ) : Type 0 where
  pub len : length l' ≡ length l
  pub counts : (j : ℕ) → count j l' ≡ count j l
  pub others : List ℕ
  pub last : l' ≡ others ++ i ∷ []

Moved-end : (i x : ℕ) (xs : List ℕ) → x ≡ i → Moved i (x ∷ xs) (xs ++ x ∷ [])
Moved-end i x xs e = record {
  len = omega (arith, length-append xs (x ∷ []));
  counts = λ j. omega (arith, count-append j xs (x ∷ []));
  others = xs;
  last = ap (λ y. xs ++ y ∷ []) e;
}

Moved-cons : (i x : ℕ) (l l' : List ℕ) → Moved i l l' → Moved i (x ∷ l) (x ∷ l')
Moved-cons i x l l' m = record {
  len = ap suc m.len;
  counts = λ j. omega (arith, m.counts j);
  others = x ∷ m.others;
  last = ap (λ r. x ∷ r) m.last;
}

bubble-Moved : (i : ℕ) (l : List ℕ) → 0 < count i l → Succeeds (Moved i l) (bubble i l)
unfolding bubble
bubble-Moved i [] h = absurd (omega arith)
bubble-Moved i (x ∷ xs) h = elim (Bool-cases (x == i)) [
  | inl e ↦ rw (e, bubble) (Moved-end i x xs (ground arith))
  | inr e ↦
      rw (e, bubble)
        (Succeeds-bind (Moved i xs) (Moved i (x ∷ xs)) (bubble i xs) _
          (bubble-Moved i xs (ground arith)) λ ys m. Moved-cons i x xs ys m)
]

move_nodes-Moved :
    (i : ℕ) (l : List ℕ) → 2 ≤ length l → 0 < count i l → Succeeds (Moved i l) (move_nodes i l)
move_nodes-Moved i [] n h = absurd (omega arith)
move_nodes-Moved i (x ∷ []) n h = absurd (omega arith)
move_nodes-Moved i (x ∷ y ∷ xs) n h = elim (Bool-cases (x == i)) [
  | inl e ↦ rw e (Moved-end i x (y ∷ xs) (ground arith))
  | inr e ↦ rw e (
      Succeeds-bind (Moved i (y ∷ xs)) (Moved i (x ∷ y ∷ xs)) (bubble i (y ∷ xs)) _
        (bubble-Moved i (y ∷ xs) (ground arith)) λ ys m. Moved-cons i x (y ∷ xs) ys m)
]

-- A list that `move_back` does not break: one of two nodes or more.
pub record IsBusy (l : LinkedList ℕ) : Type 0 where
  pub counted : IsCounted l
  pub two : 2 ≤ l.size

pub record MovedBack (i : ℕ) (l l' : LinkedList ℕ) : Type 0 where
  pub busy : IsBusy l'
  pub same_size : l'.size ≡ l.size
  pub moved : Moved i l.nodes l'.nodes

-- On a list of two nodes or more that holds the page, `move_back` is defined, puts the page at the
-- end, and neither loses nor adds a page.
pub move_back-MovedBack :
    (i : ℕ) (l : LinkedList ℕ)
    → IsBusy l
    → 0 < count i l.nodes
    → Succeeds (MovedBack i l) (move_back true i l)
unfolding move_back
move_back-MovedBack i l b h =
    Succeeds-bind (Moved i l.nodes) (MovedBack i l) (move_nodes i l.nodes) _
      (move_nodes-Moved i l.nodes (omega (arith, b.counted, b.two)) h)
      λ ns m. record {
        busy = record { counted = b.counted ∙ sym m.len; two = b.two };
        same_size = refl;
        moved = m;
      }

abbrev pub lru_laws : Laws (lru true)
lru_laws = record {
  pages = λ l. l.nodes;
  Valid = IsBusy;
  size-length = λ l b. b.counted;
  evicts = λ timer i l b h.
      Succeeds-mono (Popped l) _ (list_pop true l) (list_pop-Popped l b.counted h) λ out q.
        let (r, n) = front_Evicted i l out q in
        record {
          victim = q.front;
          is_victim = q.is_front;
          entered = front_Entered IsBusy i l out q (record {
            counted = list_push-IsCounted i out.1 q.counted;
            two = omega (arith, n, b.two);
          });
          resident = r;
          same_size = n;
        };
  adds = λ timer i l b. (
    record {
      valid = record {
        counted = list_push-IsCounted i l b.counted;
        two = omega (arith, list_push-size i l, b.two);
      };
      counts = λ j. omega (arith, count-list_push i j l b.counted);
    },
    list_push-size i l,
  );
  touches = λ i l b h.
      Succeeds-mono (MovedBack i l) _ (move_back true i l) (move_back-MovedBack i l b h)
        λ l' m. (m.busy, m.same_size, m.moved.counts);
}

pub round-hit :
    (zeroed : Bool) (pages frames timer i : ℕ) (t : Table (LinkedList ℕ))
    → i < frames + 5
    → t.present i ≡ true
    → round (lru zeroed) pages frames timer i t ≡ hit (lru zeroed) pages frames i t
unfolding round read_present
round-hit zeroed pages frames timer i t h e = elim (Bool-cases (t.list.size == pages)) [
  | inl f ↦ rw (lt→ltb i (frames + 5) h, e, f) refl
  | inr f ↦ rw (lt→ltb i (frames + 5) h, e, f) refl
]

-- The state in which only the page `i` is resident, with the nodes that `head` leads to.
abbrev only : Bool → ℕ → List ℕ → Table (LinkedList ℕ)
only ended i nodes = record {
  list = record { nodes = nodes; size = 1; ended = ended };
  present = λ j. if j == i then true else false;
  page_faults = 1;
}

pub first_use :
    (zeroed : Bool) (pages frames timer i : ℕ)
    → 0 < pages
    → i < frames + 5
    → round (lru zeroed) pages frames timer i (start no_nodes) ≡ some (only zeroed i (i ∷ []))
unfolding round read_present write_present load list_push
first_use zeroed pages frames timer i room h =
    let not_full : (0 == pages) ≡ false = ground arith in
    rw (lt→ltb i (frames + 5) h, not_full) refl

hit-only :
    (pages frames i : ℕ)
    → hit (lru true) pages frames i (only true i (i ∷ [])) ≡ some (only true i [])
unfolding hit move_back
hit-only pages frames i = let same : (i == i) ≡ true = ground arith in rw same refl

hit-unset : (pages frames i : ℕ) → hit (lru false) pages frames i (only false i (i ∷ [])) ≡ none
unfolding hit move_back
hit-unset pages frames i = let same : (i == i) ≡ true = ground arith in rw same refl

hit-headless : (pages frames i : ℕ) → hit (lru true) pages frames i (only true i []) ≡ none
unfolding hit move_back
hit-headless pages frames i = refl

-- `LRU` is not defined to its end when the first page of the file is asked for three times in a row,
-- whatever is in the memory that `malloc` gives. The second time, `move_back` of the only node sets
-- `head` to its `next`: a pointer that was never set, or NULL if that memory is zeroed, and then the
-- third time it reads through NULL.
pub run_lru-repeat :
    (zeroed : Bool) (pages frames i : ℕ) (refs : List ℕ)
    → 0 < pages
    → i < frames + 5
    → run_lru zeroed pages frames (i ∷ i ∷ i ∷ refs) ≡ none
unfolding run_lru simulate
run_lru-repeat true pages frames i refs room h =
    let marks = λ (l : List ℕ) (timer : ℕ).
      round-hit true pages frames timer i (only true i l) h (ground arith) in
    rw (first_use true pages frames 0 i room h) (
      rw (marks (i ∷ []) (0 + 1), hit-only pages frames i)
        (rw (marks [] (0 + 1 + 1), hit-headless pages frames i) refl))
run_lru-repeat false pages frames i refs room h = rw (first_use false pages frames 0 i room h) (
    rw
      (
        round-hit false pages frames (0 + 1) i (only false i (i ∷ [])) h (ground arith),
        hit-unset pages frames i,
      )
      refl)

-- The state after two pages.
abbrev pub both : ℕ → ℕ → Table (LinkedList ℕ)
both i j = record {
  list = record { nodes = i ∷ j ∷ []; size = 2; ended = true };
  present = λ x. if x == j then true else (if x == i then true else false);
  page_faults = 2;
}

pub second_use :
    (pages frames timer i j : ℕ)
    → 2 ≤ pages
    → i ≢ j
    → j < frames + 5
    → round (lru true) pages frames timer j (only true i (i ∷ [])) ≡ some (both i j)
unfolding round read_present write_present load list_push
second_use pages frames timer i j room ne h =
    let not_full : (1 == pages) ≡ false = ground arith in
    let other : (j == i) ≡ false = ground arith in
    rw (lt→ltb j (frames + 5) h, not_full, other) refl

pub both-Resident :
    (pages frames i j : ℕ)
    → 2 ≤ pages
    → i ≢ j
    → i < frames + 5
    → j < frames + 5
    → Resident (lru true) lru_laws pages frames (both i j)
both-Resident pages frames i j room ne h h' = record {
  valid = record { counted = refl; two = omega arith };
  tally = λ x. tally x;
  bounded = room;
  in_range = λ x. ground arith;
}
  where
    tally :
        (x : ℕ)
        → count x (i ∷ j ∷ [])
          ≡ (if if x == j then true else (if x == i then true else false) then 1 else 0)
    tally x = ground arith

-- With a `malloc` whose memory reads as NULL, `LRU` with two page frames or more, on a file that begins
-- with two different pages, all in range, is defined to its end: no access leaves the array or goes through NULL, and no `assert` fails.
-- From the third page on, the array marks exactly the pages of the list, each of which stands there
-- once, the list has no more nodes than there are page frames, and there is at most one fault for
-- each page that was asked for.
pub run_lru-Ran :
    (pages frames i j : ℕ) (refs : List ℕ)
    → 2 ≤ pages
    → i ≢ j
    → All (λ x. x < frames + 5) (i ∷ j ∷ refs)
    → Succeeds
        (Ran (lru true) lru_laws pages frames refs (both i j))
        (run_lru true pages frames (i ∷ j ∷ refs))
unfolding run_lru simulate
run_lru-Ran pages frames i j refs room ne h =
    rw (first_use true pages frames 0 i (omega arith) h.0) (
      rw (second_use pages frames (0 + 1) i j room ne h.1.0) (
        simulate-Ran (lru true) lru_laws pages frames (0 + 1 + 1) refs (both i j) (omega arith)
          (both-Resident pages frames i j room ne h.0 h.1.0) h.1.1))
