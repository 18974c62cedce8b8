-- ===== src/PageReplacement/Fifo.antt =====
-- `list_pop` and `list_push`, and FIFO over them.
use operating_system_col.Base.{
  Bool, true, ℕ, zero, suc, ◌+◌, ◌<◌, ◌≡◌, refl, sym, ap, ◌∙◌, false, Option, some, List, [], ◌∷◌,
  ◌++◌, length, arith, if◌then◌else◌, ◌==◌, All, length-append,
}
use operating_system_col.PageReplacement.{
  LinkedList, no_nodes, list_pop, list_push, Policy, fifo, start, run_fifo,
}
use operating_system_col.PageReplacement.Laws.{count, Succeeds, Succeeds-mono, Entered, Laws}
use operating_system_col.PageReplacement.Resident.{Resident, Ran, simulate-Ran}

pub count-append : (j : ℕ) (xs ys : List ℕ) → count j (xs ++ ys) ≡ count j xs + count j ys
count-append j [] ys = omega arith
count-append j (x ∷ xs) ys = omega (arith, count-append j xs ys)

-- `size` is the number of nodes.
abbrev pub IsCounted : {A : Type 0} → LinkedList A → Type 0
IsCounted l = l.size ≡ length l.nodes

-- What `list_pop` takes from a list that is not empty.
pub record Popped {A : Type 0} (l : LinkedList A) (out : Option A × LinkedList A) : Type 0 where
  pub front : A
  pub is_front : out.0 ≡ some front
  pub rest : l.nodes ≡ front ∷ out.1.nodes
  pub counted : IsCounted out.1
  pub smaller : l.size ≡ suc out.1.size

suc_ne : (n : ℕ) → (suc n == 0) ≡ false
suc_ne n = ground arith

popped :
    {A : Type 0} (nodes : List A) (size : ℕ) (ended : Bool)
    → size ≡ length nodes
    → 0 < size
    → Succeeds
        (Popped (record { nodes = nodes; size = size; ended = ended }))
        (list_pop true (record { nodes = nodes; size = size; ended = ended }))
unfolding list_pop
popped [] size ended v h = absurd (omega (arith, v))
popped (x ∷ xs) (suc size) ended v h = rw (suc_ne size) (record {
  front = x;
  is_front = refl;
  rest = refl;
  counted = omega (arith, v);
  smaller = omega arith;
})
popped (x ∷ xs) zero ended v h = absurd (omega (arith, h))

pub list_pop-Popped :
    {A : Type 0} (l : LinkedList A)
    → IsCounted l
    → 0 < l.size
    → Succeeds (Popped l) (list_pop true l)
list_pop-Popped l v h = popped l.nodes l.size l.ended v h

pushed :
    (i : ℕ) (nodes : List ℕ) (size : ℕ) (ended : Bool)
    → size ≡ length nodes
    → (list_push true i (record { nodes = nodes; size = size; ended = ended })).nodes
      ≡ nodes ++ i ∷ []
unfolding list_push
pushed i [] zero ended v = refl
pushed i [] (suc size) ended v = absurd (omega (arith, v))
pushed i (x ∷ xs) (suc size) ended v = rw (suc_ne size)
pushed i (x ∷ xs) zero ended v = absurd (omega (arith, v))

pub list_push-nodes :
    (i : ℕ) (l : LinkedList ℕ) → IsCounted l → (list_push true i l).nodes ≡ l.nodes ++ i ∷ []
list_push-nodes i l v = pushed i l.nodes l.size l.ended v

pub list_push-size : (i : ℕ) (l : LinkedList ℕ) → (list_push true i l).size ≡ suc l.size
unfolding list_push
list_push-size i l = omega arith

pub list_push-IsCounted : (i : ℕ) (l : LinkedList ℕ) → IsCounted l → IsCounted (list_push true i l)
list_push-IsCounted i l v =
    list_push-size i l
    ∙ omega (arith, v, length-append l.nodes (i ∷ []))
    ∙ ap length (sym (list_push-nodes i l v))

pub count-list_push :
    (i j : ℕ) (l : LinkedList ℕ)
    → IsCounted l
    → count j (list_push true i l).nodes ≡ count j l.nodes + (if i == j then 1 else 0)
count-list_push i j l v =
    ap (count j) (list_push-nodes i l v) ∙ omega (arith, count-append j l.nodes (i ∷ []))

count-front :
    (x j : ℕ) (l xs : List ℕ) → l ≡ x ∷ xs → count j l ≡ (if x == j then 1 else 0) + count j xs
count-front x j l xs e = ap (count j) e

front-resident : (x : ℕ) (l xs : List ℕ) → l ≡ x ∷ xs → 0 < count x l
front-resident x l xs e = rw e (ground arith)

-- A pop and then a push, on any policy that has these for its `pop` and `add`.
pub front_Entered :
    (Valid : LinkedList ℕ → Type 0) (i : ℕ) (l : LinkedList ℕ)
    → (out : Option ℕ × LinkedList ℕ) → (q : Popped l out) → Valid (list_push true i out.1)
    → Entered (λ m. m.nodes) Valid i (λ j. if q.front == j then 1 else 0) l (list_push true i out.1)
front_Entered Valid i l out q v = record {
  valid = v;
  counts = λ j. omega (
    arith,
    count-list_push i j out.1 q.counted,
    count-front q.front j l.nodes out.1.nodes q.rest,
  );
}

pub front_Evicted :
    (i : ℕ) (l : LinkedList ℕ) (out : Option ℕ × LinkedList ℕ) (q : Popped l out)
    → (0 < count q.front l.nodes) × ((list_push true i out.1).size ≡ l.size)
front_Evicted i l out q =
    (front-resident q.front l.nodes out.1.nodes q.rest, list_push-size i out.1 ∙ sym q.smaller)

abbrev pub fifo_laws : Laws (fifo true)
fifo_laws = record {
  pages = λ l. l.nodes;
  Valid = IsCounted;
  size-length = λ l v. v;
  evicts = λ timer i l v h.
      Succeeds-mono (Popped l) _ (list_pop true l) (list_pop-Popped l v h) λ out q.
        let (r, n) = front_Evicted i l out q in
        record {
          victim = q.front;
          is_victim = q.is_front;
          entered = front_Entered IsCounted i l out q (list_push-IsCounted i out.1 q.counted);
          resident = r;
          same_size = n;
        };
  adds = λ timer i l v. (
    record {
      valid = list_push-IsCounted i l v;
      counts = λ j. omega (arith, count-list_push i j l v);
    },
    list_push-size i l,
  );
  touches = λ i l v h. (v, refl, λ j. refl);
}

pub empty-Resident :
    {S : Type 0} (p : Policy S) (laws : Laws p) (pages frames : ℕ) (s : S)
    → laws.Valid s
    → p.size s ≡ 0
    → laws.pages s ≡ []
    → Resident p laws pages frames (start s)
empty-Resident p laws pages frames s v z e = record {
  valid = v;
  tally = λ j. ap (count j) e;
  bounded = omega (arith, z);
  in_range = λ j h. cc;
}

-- With a `malloc` whose memory reads as NULL, `FIFO` with at least one page frame, on pages in range, is defined to its end: no read or write
-- leaves the array or goes through NULL. The array then marks exactly the pages of the list, none
-- of which stands there twice, the list has no more nodes than there are page frames, and at most
-- one fault has been counted for each page that was asked for.
pub run_fifo-Ran :
    (pages frames : ℕ) (refs : List ℕ)
    → 0 < pages
    → All (λ i. i < frames + 5) refs
    → Succeeds
        (Ran (fifo true) fifo_laws pages frames refs (start no_nodes))
        (run_fifo true pages frames refs)
unfolding run_fifo
run_fifo-Ran pages frames refs room h =
    simulate-Ran (fifo true) fifo_laws pages frames 0 refs (start no_nodes) room
      (empty-Resident (fifo true) fifo_laws pages frames no_nodes refl refl refl) h
