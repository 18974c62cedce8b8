-- ===== src/PageReplacement/Belady.antt =====
-- LRU with more page frames.
use operating_system_col.Base.{
  ℕ, ◌+◌, ◌≤◌, ◌<◌, ◌≡◌, ◌≢◌, refl, sym, ap, ◌∙◌, inl, inr, Bool, true, false, Option, none, some,
  List, [], ◌∷◌, ◌++◌, length, arith, if◌then◌else◌, All, length-append,
}
use operating_system_col.PageReplacement.{LinkedList, ◌>>=◌, lru, Table, round, simulate, run_lru}
use operating_system_col.PageReplacement.Laws.{count, Succeeds, Succeeds-bind}
use operating_system_col.PageReplacement.Resident.{Served, round-Served}
use operating_system_col.PageReplacement.Fifo.{count-append}
use operating_system_col.PageReplacement.Lru.{lru_laws, both, both-Resident, first_use, second_use}
use operating_system_col.PageReplacement.Recency.{
  use_next, IsRecent, IsOrder, use_next-IsOrder, Succeeds-both,
}
use operating_system_col.PageReplacement.LastUse.{InOrder, round-Gives, two-IsOrder}

tail_of : List ℕ → List ℕ
tail_of [] = []
tail_of (x ∷ xs) = xs

-- The longer end of a list has every element at least as often.
count-end :
    (i : ℕ) (a a' b b' : List ℕ) → a ++ b ≡ a' ++ b' → length b ≤ length b' → count i b ≤ count i b'
unfolding tail_of
count-end i a [] b b' e h = omega (arith, ap (count i) e, count-append i a b)
count-end i [] (y ∷ a') b b' e h = absurd (omega (arith, ap length e, length-append a' b', h))
count-end i (x ∷ a) (y ∷ a') b b' e h = count-end i a a' b b' (ap tail_of e) h

-- The second run is defined, and has no more faults than the first.
abbrev pub NoMoreFaults : Option (Table (LinkedList ℕ)) → Table (LinkedList ℕ) → Type 0
NoMoreFaults o t = Succeeds (λ t'. t'.page_faults ≤ t.page_faults) o

module _ (pages more frames : ℕ) (fewer : pages ≤ more) where
  -- The two runs, after the same pages.
  pub record Abreast (order : List ℕ) (t t' : Table (LinkedList ℕ)) : Type 0 where
    pub first : InOrder pages frames order t
    pub second : InOrder more frames order t'
    pub faults : t'.page_faults ≤ t.page_faults

  size_le :
      (order : List ℕ) (t t' : Table (LinkedList ℕ))
      → InOrder pages frames order t
      → InOrder more frames order t'
      → length t.list.nodes ≤ length t'.list.nodes
  size_le order t t' (r, q) (r', q') = elim q'.enough [
    | inl all ↦
        let split = ap length (sym q.split ∙ q'.split ∙ ap (λ a. a ++ t'.list.nodes) all) in
        omega (arith, split, length-append q.older t.list.nodes)
    | inr full ↦ omega (arith, r.valid.counted, r'.valid.counted, r.bounded, full)
  ]

  flag_le :
      (n n' : ℕ) (b b' : Bool)
      → n ≡ (if b then 1 else 0)
      → n' ≡ (if b' then 1 else 0)
      → n ≤ n'
      → (if b' then 0 else 1) ≤ (if b then 0 else 1)
  flag_le n n' true true h h' l = omega arith
  flag_le n n' true false h h' l = omega (arith, h, h', l)
  flag_le n n' false b' h h' l = ground arith

  -- A page that is resident with fewer frames is resident with more.
  fault_le :
      (i : ℕ) (order : List ℕ) (t t' : Table (LinkedList ℕ))
      → InOrder pages frames order t
      → InOrder more frames order t'
      → (if t'.present i then 0 else 1) ≤ (if t.present i then 0 else 1)
  fault_le i order t t' p p' =
      flag_le (count i t.list.nodes) (count i t'.list.nodes) (t.present i) (t'.present i)
        (p.0.tally i) (p'.0.tally i)
        (count-end i p.1.older p'.1.older t.list.nodes t'.list.nodes (sym p.1.split ∙ p'.1.split)
          (size_le order t t' p p'))

  abbrev Next : ℕ → ℕ → ℕ → List ℕ → Table (LinkedList ℕ) → Table (LinkedList ℕ) → Type 0
  Next capacity frames i order t u =
      Served (lru true) lru_laws capacity frames i t u × IsRecent capacity (use_next i order) u.list

  round-Next :
      (capacity timer i : ℕ) (order : List ℕ) (t : Table (LinkedList ℕ))
      → 0 < capacity
      → IsOrder order
      → InOrder capacity frames order t
      → i < frames + 5
      → Succeeds (Next capacity frames i order t) (round (lru true) capacity frames timer i t)
  round-Next capacity timer i order t room d (r, q) h =
      Succeeds-both _ (λ u. IsRecent capacity (use_next i order) u.list) _
        (round-Served (lru true) lru_laws capacity frames timer i t room r h)
        (round-Gives capacity frames timer i order t r d q h)

  round-Abreast :
      (i : ℕ) (order : List ℕ) (t t' u u' : Table (LinkedList ℕ))
      → Abreast order t t'
      → Next pages frames i order t u
      → Next more frames i order t' u'
      → Abreast (use_next i order) u u'
  round-Abreast i order t t' u u' a (s, q) (s', q') = record {
    first = (s.after, q);
    second = (s'.after, q');
    faults = omega (arith, s.faults, s'.faults, a.faults, fault_le i order t t' a.first a.second);
  }

  -- The second run has made its turn.
  bind-NoMoreFaults :
      (P : Table (LinkedList ℕ) → Type 0) (o' : Option (Table (LinkedList ℕ)))
      (f : Table (LinkedList ℕ) → Option (Table (LinkedList ℕ))) (o : Option (Table (LinkedList ℕ)))
      → Succeeds P o'
      → ((u' : Table (LinkedList ℕ)) → P u' → Succeeds (NoMoreFaults (f u')) o)
      → Succeeds (NoMoreFaults (o' >>= f)) o
  bind-NoMoreFaults P none f o p g = absurd p
  bind-NoMoreFaults P (some u') f o p g = g u' p

  simulate-NoMoreFaults :
      (timer : ℕ) (refs order : List ℕ) (t t' : Table (LinkedList ℕ))
      → 0 < pages
      → IsOrder order
      → Abreast order t t'
      → All (λ i. i < frames + 5) refs
      → Succeeds
          (NoMoreFaults (simulate (lru true) more frames timer refs t'))
          (simulate (lru true) pages frames timer refs t)
  unfolding simulate
  simulate-NoMoreFaults timer [] order t t' room d a h = a.faults
  simulate-NoMoreFaults timer (i ∷ refs) order t t' room d a h =
      Succeeds-bind (Next pages frames i order t)
        (NoMoreFaults (
          round (lru true) more frames timer i t'
          >>= simulate (lru true) more frames (timer + 1) refs))
        (round (lru true) pages frames timer i t) _
        (round-Next pages timer i order t room d a.first h.0)
        λ u s.
          bind-NoMoreFaults (Next more frames i order t') (round (lru true) more frames timer i t')
            _ (simulate (lru true) pages frames (timer + 1) refs u)
            (round-Next more timer i order t' (omega (arith, room, fewer)) d a.second h.0)
            λ u' s'.
              simulate-NoMoreFaults (timer + 1) refs (use_next i order) u u' room
                (use_next-IsOrder i order d) (round-Abreast i order t t' u u' a s s') h.1

  both-Abreast :
      (i j : ℕ)
      → 2 ≤ pages
      → i ≢ j
      → i < frames + 5
      → j < frames + 5
      → Abreast (i ∷ j ∷ []) (both i j) (both i j)
  both-Abreast i j room ne h h' = record {
    first = (
      both-Resident pages frames i j room ne h h',
      record { older = []; split = refl; enough = inl refl },
    );
    second = (
      both-Resident more frames i j (omega (arith, room, fewer)) ne h h',
      record { older = []; split = refl; enough = inl refl },
    );
    faults = omega arith;
  }

  -- LRU has no Belady's anomaly. With a `malloc` whose memory reads as NULL, which C does not promise,
  -- and with two page frames or more, on a file that begins with two
  -- different pages, all in range, a run with at least as many page frames is defined too, and counts
  -- no more faults.
  pub run_lru-NoMoreFaults :
      (i j : ℕ) (refs : List ℕ)
      → 2 ≤ pages
      → i ≢ j
      → All (λ x. x < frames + 5) (i ∷ j ∷ refs)
      → Succeeds
          (NoMoreFaults (run_lru true more frames (i ∷ j ∷ refs)))
          (run_lru true pages frames (i ∷ j ∷ refs))
  unfolding run_lru simulate
  run_lru-NoMoreFaults i j refs room ne h =
      let room' : 2 ≤ more = omega (arith, room, fewer) in
      let start = first_use true pages frames 0 i (omega arith) h.0 in
      let start' = first_use true more frames 0 i (omega (arith, room')) h.0 in
      rw (start, start')
        (rw
          (
            second_use pages frames (0 + 1) i j room ne h.1.0,
            second_use more frames (0 + 1) i j room' ne h.1.0,
          )
          (simulate-NoMoreFaults (0 + 1 + 1) refs (i ∷ j ∷ []) (both i j) (both i j) (omega arith)
            (two-IsOrder i j ne) (both-Abreast i j room ne h.0 h.1.0) h.1.1))
