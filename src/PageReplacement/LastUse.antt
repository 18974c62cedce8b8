-- ===== src/PageReplacement/LastUse.antt =====
-- The list of LRU through the turns of the loop.
use operating_system_col.Base.{
  ℕ, ◌+◌, ◌≤◌, ◌<◌, ◌≡◌, ◌≢◌, refl, sym, ap, ◌∙◌, subst, inl, inr, Bool, true, false, Option, none,
  some, List, [], ◌∷◌, ◌++◌, length, arith, if◌then◌else◌, Bool-cases, lt→ltb, ltb, ◌==◌, ==_iff,
  All, append_assoc,
}
use operating_system_col.PageReplacement.{
  LinkedList, list_pop, list_push, move_nodes, move_back, lru, Table, read_present, write_present,
  hit, load, replace, round, simulate, run_lru,
}
use operating_system_col.PageReplacement.Laws.{count, Succeeds, Succeeds-bind}
use operating_system_col.PageReplacement.Resident.{Resident, round-Served}
use operating_system_col.PageReplacement.Fifo.{
  IsCounted, count-append, Popped, list_pop-Popped, list_push-nodes, list_push-size,
}
use operating_system_col.PageReplacement.Lru.{
  IsBusy, lru_laws, round-hit, both, both-Resident, first_use, second_use,
}
use operating_system_col.PageReplacement.Recency.{
  forget, use_next, last_uses, IsRecent, IsOrder, forget-absent, forget-append, use_next-IsOrder,
  Gives, Gives-bind, Gives-mono, Gives-Succeeds, Succeeds-both, move_nodes-Gives,
}

-- A turn has used `i`, in one of the three ways.
abbrev Kept : List ℕ → ℕ → LinkedList ℕ → LinkedList ℕ → Type 0
Kept order i l l' = (l'.nodes ≡ use_next i l.nodes) × (l'.size ≡ l.size)

record Evicted (i : ℕ) (l l' : LinkedList ℕ) : Type 0 where
  pub front : ℕ
  pub rest : List ℕ
  pub was : l.nodes ≡ front ∷ rest
  pub now : l'.nodes ≡ rest ++ i ∷ []
  pub same_size : l'.size ≡ l.size

hit-IsRecent :
    (pages i : ℕ) (order : List ℕ) (l l' : LinkedList ℕ)
    → IsOrder order
    → IsRecent pages order l
    → count i l.nodes ≡ 1
    → Kept order i l l'
    → IsRecent pages (use_next i order) l'
hit-IsRecent pages i order l l' d r h k =
    let once : count i r.older ≡ 0 =
      omega (arith, d i, ap (count i) r.split, count-append i r.older l.nodes, h) in
    record {
      older = r.older;
      split =
          ap (use_next i) r.split
          ∙ ap (λ x. x ++ i ∷ []) (forget-append i r.older l.nodes)
          ∙ append_assoc (forget i r.older) (forget i l.nodes) (i ∷ [])
          ∙ ap (λ x. x ++ use_next i l.nodes) (forget-absent i r.older once)
          ∙ ap (λ x. r.older ++ x) (sym k.0);
      enough = elim r.enough [ inl e ↦ inl e | inr e ↦ inr (k.1 ∙ e) ];
    }

load-IsRecent :
    (pages i : ℕ) (order : List ℕ) (l l' : LinkedList ℕ)
    → IsRecent pages order l
    → l.size ≢ pages
    → count i l.nodes ≡ 0
    → l'.nodes ≡ l.nodes ++ i ∷ []
    → IsRecent pages (use_next i order) l'
load-IsRecent pages i order l l' r n h e =
    let none_older : r.older ≡ [] = elim r.enough [ inl x ↦ x | inr x ↦ absurd (n x) ] in
    let all : order ≡ l.nodes = r.split ∙ ap (λ x. x ++ l.nodes) none_older in
    record {
      older = [];
      split = ap (use_next i) all ∙ ap (λ x. x ++ i ∷ []) (forget-absent i l.nodes h) ∙ sym e;
      enough = inl refl;
    }

replace-IsRecent :
    (pages i : ℕ) (order : List ℕ) (l l' : LinkedList ℕ)
    → IsRecent pages order l
    → l.size ≡ pages
    → count i l.nodes ≡ 0
    → Evicted i l l'
    → IsRecent pages (use_next i order) l'
replace-IsRecent pages i order l l' r n h v =
    let o = forget i r.older in
    record {
      older = o ++ v.front ∷ [];
      split =
          ap (use_next i) r.split
          ∙ ap (λ x. x ++ i ∷ []) (forget-append i r.older l.nodes)
          ∙ ap (λ x. (o ++ x) ++ i ∷ []) (forget-absent i l.nodes h ∙ v.was)
          ∙ ap (λ x. x ++ i ∷ []) (sym (append_assoc o (v.front ∷ []) v.rest))
          ∙ append_assoc (o ++ v.front ∷ []) v.rest (i ∷ [])
          ∙ ap (λ x. (o ++ v.front ∷ []) ++ x) (sym v.now);
      enough = inr (v.same_size ∙ n);
    }

hit-Gives :
    (pages frames i : ℕ) (order : List ℕ) (t : Table (LinkedList ℕ))
    → 2 ≤ length t.list.nodes
    → count i t.list.nodes ≡ 1
    → Gives (λ t'. Kept order i t.list t'.list) (hit (lru true) pages frames i t)
unfolding hit move_back
hit-Gives pages frames i order t n h =
    Gives-bind (λ l'. Kept order i t.list l') _ (move_back true i t.list) _
      (Gives-bind (λ ns. ns ≡ use_next i t.list.nodes) (λ l'. Kept order i t.list l')
        (move_nodes i t.list.nodes) _ (move_nodes-Gives i t.list.nodes n h) λ ns e. (e, refl))
      λ l' k. k

write_present-Gives :
    (frames : ℕ) (i : Option ℕ) (b : Bool) (t : Table (LinkedList ℕ))
    → Gives (λ t'. t'.list ≡ t.list) (write_present frames i b t)
unfolding write_present
write_present-Gives frames none b t = tt
write_present-Gives frames (some i) b t = elim (Bool-cases (ltb i (frames + 5))) [
  | inl e ↦ rw e refl
  | inr e ↦ rw e tt
]

load-Gives :
    (pages frames timer i : ℕ) (t : Table (LinkedList ℕ))
    → Gives (λ t'. t'.list ≡ list_push true i t.list) (load (lru true) pages frames timer i t)
unfolding load
load-Gives pages frames timer i t = write_present-Gives frames (some i) true _

replace-Gives :
    (pages frames timer i : ℕ) (t : Table (LinkedList ℕ))
    → IsCounted t.list
    → 0 < t.list.size
    → Gives (λ t'. Evicted i t.list t'.list) (replace (lru true) pages frames timer i t)
unfolding replace
replace-Gives pages frames timer i t c h =
    Gives-bind (Popped t.list) _ (list_pop true t.list) _
      (Gives-Succeeds (Popped t.list) (list_pop true t.list) (list_pop-Popped t.list c h))
      λ out q.
        let pushed : Evicted i t.list (list_push true i out.1) = record {
          front = q.front;
          rest = out.1.nodes;
          was = q.rest;
          now = list_push-nodes i out.1 q.counted;
          same_size = list_push-size i out.1 ∙ sym q.smaller;
        } in
        Gives-bind (λ t'. t'.list ≡ list_push true i out.1) _ _ _
          (write_present-Gives frames (some i) true _)
          λ t1 e.
            Gives-mono (λ t'. t'.list ≡ t1.list) _ (write_present frames out.0 false t1)
              (write_present-Gives frames out.0 false t1)
              λ t' e'. subst (Evicted i t.list) (sym (e' ∙ e)) pushed

length_size : (t : Table (LinkedList ℕ)) → IsBusy t.list → 2 ≤ length t.list.nodes
length_size t b = omega (arith, b.counted, b.two)

tally_true : (n : ℕ) (b : Bool) → n ≡ (if b then 1 else 0) → b ≡ true → n ≡ 1
tally_true n b h e = h ∙ ap (λ c. if c then 1 else 0) e

tally_false : (n : ℕ) (b : Bool) → n ≡ (if b then 1 else 0) → b ≡ false → n ≡ 0
tally_false n b h e = h ∙ ap (λ c. if c then 1 else 0) e

other_size : (n m : ℕ) → (n == m) ≡ false → n ≢ m
other_size n m e z = ground arith

-- A turn uses the page next.
pub round-Gives :
    (pages frames timer i : ℕ) (order : List ℕ) (t : Table (LinkedList ℕ))
    → Resident (lru true) lru_laws pages frames t
    → IsOrder order
    → IsRecent pages order t.list
    → i < frames + 5
    → Gives
        (λ t'. IsRecent pages (use_next i order) t'.list)
        (round (lru true) pages frames timer i t)
unfolding round read_present
round-Gives pages frames timer i order t r d q h = elim (Bool-cases (t.present i)) [
  | inl e ↦
      let once = tally_true _ (t.present i) (r.tally i) e in
      subst (Gives (λ t'. IsRecent pages (use_next i order) t'.list))
        (sym (round-hit true pages frames timer i t h e))
        (Gives-mono _ (λ t'. IsRecent pages (use_next i order) t'.list)
          (hit (lru true) pages frames i t)
          (hit-Gives pages frames i order t (length_size t r.valid) once)
          λ t' k. hit-IsRecent pages i order t.list t'.list d q once k)
  | inr e ↦
      let gone = tally_false _ (t.present i) (r.tally i) e in
      elim (Bool-cases (t.list.size == pages)) [
        | inl f ↦
            rw (lt→ltb i (frames + 5) h, e, f)
              (Gives-mono (λ t'. Evicted i t.list t'.list) _
                (replace (lru true) pages frames timer i t)
                (replace-Gives pages frames timer i t r.valid.counted (omega (arith, r.valid.two)))
                λ t' v.
                  replace-IsRecent pages i order t.list t'.list q ((==_iff t.list.size pages).0 f)
                    gone v)
        | inr f ↦
            rw (lt→ltb i (frames + 5) h, e, f)
              (Gives-mono (λ t'. t'.list ≡ list_push true i t.list) _
                (load (lru true) pages frames timer i t) (load-Gives pages frames timer i t)
                λ t' k.
                  load-IsRecent pages i order t.list t'.list q (other_size t.list.size pages f) gone
                    (ap (λ l. l.nodes) k ∙ list_push-nodes i t.list r.valid.counted))
      ]
]

-- The invariant, and the list as the end of the order.
abbrev pub InOrder : ℕ → ℕ → List ℕ → Table (LinkedList ℕ) → Type 0
InOrder pages frames order t =
    Resident (lru true) lru_laws pages frames t × IsRecent pages order t.list

simulate-InOrder :
    (pages frames timer : ℕ) (refs order : List ℕ) (t : Table (LinkedList ℕ))
    → 0 < pages
    → IsOrder order
    → InOrder pages frames order t
    → All (λ i. i < frames + 5) refs
    → Succeeds
        (InOrder pages frames (last_uses order refs))
        (simulate (lru true) pages frames timer refs t)
unfolding simulate
simulate-InOrder pages frames timer [] order t room d q h = q
simulate-InOrder pages frames timer (i ∷ refs) order t room d (r, q) h =
    Succeeds-bind _ (InOrder pages frames (last_uses (use_next i order) refs))
      (round (lru true) pages frames timer i t) _
      (Succeeds-both _ (λ t'. IsRecent pages (use_next i order) t'.list) _
        (round-Served (lru true) lru_laws pages frames timer i t room r h.0)
        (round-Gives pages frames timer i order t r d q h.0))
      λ t' s.
        simulate-InOrder pages frames (timer + 1) refs (use_next i order) t' room
          (use_next-IsOrder i order d) (s.0.after, s.1) h.1

two_uses :
    (i j : ℕ) (refs : List ℕ) → i ≢ j → last_uses [] (i ∷ j ∷ refs) ≡ last_uses (i ∷ j ∷ []) refs
two_uses i j refs ne = let other : (i == j) ≡ false = ground arith in rw other refl

pub two-IsOrder : (i j : ℕ) → i ≢ j → IsOrder (i ∷ j ∷ [])
two-IsOrder i j ne x = ground arith

-- With a `malloc` whose memory reads as NULL, which C does not promise, `LRU` with two page frames or
-- more, on a file that begins with two different pages, all in range,
-- evicts by the order of the last uses: put the pages of the file in that order, each of them once
-- and the last used at the end. Then the list of LRU is the end of it, all of it or as many pages as
-- there are frames. The run is defined to its end, and its invariant holds.
pub run_lru-InOrder :
    (pages frames i j : ℕ) (refs : List ℕ)
    → 2 ≤ pages
    → i ≢ j
    → All (λ x. x < frames + 5) (i ∷ j ∷ refs)
    → Succeeds
        (InOrder pages frames (last_uses [] (i ∷ j ∷ refs)))
        (run_lru true pages frames (i ∷ j ∷ refs))
unfolding run_lru simulate
run_lru-InOrder pages frames i j refs room ne h =
    rw (first_use true pages frames 0 i (omega arith) h.0) (
      rw (second_use pages frames (0 + 1) i j room ne h.1.0) (
        subst
          (λ o.
            Succeeds (InOrder pages frames o)
              (simulate (lru true) pages frames (0 + 1 + 1) refs (both i j)))
          (sym (two_uses i j refs ne))
          (simulate-InOrder pages frames (0 + 1 + 1) refs (i ∷ j ∷ []) (both i j) (omega arith)
            (two-IsOrder i j ne)
            (
              both-Resident pages frames i j room ne h.0 h.1.0,
              record { older = []; split = refl; enough = inl refl },
            )
            h.1.1)))
