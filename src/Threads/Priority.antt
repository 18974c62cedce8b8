-- ===== src/Threads/Priority.antt =====
-- Priority scheduling: the order of the ready list, in `thread_yield` and `thread_unblock`.
use mathlib.Core.List.{Perm}
use mathlib.Core.Path.{subst, fun_ext}
use operating_system_col.Base.{
  ℕ, ◌≤◌, ◌≡◌, ◌≢◌, refl, sym, ◌∙◌, ap, inl, inr, Bool, false, List, [], ◌∷◌, All, All-mono, arith,
  Bool-cases, ltb→le,
}
use operating_system_col.KernelList.{insert_ordered}
use operating_system_col.KernelList.Order.{
  IsSorted, Bounds, by_key, by_key-IsOrder, All-insert, All-insert_inv, insert_ordered-IsSorted,
  insert_ordered-perm,
}
use operating_system_col.Threads.{Addr, Status, ready, blocked, is_blocked, Kernel, set_status}
use operating_system_col.Threads.Schedule.{
  compare_priority, thread_unblock, ready_again, thread_yield, is_idle,
}
use operating_system_col.Threads.WellFormed.{
  Returns, Returns-mono, Avoids, WellFormed, Chosen, AllReady-set_status, Avoids-unready,
  not_dying-set_status,
}
use operating_system_col.Threads.Yield.{Distinct-insert, thread_yield-WellFormed}

-- The ready list is in falling order of the current priorities.
abbrev pub ReadySorted : Kernel → Type 0
ReadySorted k = IsSorted (compare_priority k) k.ready_list

abbrev pub shown : Kernel → Addr → ℕ
shown k t = (k.threads t).current_priority

compare_priority-eq :
    (k k' : Kernel)
    → ((t : Addr) → shown k' t ≡ shown k t)
    → compare_priority k' ≡ compare_priority k
compare_priority-eq k k' h = ap by_key (fun_ext h)

insert_ordered-ne-nil :
    (less : Addr → Addr → Bool) (x : Addr) (l : List Addr) → insert_ordered less x l ≢ []
unfolding insert_ordered
insert_ordered-ne-nil less x [] = λ e. cc
insert_ordered-ne-nil less x (y ∷ l) = elim (Bool-cases (less x y)) [
  | inl e ↦ rw (e, insert_ordered) (λ h. cc)
  | inr e ↦ rw (e, insert_ordered) (λ h. cc)
]

Bounds→All :
    (k : Kernel) (t : Addr) (l : List Addr)
    → Bounds (compare_priority k) t l
    → All (λ u. shown k u ≤ shown k t) l
Bounds→All k t [] b = tt
Bounds→All k t (u ∷ l) b = (ltb→le (shown k t) (shown k u) b.0, Bounds→All k t l b.1)

-- The running thread has the highest priority of those that could run.
abbrev pub RunsHighest : Kernel → Type 0
RunsHighest k = All (λ t. shown k t ≤ shown k k.current) k.ready_list

-- After a yield of a thread that is not the idle thread.
pub record Yielded (k k' : Kernel) : Type 0 where
  pub well_formed : WellFormed k'
  pub in_order : ReadySorted k'
  pub same_threads : Perm (k'.current ∷ k'.ready_list) (k.current ∷ k.ready_list)
  pub highest : All (λ t. shown k t ≤ shown k k'.current) (k.current ∷ k.ready_list)
  pub top : RunsHighest k'

module _ (k : Kernel) (sorted : ReadySorted k) where
  yield_result :
      (k' : Kernel)
      → WellFormed k'
      → insert_ordered (compare_priority k) k.current k.ready_list ≡ k'.current ∷ k'.ready_list
      → ((t : Addr) → shown k' t ≡ shown k t)
      → Yielded k k'
  yield_result k' w e p =
      let s =
        subst (IsSorted (compare_priority k)) e
          (insert_ordered-IsSorted (by_key-IsOrder (shown k)) k.current k.ready_list sorted) in
      record {
        well_formed = w;
        in_order =
            subst (λ less. IsSorted less k'.ready_list) (sym (compare_priority-eq k k' p)) s.1;
        same_threads =
            subst (λ l. Perm l (k.current ∷ k.ready_list)) e
              (insert_ordered-perm (by_key-IsOrder (shown k)) k.current k.ready_list);
        highest =
            All-insert_inv (compare_priority k) (λ t. shown k t ≤ shown k k'.current) k.current
              k.ready_list
              (subst (All (λ t. shown k t ≤ shown k k'.current)) (sym e)
                (omega arith, Bounds→All k k'.current k'.ready_list s.0));
        top =
            All-mono (λ t. shown k t ≤ shown k k'.current) (λ t. shown k' t ≤ shown k' k'.current)
              k'.ready_list (λ t h. omega (arith, p t, p k'.current, h))
              (Bounds→All k k'.current k'.ready_list s.0);
      }

ready_again_busy :
    (k : Kernel)
    → is_idle k.current k.idle_thread ≡ false
    → ready_again k.current k
      ≡ record k { ready_list = insert_ordered (compare_priority k) k.current k.ready_list }
unfolding ready_again
ready_again_busy k e = rw e

same_priority :
    (k : Kernel) (x : Addr) (s : Status) (t : Addr) → shown (set_status x s k) t ≡ shown k t
same_priority k x s t = ground arith

yielded :
    (k : Kernel)
    → ReadySorted k
    → (k' : Kernel) → WellFormed k'
    → Chosen
        (set_status k.current ready
          (record k { ready_list = insert_ordered (compare_priority k) k.current k.ready_list }))
        k'
    → Yielded k k'
yielded k sorted k' w c = elim c.from [
  | inl e ↦ absurd (insert_ordered-ne-nil (compare_priority k) k.current k.ready_list e.0)
  | inr e ↦
      yield_result k sorted k' w e (λ t. c.same.priorities t ∙ same_priority k k.current ready t)
]

-- From a well-formed scheduler whose ready list is in order, a yield by a thread other than the
-- idle thread runs to its end. It leaves the scheduler well formed and the ready list in order,
-- loses and adds no thread, and gives the processor to a thread whose priority is at least that of
-- every ready thread and of the one that yielded.
pub thread_yield_highest :
    (k : Kernel)
    → WellFormed k
    → ReadySorted k
    → is_idle k.current k.idle_thread ≡ false
    → Returns (Yielded k) (thread_yield k)
thread_yield_highest k w sorted busy =
    Returns-mono _ (Yielded k) (thread_yield k) (thread_yield-WellFormed k w) λ k' (w', c).
      yielded k sorted k' w'
        (subst (λ r. Chosen (set_status k.current ready r) k') (ready_again_busy k busy) c)

-- A thread that was blocked is on the ready list.
pub record Unblocked (t : Addr) (k k' : Kernel) : Type 0 where
  pub well_formed : WellFormed k'
  pub in_order : ReadySorted k'
  pub same_threads : Perm k'.ready_list (t ∷ k.ready_list)
  pub is_ready : (k'.threads t).status ≡ ready
  pub frame : k' ≡ set_status t ready (record k { ready_list = k'.ready_list })

-- `thread_unblock` of a blocked thread runs to its end, keeps the scheduler well formed and the
-- ready list in order, and adds that thread, and no other, to the ready list. Nothing else
-- changes but its status.
pub thread_unblock_lem :
    (t : Addr) (k : Kernel)
    → WellFormed k
    → ReadySorted k
    → (k.threads t).status ≡ blocked
    → Returns (Unblocked t k) (thread_unblock t k)
unfolding thread_unblock
thread_unblock_lem t k w sorted h = rw (ap is_blocked h) (record {
  well_formed = record {
    on_cpu = ground arith;
    queued =
        All-insert (compare_priority k) (λ u. ((set_status t ready k).threads u).status ≡ ready) t
          k.ready_list (ground arith) (AllReady-set_status t ready k k.ready_list apart w.queued);
    distinct = Distinct-insert (compare_priority k) t k.ready_list apart w.distinct;
    idle = (w.idle.0, w.idle.1, not_dying-set_status t ready k w.idle.0 (λ e. cc) w.idle.2);
  };
  in_order =
      subst (λ less. IsSorted less (insert_ordered (compare_priority k) t k.ready_list))
        (sym (compare_priority-eq k (set_status t ready k) (same_priority k t ready)))
        (insert_ordered-IsSorted (by_key-IsOrder (shown k)) t k.ready_list sorted);
  same_threads = insert_ordered-perm (by_key-IsOrder (shown k)) t k.ready_list;
  is_ready = ground arith;
  frame = refl;
})
  where
    apart : Avoids t k.ready_list
    apart = Avoids-unready t k k.ready_list (λ e. cc (h)) w.queued
