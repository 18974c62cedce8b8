-- ===== src/Threads/Signal.antt =====
-- Which waiter `cond_signal` of threads/synch.c wakes.
use mathlib.Core.List.{Perm}
use mathlib.Core.List.Perm
use operating_system_col.Base.{
  ◌≤◌, ◌≡◌, refl, sym, subst, ◌⊎◌, inl, inr, true, some, List, [], ◌∷◌, All, All-mono, arith, ◌==◌,
}
use operating_system_col.KernelList.{list_sort}
use operating_system_col.KernelList.Order.{by_key-IsOrder, IsSorted}
use operating_system_col.KernelList.Sort.{list_sort_lem}
use operating_system_col.Threads.{Run, done, Addr, SemaElem, Kernel, update}
use operating_system_col.Threads.Sync.{
  lock_held_by_current_thread, sema_up, compare_elems, cond_signal,
}
use operating_system_col.Threads.WellFormed.{WellFormed}
use operating_system_col.Threads.Yield.{thread_current-done}

-- The waiter that is taken, those that stay, and what is done.
pub record Signalled (c : Addr) (k : Kernel) (r : Run Kernel) : Type 0 where
  pub first : SemaElem
  pub rest : List SemaElem
  pub same : Perm (first ∷ rest) (k.conds c)
  pub highest : All (λ e. e.priority ≤ first.priority) rest
  pub wakes : r ≡ sema_up first.semaphore (record k { conds = update k.conds c rest })

abbrev signal_first : Addr → List SemaElem → Kernel → Run Kernel
signal_first c waiters k = elim waiters [
  | [] ↦ done k
  | e ∷ rest ↦ sema_up e.semaphore (record k { conds = update k.conds c rest })
]

cond_signal-signal_first :
    (c l : Addr) (k : Kernel)
    → WellFormed k
    → (k.locks l).holder ≡ some k.current
    → cond_signal c l k ≡ signal_first c (list_sort compare_elems (k.conds c)) k
unfolding cond_signal lock_held_by_current_thread
cond_signal-signal_first c l k w h =
    let own : (k.current == k.current) ≡ true = ground arith in
    simp (thread_current-done k w, h, own)

signal_first-Signalled :
    (c : Addr) (waiters : List SemaElem) (k : Kernel)
    → Perm waiters (k.conds c)
    → IsSorted compare_elems waiters
    → ((k.conds c ≡ []) × (signal_first c waiters k ≡ done k))
      ⊎ Signalled c k (signal_first c waiters k)
signal_first-Signalled c [] k p s = inl (sym (Perm.nil-eq p), refl)
signal_first-Signalled c (e ∷ rest) k p s = inr (record {
  first = e;
  rest = rest;
  same = p;
  highest = All-mono _ (λ x. x.priority ≤ e.priority) rest (λ x h. ground arith) s.0;
  wakes = refl;
})

-- `cond_signal` by the holder of the lock, in a well-formed scheduler, fails no `ASSERT` of its own. If no thread waits it does nothing. Else it
-- takes one waiter out of the condition variable, one whose priority, as noted when it began to wait,
-- no other waiter exceeds, and ups that waiter's semaphore; the others stay, each as often as before.
pub cond_signal-Signalled :
    (c l : Addr) (k : Kernel)
    → WellFormed k
    → (k.locks l).holder ≡ some k.current
    → ((k.conds c ≡ []) × (cond_signal c l k ≡ done k)) ⊎ Signalled c k (cond_signal c l k)
cond_signal-Signalled c l k w h =
    let sorted = list_sort_lem (by_key-IsOrder λ (e : SemaElem). e.priority) (k.conds c) in
    subst (λ r. ((k.conds c ≡ []) × (r ≡ done k)) ⊎ Signalled c k r)
      (sym (cond_signal-signal_first c l k w h))
      (signal_first-Signalled c (list_sort compare_elems (k.conds c)) k sorted.0 sorted.1)
