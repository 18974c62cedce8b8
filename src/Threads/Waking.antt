-- ===== src/Threads/Waking.antt =====
-- `sema_up` of threads/synch.c under the priority order.
use mathlib.Core.List.{Perm, Mem, mem-cons, mem-cons_self, not-mem-nil}
use mathlib.Core.Logic.Or
use mathlib.Core.List.Perm
use mathlib.Core.Path.{subst}
use operating_system_col.Base.{
  ◌≤◌, ◌≡◌, refl, sym, ap, ◌⊎◌, inl, inr, false, List, [], ◌∷◌, All, All-mono, arith, Bool-cases,
  ltb, ltb→le, if◌then◌else◌,
}
use operating_system_col.KernelList.{insert_ordered, list_sort}
use operating_system_col.KernelList.Order.{IsSorted, by_key-IsOrder, All-insert}
use operating_system_col.KernelList.Sort.{list_sort_lem}
use operating_system_col.Threads.{
  Run, done, ◌>>=◌, Addr, Sema, Lock, SemaPtr, of_lock, alone, Status, ready, blocked, is_blocked,
  Kernel, set_status, get_sema, set_sema,
}
use operating_system_col.Threads.Schedule.{
  compare_priority, thread_unblock, thread_yield, thread_get_priority, is_idle,
}
use operating_system_col.Threads.Sync.{increment, wake_first, sema_up}
use operating_system_col.Threads.WellFormed.{Returns, Returns-mono, WellFormed}
use operating_system_col.Threads.Yield.{thread_current-done}
use operating_system_col.Threads.Priority.{
  ReadySorted, shown, RunsHighest, Yielded, thread_yield_highest, Unblocked, thread_unblock_lem,
}

-- The scheduler is well formed, its ready list in order, and the right thread runs.
pub record IsFair (k : Kernel) : Type 0 where
  pub well_formed : WellFormed k
  pub in_order : ReadySorted k
  pub busy : is_idle k.current k.idle_thread ≡ false
  pub top : RunsHighest k

-- A kernel that differs in its locks and semaphores only.
abbrev stored : (Addr → Lock) → (Addr → Sema) → Kernel → Kernel
stored l s k = record k { locks = l; semas = s }

set_sema-stored :
    (s : SemaPtr) (v : Sema) (k : Kernel)
    → set_sema s v k ≡ stored (set_sema s v k).locks (set_sema s v k).semas k
set_sema-stored (of_lock p) v k = refl
set_sema-stored (alone p) v k = refl

pub set_sema-IsFair : (s : SemaPtr) (v : Sema) (k : Kernel) → IsFair k → IsFair (set_sema s v k)
set_sema-IsFair s v k f =
    let w = f.well_formed in
    subst IsFair (sym (set_sema-stored s v k)) (record {
      well_formed = record {
        on_cpu = w.on_cpu;
        queued = w.queued;
        distinct = w.distinct;
        idle = w.idle;
      };
      in_order = f.in_order;
      busy = f.busy;
      top = f.top;
    })

-- What `sema_up` does with the thread that it wakes.
pub record Woken (t : Addr) (k k' : Kernel) : Type 0 where
  pub well_formed : WellFormed k'
  pub in_order : ReadySorted k'
  pub top : RunsHighest k'
  pub same_threads : Perm (k'.current ∷ k'.ready_list) (t ∷ k.current ∷ k.ready_list)

-- `t` has been put on the ready list.
abbrev unblocked : Addr → Kernel → Kernel
unblocked t k =
    set_status t ready
      (record k { ready_list = insert_ordered (compare_priority k) t k.ready_list })

thread_unblock-done :
    (t : Addr) (k : Kernel)
    → (k.threads t).status ≡ blocked
    → thread_unblock t k ≡ done (unblocked t k)
unfolding thread_unblock
thread_unblock-done t k h = rw (ap is_blocked h) refl

shown-unblocked : (t u : Addr) (k : Kernel) → shown (unblocked t k) u ≡ shown k u
shown-unblocked t u k = ground arith

-- Behind `thread_unblock`: the woken thread gets the processor if its priority is higher.
abbrev give_way : Addr → Kernel → Run Kernel
give_way t k = thread_get_priority k >>= λ mine.
    if ltb mine (k.threads t).current_priority then thread_yield k else done k

give_way-Woken :
    (t : Addr) (k : Kernel)
    → WellFormed k
    → ReadySorted k
    → is_idle k.current k.idle_thread ≡ false
    → All (λ u. (shown k u ≤ shown k k.current) ⊎ (u ≡ t)) k.ready_list
    → Returns
        (λ k'.
          WellFormed k'
          × ReadySorted k'
          × RunsHighest k'
          × Perm (k'.current ∷ k'.ready_list) (k.current ∷ k.ready_list))
        (give_way t k)
unfolding thread_get_priority
give_way-Woken t k w sorted busy below = elim (Bool-cases (ltb (shown k k.current) (shown k t))) [
  | inl e ↦
      rw (thread_current-done k w, e)
        (Returns-mono (Yielded k) _ (thread_yield k) (thread_yield_highest k w sorted busy)
          λ k' y. (y.well_formed, y.in_order, y.top, y.same_threads))
  | inr e ↦
      rw (thread_current-done k w, e)
        (
          w,
          sorted,
          All-mono _ (λ u. shown k u ≤ shown k k.current) k.ready_list
              (λ u q. elim q [
                | inl h ↦ h
                | inr h ↦ subst (λ x. shown k x ≤ shown k k.current) (sym h) (ltb→le _ _ e)
              ])
              below,
          Perm.refl _,
        )
]

module _ (t : Addr) (k : Kernel) (f : IsFair k) (h : (k.threads t).status ≡ blocked)
    (l : Addr → Lock) (s : Addr → Sema) where
  -- The thread is ready, and the semaphore has its new value.
  abbrev behind : Kernel
  behind = stored l s (unblocked t k)

  is_unblocked : Unblocked t k (unblocked t k)
  is_unblocked =
      subst (Returns (Unblocked t k)) (thread_unblock-done t k h)
        (thread_unblock_lem t k f.well_formed f.in_order h)

  behind-WellFormed : WellFormed behind
  behind-WellFormed =
      let w = is_unblocked.well_formed in
      record { on_cpu = w.on_cpu; queued = w.queued; distinct = w.distinct; idle = w.idle }

  below_or_woken :
      All (λ u. (shown behind u ≤ shown behind behind.current) ⊎ (u ≡ t)) behind.ready_list
  below_or_woken =
      All-insert (compare_priority k)
        (λ u. (shown behind u ≤ shown behind behind.current) ⊎ (u ≡ t)) t k.ready_list (inr refl)
        (All-mono (λ u. shown k u ≤ shown k k.current)
          (λ u. (shown behind u ≤ shown behind behind.current) ⊎ (u ≡ t)) k.ready_list
          (λ u q. inl (omega (arith, shown-unblocked t u k, shown-unblocked t k.current k, q)))
          f.top)

  give_way-behind : Returns (Woken t k) (give_way t behind)
  give_way-behind =
      Returns-mono _ (Woken t k) (give_way t behind)
        (give_way-Woken t behind behind-WellFormed is_unblocked.in_order f.busy below_or_woken)
        λ k' q. record {
          well_formed = q.0;
          in_order = q.1;
          top = q.2;
          same_threads = Perm.trans q.3 (
              Perm.trans (Perm.cons k.current is_unblocked.same_threads)
                (Perm.swap t k.current k.ready_list));
        }

-- `wake_first` with a waiter that is blocked.
wake_first-Woken :
    (s : SemaPtr) (t : Addr) (rest : List Addr) (k : Kernel)
    → IsFair k
    → (k.threads t).status ≡ blocked
    → Returns (Woken t k) (wake_first s (t ∷ rest) k)
unfolding wake_first increment
wake_first-Woken (of_lock p) t rest k f h =
    rw (thread_unblock-done t (set_sema (of_lock p) _ k) h) (give_way-behind t k f h _ _)
wake_first-Woken (alone p) t rest k f h =
    rw (thread_unblock-done t (set_sema (alone p) _ k) h) (give_way-behind t k f h _ _)

Status-set : IsSet Status
Status-set = hlevel

abbrev pub AllBlocked : Kernel → List Addr → Type 0
AllBlocked k = All (λ t. (k.threads t).status ≡ blocked)

blocked_of_mem :
    (k : Kernel) (t : Addr) (l : List Addr)
    → AllBlocked k l
    → Mem t l
    → (k.threads t).status ≡ blocked
blocked_of_mem k t [] h m = absurd (not-mem-nil m)
blocked_of_mem k t (x ∷ l) h m =
    Or.elim (Status-set (k.threads t).status blocked) (mem-cons.0 m)
      (λ e. subst (λ y. (k.threads y).status ≡ blocked) (sym e) h.0) (blocked_of_mem k t l h.1)

-- The waiter that is woken, and those that wait on.
pub record Upped (s : SemaPtr) (k : Kernel) (r : Run Kernel) : Type 0 where
  pub first : Addr
  pub rest : List Addr
  pub same : Perm (first ∷ rest) (get_sema s k).waiters
  pub highest : All (λ t. shown k t ≤ shown k first) rest
  pub woken : Returns (Woken first k) r

Bounds→shown :
    (k : Kernel) (t : Addr) (l : List Addr)
    → All (λ u. compare_priority k u t ≡ false) l
    → All (λ u. shown k u ≤ shown k t) l
Bounds→shown k t l = All-mono _ _ l λ u h. ltb→le (shown k t) (shown k u) h

wake_first-Upped :
    (s : SemaPtr) (waiters : List Addr) (k : Kernel)
    → IsFair k
    → AllBlocked k (get_sema s k).waiters
    → Perm waiters (get_sema s k).waiters
    → IsSorted (compare_priority k) waiters
    → (((get_sema s k).waiters ≡ []) × (wake_first s waiters k ≡ done (increment s k)))
      ⊎ Upped s k (wake_first s waiters k)
wake_first-Upped s [] k f b p o = inl (sym (Perm.nil-eq p), unfold wake_first in refl)
wake_first-Upped s (t ∷ rest) k f b p o = inr (record {
  first = t;
  rest = rest;
  same = p;
  highest = Bounds→shown k t rest o.0;
  woken =
      wake_first-Woken s t rest k f
        (blocked_of_mem k t (get_sema s k).waiters b ((Perm.mem_iff p).0 mem-cons_self));
})

-- In a fair kernel (well formed, the ready list in order, the idle thread not running, and no ready
-- thread of a higher priority than the running one), with all waiters of the semaphore blocked,
-- `sema_up` runs to its end. With no waiter, it only increments the semaphore. Else it wakes one
-- waiter that no other waiter exceeds in priority: no thread is lost or added but that one, the
-- scheduler stays well formed and the ready list in order, and again no ready thread has a higher
-- priority than the one that runs.
pub sema_up-Upped :
    (s : SemaPtr) (k : Kernel)
    → IsFair k
    → AllBlocked k (get_sema s k).waiters
    → (((get_sema s k).waiters ≡ []) × (sema_up s k ≡ done (increment s k)))
      ⊎ Upped s k (sema_up s k)
unfolding sema_up
sema_up-Upped s k f b =
    let sorted = list_sort_lem (by_key-IsOrder (shown k)) (get_sema s k).waiters in
    wake_first-Upped s (list_sort (compare_priority k) (get_sema s k).waiters) k f b sorted.0
      sorted.1
