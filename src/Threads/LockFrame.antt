-- ===== src/Threads/LockFrame.antt =====
-- The functions of threads/synch.c, and of the creation and the end of a thread, that leave every lock
-- alone.
use mathlib.Core.List.{Perm, Mem, mem-cons, mem-cons_self, not-mem-nil}
use mathlib.Core.List.Perm
use mathlib.Core.Logic.Or
use operating_system_col.Base.{
  ℕ, ◌≡◌, refl, sym, subst, ◌∙◌, Bool, true, false, List-cases, inl, inr, List, [], ◌∷◌, All,
  Bool-cases, ltb, leb, ◌==◌,
}
use operating_system_col.KernelList.{insert_ordered, list_sort}
use operating_system_col.KernelList.Order.{by_key-IsOrder}
use operating_system_col.KernelList.Sort.{list_sort_lem}
use operating_system_col.Threads.{
  assert, Addr, SemaPtr, of_lock, alone, SemaElem, Kernel, get_sema, set_sema, update,
}
use operating_system_col.Threads.Schedule.{
  compare_priority, thread_current, thread_unblock, thread_block, thread_yield, thread_get_priority,
  pri_max, init_thread, thread_start_ready, thread_exit,
}
use operating_system_col.Threads.Sync.{
  sema_init, sema_down, sema_try_down, sema_up, wake_first, increment, compare_elems, cond_enqueue,
  cond_signal, lock_held_by_current_thread,
}
use operating_system_col.Threads.Frame.{
  Ensures, Ensures-bind, Ensures-mono, Ensures-after, SameLocks, locks-thread_block,
  locks-thread_yield, locks-thread_unblock, locks-schedule,
}

locks-increment : (a : Addr) (k : Kernel) → SameLocks k (increment (alone a) k)
unfolding increment
locks-increment a k = refl

locks-wake_first :
    (a : Addr) (ts : List Addr) (k : Kernel) → Ensures (SameLocks k) (wake_first (alone a) ts k)
unfolding wake_first
locks-wake_first a [] k = locks-increment a k
locks-wake_first a (t ∷ ts) k =
    let k1 = set_sema (alone a) (record (get_sema (alone a) k) { waiters = ts }) k in
    Ensures-bind (SameLocks k1) (SameLocks k) (thread_unblock t k1) _ (locks-thread_unblock t k1)
      λ k' e.
        let k'' = increment (alone a) k' in
        let same : SameLocks k k'' = locks-increment a k' ∙ e in
        Ensures-after (SameLocks k) (thread_get_priority k'') _ λ mine.
          elim (Bool-cases (ltb mine (k''.threads t).current_priority)) [
            | inl b ↦ rw b (
                Ensures-mono (SameLocks k'') (SameLocks k) (thread_yield k'')
                  (locks-thread_yield k'') (λ k3 e'. e' ∙ same))
            | inr b ↦ rw b same
          ]

pub locks-sema_up : (a : Addr) (k : Kernel) → Ensures (SameLocks k) (sema_up (alone a) k)
unfolding sema_up
locks-sema_up a k = locks-wake_first a _ k

pub locks-sema_down :
    (a : Addr) (k : Kernel) → Ensures (λ out. SameLocks k out.1) (sema_down (alone a) k)
unfolding sema_down
locks-sema_down a k = elim (Bool-cases ((k.semas a).value == 0)) [
  | inl e ↦ rw e (
      Ensures-after (λ out. SameLocks k out.1) (thread_current k) _
        λ cur.
          let w = insert_ordered (compare_priority k) cur (k.semas a).waiters in
          let k1 = set_sema (alone a) (record (get_sema (alone a) k) { waiters = w }) k in
          Ensures-bind (SameLocks k1) (λ out. SameLocks k out.1) (thread_block k1) _
            (locks-thread_block k1) λ k' same. same)
  | inr e ↦ rw e refl
]

pub locks-sema_try_down : (a : Addr) (k : Kernel) → SameLocks k (sema_try_down (alone a) k).1
unfolding sema_try_down
locks-sema_try_down a k = elim (Bool-cases (ltb 0 (k.semas a).value)) [
  | inl e ↦ rw e refl
  | inr e ↦ rw e refl
]

pub locks-init_thread : (p n : ℕ) (k : Kernel) → Ensures (SameLocks k) (init_thread p n k)
unfolding init_thread
locks-init_thread p n k = Ensures-after (SameLocks k) (assert (leb n pri_max)) _ λ _. refl

pub locks-thread_start_ready :
    (t : Addr) (k : Kernel) → Ensures (SameLocks k) (thread_start_ready t k)
unfolding thread_start_ready
locks-thread_start_ready t k =
    Ensures-bind (SameLocks k) (SameLocks k) (thread_unblock t k) _ (locks-thread_unblock t k)
      λ k' e. Ensures-after (SameLocks k) (thread_get_priority k') _ λ two.
        elim (Bool-cases (ltb two (k'.threads t).priority)) [
          | inl b ↦ rw b (
              Ensures-mono (SameLocks k') (SameLocks k) (thread_yield k') (locks-thread_yield k')
                λ k'' e'. e' ∙ e)
          | inr b ↦ rw b e
        ]

pub locks-thread_exit : (k : Kernel) → Ensures (SameLocks k) (thread_exit k)
unfolding thread_exit
locks-thread_exit k = Ensures-after (SameLocks k) (thread_current k) _ λ cur. locks-schedule _

abbrev pub is_alone : SemaPtr → Bool
is_alone (of_lock l) = false
is_alone (alone a) = true

-- The waiters of the condition variable wait at semaphores that are in no lock.
abbrev pub WaitAlone : Addr → Kernel → Type 0
WaitAlone c k = All (λ e. is_alone e.semaphore ≡ true) (k.conds c)

alone_of_mem :
    (e : SemaElem) (l : List SemaElem)
    → All (λ x. is_alone x.semaphore ≡ true) l
    → Mem e l
    → is_alone e.semaphore ≡ true
alone_of_mem e [] h m = absurd (not-mem-nil m)
alone_of_mem e (x ∷ l) h m =
    Or.elim (hlevel) (mem-cons.0 m) (λ q. subst (λ y. is_alone y.semaphore ≡ true) (sym q) h.0)
      (alone_of_mem e l h.1)

locks-woken : (s : SemaPtr) (k : Kernel) → is_alone s ≡ true → Ensures (SameLocks k) (sema_up s k)
locks-woken (of_lock l) k e = cc (e)
locks-woken (alone a) k e = locks-sema_up a k

pub locks-cond_enqueue :
    (c l a : Addr) (k : Kernel) → Ensures (SameLocks k) (cond_enqueue c l (alone a) k)
unfolding cond_enqueue sema_init
locks-cond_enqueue c l a k = Ensures-after (SameLocks k) (lock_held_by_current_thread l k) _ λ held.
    Ensures-after (SameLocks k) (assert held) _
      λ _. Ensures-after (SameLocks k) (thread_get_priority k) _ λ p. refl

pub locks-cond_signal :
    (c l : Addr) (k : Kernel) → WaitAlone c k → Ensures (SameLocks k) (cond_signal c l k)
unfolding cond_signal
locks-cond_signal c l k h =
    let sorted = list_sort_lem (by_key-IsOrder λ (e : SemaElem). e.priority) (k.conds c) in
    Ensures-after (SameLocks k) (lock_held_by_current_thread l k) _ λ held.
      Ensures-after (SameLocks k) (assert held) _ λ _.
        elim (List-cases (list_sort compare_elems (k.conds c))) [
          | inl e ↦ rw e refl
          | inr (x, rest, e) ↦
              let perm = subst (λ r. Perm r (k.conds c)) e sorted.0 in
              let first = alone_of_mem x (k.conds c) h ((Perm.mem_iff perm).0 mem-cons_self) in
              rw e (locks-woken x.semaphore (record k { conds = update k.conds c rest }) first)
        ]
