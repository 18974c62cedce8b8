-- ===== src/Threads/Releasing.antt =====
-- `lock_release` of threads/synch.c runs to its end.
use operating_system_col.Base.{
  ◌≡◌, refl, sym, ap, ◌∙◌, subst, inl, inr, true, none, some, List, [], ◌∷◌, All-mono, arith,
  Bool-cases, ltb, ◌==◌,
}
use operating_system_col.Threads.{
  Addr, of_lock, SemaPtr, Thread, Kernel, set_thread, set_lock, get_sema,
}
use operating_system_col.Threads.Schedule.{thread_yield, yield_to_head, hack1}
use operating_system_col.Threads.Sync.{
  is_holder, lock_held_by_current_thread, increment, sema_up, release_tail, lock_release,
}
use operating_system_col.Threads.WellFormed.{Returns, Returns-bind, Returns-mono, WellFormed}
use operating_system_col.Threads.Yield.{thread_current-done, thread_yield-WellFormed}
use operating_system_col.Threads.Waking.{IsFair, AllBlocked, sema_up-Upped, set_sema-IsFair}

increment-IsFair : (s : SemaPtr) (k : Kernel) → IsFair k → IsFair (increment s k)
unfolding increment
increment-IsFair s k f = set_sema-IsFair s _ k f

sema_up-WellFormed :
    (s : SemaPtr) (k : Kernel)
    → IsFair k
    → AllBlocked k (get_sema s k).waiters
    → Returns WellFormed (sema_up s k)
sema_up-WellFormed s k f b = elim (sema_up-Upped s k f b) [
  | inl e ↦ subst (Returns WellFormed) (sym e.1) (increment-IsFair s k f).well_formed
  | inr u ↦ Returns-mono _ WellFormed (sema_up s k) u.woken λ k' w. w.well_formed
]

-- A thread is written back with its status.
same_status-WellFormed :
    (k : Kernel) (t : Addr) (v : Thread)
    → v.status ≡ (k.threads t).status
    → WellFormed k
    → WellFormed (set_thread t v k)
same_status-WellFormed k t v e w = record {
  on_cpu = same k.current ∙ w.on_cpu;
  queued = All-mono _ _ k.ready_list (λ u q. same u ∙ q) w.queued;
  distinct = w.distinct;
  idle = (w.idle.0, w.idle.1, λ d. w.idle.2 (sym (same w.idle.0) ∙ d));
}
  where
    same : (u : Addr) → ((set_thread t v k).threads u).status ≡ (k.threads u).status
    same u = elim (Bool-cases (u == t)) [
      | inl d ↦ let here : t ≡ u = ground arith in rw d (e ∙ ap (λ x. (k.threads x).status) here)
      | inr d ↦ rw d refl
    ]

yield_to_head-WellFormed :
    (l : List Addr) (k : Kernel) → WellFormed k → Returns WellFormed (yield_to_head l k)
unfolding yield_to_head
yield_to_head-WellFormed [] k w = w
yield_to_head-WellFormed (next ∷ rest) k w =
    elim (Bool-cases (ltb (k.threads k.current).priority (k.threads next).priority)) [
      | inl e ↦
          rw (thread_current-done k w, e)
            (Returns-mono _ WellFormed (thread_yield k) (thread_yield-WellFormed k w) λ k' q. q.0)
      | inr e ↦ rw (thread_current-done k w, e) w
    ]

release_tail-WellFormed :
    (l : Addr) (k : Kernel) → WellFormed k → Returns WellFormed (release_tail l k)
unfolding release_tail hack1
release_tail-WellFormed l k w =
    rw (thread_current-done k w)
      (yield_to_head-WellFormed k.ready_list _ (same_status-WellFormed k k.current _ refl w))

-- In a fair kernel, with the waiters of the lock blocked, `lock_release` by the holder of the lock runs
-- to its end or to the point where the thread is switched out: no `ASSERT` fails, and the scheduler is
-- well formed there.
pub lock_release-WellFormed :
    (l : Addr) (k : Kernel)
    → IsFair k
    → (k.locks l).holder ≡ some k.current
    → AllBlocked k (k.locks l).semaphore.waiters
    → Returns (λ out. WellFormed out.1) (lock_release l k)
unfolding lock_release lock_held_by_current_thread
lock_release-WellFormed l k f h b =
    let k1 = set_lock l (record (k.locks l) { holder = none }) k in
    let w = f.well_formed in
    let fair : IsFair k1 = record {
      well_formed = record {
        on_cpu = w.on_cpu;
        queued = w.queued;
        distinct = w.distinct;
        idle = w.idle;
      };
      in_order = f.in_order;
      busy = f.busy;
      top = f.top;
    } in
    let own : (k.current == k.current) ≡ true = ground arith in
    let here : (l == l) ≡ true = ground arith in
    let held : is_holder k.current (k.locks l).holder ≡ true = ap (is_holder k.current) h ∙ own in
    let upped : Returns WellFormed (sema_up (of_lock l) k1) =
      sema_up-WellFormed (of_lock l) k1 fair (rw (get_sema, here) b) in
    rw (thread_current-done k w, held)
      (Returns-bind WellFormed (λ out. WellFormed out.1) (sema_up (of_lock l) k1) _ upped
        λ k' w'. elim (Bool-cases (k'.current == k.current)) [
          | inl e ↦ rw e (
              Returns-bind WellFormed (λ out. WellFormed out.1) (release_tail l k') _
                (release_tail-WellFormed l k' w') λ k'' w''. w'')
          | inr e ↦ rw e w'
        ])
