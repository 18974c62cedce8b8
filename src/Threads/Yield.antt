-- ===== src/Threads/Yield.antt =====
-- `thread_yield` and `thread_block`, and the invariant of the scheduler.
use operating_system_col.Base.{◌≡◌, ◌≢◌, sym, ap, inl, inr, Bool, List, [], ◌∷◌, arith, Bool-cases}
use operating_system_col.KernelList.{insert_ordered}
use operating_system_col.KernelList.Order.{All-insert}
use operating_system_col.Threads.{
  done, Addr, Status, running, ready, blocked, dying, is_running, Kernel, set_status,
}
use operating_system_col.Threads.Schedule.{
  compare_priority, thread_current, thread_block, ready_again, thread_yield, is_idle,
}
use operating_system_col.Threads.WellFormed.{
  Returns, Avoids, Distinct, AllReady, WellFormed, IsYielding, Chosen, schedule-Rescheduled,
  AllReady-set_status, Avoids-unready, not_dying-set_status,
}

pub Distinct-insert :
    (less : Addr → Addr → Bool) (x : Addr) (l : List Addr)
    → Avoids x l
    → Distinct l
    → Distinct (insert_ordered less x l)
unfolding insert_ordered
Distinct-insert less x [] a d = (tt, tt)
Distinct-insert less x (y ∷ l) a d = elim (Bool-cases (less x y)) [
  | inl e ↦ rw e (a, d)
  | inr e ↦
      rw e
        (All-insert less (λ u. u ≢ y) x l (λ h. a.0 (sym h)) d.0, Distinct-insert less x l a.1 d.1)
]

pub thread_current-done : (k : Kernel) → WellFormed k → thread_current k ≡ done k.current
unfolding thread_current
thread_current-done k w = rw (ap is_running w.on_cpu)

current-Avoids : (k : Kernel) → WellFormed k → Avoids k.current k.ready_list
current-Avoids k w = Avoids-unready k.current k k.ready_list (λ e. cc (w.on_cpu)) w.queued

module _ (k : Kernel) (w : WellFormed k) (s : Status) (stops : s ≢ running)
    (lives : s ≢ dying) where
  -- The current thread gives up the processor, with `l` for the new ready list.
  IsYielding-set_status :
      (l : List Addr)
      → AllReady (set_status k.current s k) l
      → Distinct l
      → IsYielding (set_status k.current s (record k { ready_list = l }))
  IsYielding-set_status l r d = record {
    off_cpu = ground arith;
    queued = r;
    distinct = d;
    idle = (w.idle.0, w.idle.1, not_dying-set_status k.current s k w.idle.0 lives w.idle.2);
  }

  others_ready : AllReady (set_status k.current s k) k.ready_list
  others_ready = AllReady-set_status k.current s k k.ready_list (current-Avoids k w) w.queued

IsYielding-ready_again :
    (k : Kernel) → WellFormed k → IsYielding (set_status k.current ready (ready_again k.current k))
unfolding ready_again
IsYielding-ready_again k w = elim (Bool-cases (is_idle k.current k.idle_thread)) [
  | inl e ↦
      rw (e, ready_again)
        (IsYielding-set_status k w ready (λ h. cc) (λ h. cc) k.ready_list
          (others_ready k w ready (λ h. cc) (λ h. cc)) w.distinct)
  | inr e ↦
      rw (e, ready_again)
        (IsYielding-set_status k w ready (λ h. cc) (λ h. cc)
          (insert_ordered (compare_priority k) k.current k.ready_list)
          (All-insert (compare_priority k)
            (λ t. ((set_status k.current ready k).threads t).status ≡ ready) k.current k.ready_list
            (ground arith) (others_ready k w ready (λ h. cc) (λ h. cc)))
          (Distinct-insert (compare_priority k) k.current k.ready_list (current-Avoids k w)
            w.distinct))
]

-- From a well-formed scheduler, `thread_block` runs to its end in a well-formed one. It blocks the
-- current thread and switches to the head of the ready list, or to the idle thread if that list is
-- empty.
pub thread_block-WellFormed :
    (k : Kernel)
    → WellFormed k
    → Returns (λ k'. WellFormed k' × Chosen (set_status k.current blocked k) k') (thread_block k)
unfolding thread_block
thread_block-WellFormed k w = rw (thread_current-done k w) (
    schedule-Rescheduled (set_status k.current blocked k) (
      IsYielding-set_status k w blocked (λ h. cc) (λ h. cc) k.ready_list
        (others_ready k w blocked (λ h. cc) (λ h. cc)) w.distinct))

pub thread_yield-WellFormed :
    (k : Kernel)
    → WellFormed k
    → Returns
        (λ k'. WellFormed k' × Chosen (set_status k.current ready (ready_again k.current k)) k')
        (thread_yield k)
unfolding thread_yield
thread_yield-WellFormed k w = rw (thread_current-done k w) (
    schedule-Rescheduled (set_status k.current ready (ready_again k.current k))
      (IsYielding-ready_again k w))
