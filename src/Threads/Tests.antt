-- ===== src/Threads/Tests.antt =====
-- Runs of the scheduler on a small machine, and the theorems at it.
use operating_system_col.Base.{
  ℕ, ◌≡◌, ◌≢◌, refl, ◌⊎◌, inl, inr, Bool, false, Option, none, some, [], ◌∷◌, arith, if◌then◌else◌,
  ◌==◌,
}
use operating_system_col.KernelList.{insert_ordered}
use operating_system_col.Threads.{
  Run, done, panic, out_of_fuel, Addr, Status, running, ready, blocked, Thread, Lock, Kernel, alone,
  get_sema,
}
use operating_system_col.Threads.Schedule.{
  thread_current, next_thread_to_run, free_dying, thread_schedule_tail, switch_to, schedule,
  thread_block, ready_again, thread_yield, wake_sleepers,
}
use operating_system_col.Threads.Sync.{
  lock_release, raise, donate, donate_to_holder, lock_held_by_current_thread, before_wait,
  lock_wait, sema_down, lock_acquire, cond_signal, sema_up, increment,
}
use operating_system_col.Threads.WellFormed.{Returns, WellFormed}
use operating_system_col.Threads.Priority.{ReadySorted, Yielded, thread_yield_highest}
use operating_system_col.Threads.Donation.{
  Chain, free, link, OnChain, OnChain-cases, no_link, lock_acquire_hangs,
}
use operating_system_col.Threads.Acquire.{Pledged, donate_to_holder_lem}
use operating_system_col.Threads.Timer.{is_due, Woken, timer_wakes_due}
use operating_system_col.Threads.Exclusion.{IsExclusive}
use operating_system_col.Threads.ReadWrite.{RwLock, rwlock_read_release, rwlock_read_release-panics}
use operating_system_col.Threads.Waking.{Upped, sema_up-Upped}
use operating_system_col.Threads.Releasing.{lock_release-WellFormed}
use operating_system_col.Threads.Signal.{Signalled, cond_signal-Signalled}
use operating_system_col.Threads.Reach.{
  yields, acquire, Steps, here, next, Steps-holder, Steps-IsExclusive,
}

abbrev thread_with : Status → ℕ → Option Addr → ℕ → Thread
thread_with s p b e = record {
  tid = 0;
  status = s;
  priority = p;
  current_priority = p;
  donated_priority = [];
  block_lock = b;
  sleep_end = e;
  parent = 0;
  pagedir = none;
}

-- Thread 0 is the idle thread, 1 runs at 31, 2 is ready at 40 and 3 at 20, 4 and 5 sleep until the
-- ticks 5 and 9.
abbrev five_threads : Addr → Thread
five_threads t =
    if t == 0
    then thread_with blocked 0 none 0
    else if t == 1
    then thread_with running 31 none 0
    else if t == 2
    then thread_with ready 40 none 0
    else if t == 3
    then thread_with ready 20 none 0
    else if t == 4
    then thread_with blocked 33 none 5
    else thread_with blocked 35 none 9

-- The lock at 7 is held by thread 1, the others are free.
abbrev one_lock : Addr → Lock
one_lock l =
    if l == 7
    then record { holder = some 1; semaphore = record { value = 0; waiters = [] } }
    else record { holder = none; semaphore = record { value = 1; waiters = [] } }

abbrev machine : Kernel
machine = record {
  threads = five_threads;
  locks = one_lock;
  semas = λ _. record { value = 0; waiters = [] };
  conds = λ _. [];
  ready_list = 2 ∷ 3 ∷ [];
  all_list = 0 ∷ 1 ∷ 2 ∷ 3 ∷ 4 ∷ 5 ∷ [];
  sleeping_list = 4 ∷ 5 ∷ [];
  current = 1;
  idle_thread = some 0;
  initial_thread = 1;
  freed = [];
  next_tid = 7;
  ticks = 6;
  idle_ticks = 0;
  user_ticks = 0;
  kernel_ticks = 6;
  thread_ticks = 2;
  yield_on_return = false;
}

machine-WellFormed : WellFormed machine
machine-WellFormed = record {
  on_cpu = refl;
  queued = (refl, (refl, tt));
  distinct = ((omega arith, tt), (tt, tt));
  idle = (0, refl, λ e. cc);
}

machine-ReadySorted : ReadySorted machine
machine-ReadySorted = ((refl, tt), (tt, tt))

machine-IsExclusive : IsExclusive machine
machine-IsExclusive = record { balanced = λ l. ground arith }

abbrev kernel_of : Run Kernel → Kernel
kernel_of (done k) = k
kernel_of panic = machine
kernel_of out_of_fuel = machine

abbrev kernel_behind : Run (Bool × Kernel) → Kernel
kernel_behind (done out) = out.1
kernel_behind panic = machine
kernel_behind out_of_fuel = machine

-- Thread 1 yields to thread 2, which then asks for the lock and waits.
abbrev yielded : Kernel
yielded = kernel_of (thread_yield machine)

abbrev waiting : Kernel
waiting = kernel_behind (lock_acquire 10 7 yielded)

thread_yield_highest_example : Returns (Yielded machine) (thread_yield machine)
thread_yield_highest_example =
    thread_yield_highest machine machine-WellFormed machine-ReadySorted refl

timer_wakes_due_example :
    Returns (Woken (is_due machine) [] (4 ∷ 5 ∷ []) machine) (wake_sleepers (4 ∷ 5 ∷ []) machine)
timer_wakes_due_example =
    timer_wakes_due machine machine-WellFormed machine-ReadySorted ((omega arith, tt), (tt, tt))
      (refl, (refl, tt))

contended-Steps : Steps (λ m. m ≢ 7) machine waiting
unfolding lock_acquire lock_held_by_current_thread thread_current before_wait donate_to_holder
    donate raise lock_wait sema_down thread_block schedule switch_to next_thread_to_run free_dying
    thread_schedule_tail thread_yield ready_again insert_ordered
contended-Steps = next (next here (yields refl)) (acquire 10 7 false refl)

Steps-holder_example : (waiting.locks 7).holder ≡ some 1
Steps-holder_example =
    Steps-holder {l = 7} {t = 1} {k = machine} {k' = waiting} machine-IsExclusive refl
      contended-Steps

Steps-IsExclusive_example : IsExclusive waiting
Steps-IsExclusive_example =
    Steps-IsExclusive (λ m. m ≢ 7) {k = machine} {k' = waiting} machine-IsExclusive contended-Steps

-- Thread 2 runs. It wants the lock at 7 of thread 1, which waits for the lock at 8 of thread 3.
abbrev chain_threads : Addr → Thread
chain_threads t =
    if t == 2
    then thread_with running 40 none 0
    else if t == 1
    then thread_with blocked 31 (some 8) 0
    else five_threads t

abbrev chain_locks : Addr → Lock
chain_locks l =
    if l == 8
    then record { holder = some 3; semaphore = record { value = 0; waiters = 1 ∷ [] } }
    else one_lock l

abbrev chained : Kernel
chained = record machine {
  threads = chain_threads;
  locks = chain_locks;
  current = 2;
  ready_list = 3 ∷ [];
}

chained-Chain : Chain chained 1 1
chained-Chain = link {l = 8} {hold = 3} refl refl (free refl)

chained-apart : ¬ OnChain chained 1 2
chained-apart on = elim (OnChain-cases {k = chained} on 8 3 refl refl) [
  | inl e ↦ omega (arith, e)
  | inr later ↦ omega (arith, no_link {k = chained} later refl)
]

donate_to_holder_lem_example : Returns (Pledged 7 2 1 chained) (donate_to_holder 5 7 2 1 chained)
donate_to_holder_lem_example =
    donate_to_holder_lem 5 1 chained 7 2 1 refl (omega arith) chained-Chain chained-apart
      (omega arith)

-- Thread 1 has been given the lock at 7, and its `block_lock` still names it.
abbrev stale : Kernel
stale = record machine {
  threads = λ t.
      if t == 2
      then thread_with running 40 none 0
      else if t == 1
      then thread_with ready 31 (some 7) 0
      else five_threads t;
  current = 2;
  ready_list = 1 ∷ 3 ∷ [];
}

lock_acquire_hangs_example : lock_acquire 100 7 stale ≡ out_of_fuel
lock_acquire_hangs_example =
    lock_acquire_hangs 100 7 1 7 stale refl refl (omega arith) (omega arith) refl refl

-- Thread 3 came first and left, and thread 1 is the last reader.
abbrev read_machine : Kernel
read_machine = record machine {
  locks = λ l.
      if l == 9
      then record { holder = some 3; semaphore = record { value = 0; waiters = [] } }
      else record { holder = none; semaphore = record { value = 1; waiters = [] } };
}

abbrev one_reader : RwLock
one_reader = record { read_count = 1; read_lock = 8; write_lock = 9 }

rwlock_read_release-panics_example : rwlock_read_release 10 one_reader read_machine ≡ panic
rwlock_read_release-panics_example =
    rwlock_read_release-panics 10 one_reader read_machine 3
      (record {
        on_cpu = refl;
        queued = (refl, (refl, tt));
        distinct = ((omega arith, tt), (tt, tt));
        idle = (0, refl, λ e. cc);
      })
      (record { no_holder = refl; up = omega arith }) refl (omega arith) refl (omega arith)

abbrev signal_machine : Kernel
signal_machine = record machine {
  conds = λ c.
      record { semaphore = alone 5; priority = 20 }
      ∷ record { semaphore = alone 6; priority = 40 }
      ∷ [];
}

cond_signal-Signalled_example :
    ((signal_machine.conds 2 ≡ []) × (cond_signal 2 7 signal_machine ≡ done signal_machine))
    ⊎ Signalled 2 signal_machine (cond_signal 2 7 signal_machine)
cond_signal-Signalled_example =
    cond_signal-Signalled 2 7 signal_machine
      (record {
        on_cpu = refl;
        queued = (refl, (refl, tt));
        distinct = ((omega arith, tt), (tt, tt));
        idle = (0, refl, λ e. cc);
      })
      refl

-- Threads 4 and 5 wait at the semaphore 6.
abbrev fair_machine : Kernel
fair_machine = record machine {
  ready_list = 3 ∷ [];
  sleeping_list = [];
  semas = λ s. record { value = 0; waiters = if s == 6 then 4 ∷ 5 ∷ [] else [] };
}

sema_up-Upped_example :
    (((get_sema (alone 6) fair_machine).waiters ≡ [])
      × (sema_up (alone 6) fair_machine ≡ done (increment (alone 6) fair_machine)))
    ⊎ Upped (alone 6) fair_machine (sema_up (alone 6) fair_machine)
sema_up-Upped_example =
    sema_up-Upped (alone 6) fair_machine
      (record {
        well_formed = record {
          on_cpu = refl;
          queued = (refl, tt);
          distinct = (tt, tt);
          idle = (0, refl, λ e. cc);
        };
        in_order = (tt, tt);
        busy = refl;
        top = (omega arith, tt);
      })
      (refl, (refl, tt))

-- Thread 1 holds the lock 7, for which threads 4 and 5 wait.
abbrev held_machine : Kernel
held_machine = record fair_machine {
  locks = λ l. record { holder = some 1; semaphore = record { value = 0; waiters = 4 ∷ 5 ∷ [] } };
}

lock_release-WellFormed_example : Returns (λ out. WellFormed out.1) (lock_release 7 held_machine)
lock_release-WellFormed_example =
    lock_release-WellFormed 7 held_machine
      (record {
        well_formed = record {
          on_cpu = refl;
          queued = (refl, tt);
          distinct = (tt, tt);
          idle = (0, refl, λ e. cc);
        };
        in_order = (tt, tt);
        busy = refl;
        top = (omega arith, tt);
      })
      refl (refl, (refl, tt))
