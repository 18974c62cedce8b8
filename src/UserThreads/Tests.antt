-- ===== src/UserThreads/Tests.antt =====
-- Main and two threads, and the scheduler on them.
use operating_system_col.Base.{ℕ, ◌≡◌, refl, true, none, some, [], ◌∷◌, arith, ◌==◌, if◌then◌else◌}
use operating_system_col.ThreadQueue.{Queue}
use operating_system_col.ThreadQueue.Refine.{contents}
use operating_system_col.UserThreads.{Tcb, Library, my_thread_cond_signal}
use operating_system_col.UserThreads.Rotation.{Queued}

-- The run queue holds 20, `next` and `last`.
abbrev queue_of : ℕ → ℕ → Queue
queue_of next last = record {
  q = λ i. if i == 0 then 20 else if i == 1 then next else last;
  size = 3;
  head = 0;
  tail = 3;
  max_threads = 100;
}

-- Main is at 10; the threads at 20, which main has joined, and 30.
abbrev tcbs : ℕ → ℕ → Tcb
tcbs status p = record {
  id = if p == 10 then 4294967295 else p;
  status = if p == 20 then status else 0;
  join = if p == 10 then 1 else 0;
  first = 1;
  joining_thread = if p == 20 then some 10 else none;
  cancel = 0;
}

abbrev library : ℕ → ℕ → ℕ → Library
library status next last = record {
  tcb = tcbs status;
  lock = λ l. 0;
  cond = λ c. record { waiting = queue_of 40 50; lock = 0 };
  ready = queue_of next last;
  running_tcb = 20;
  main_tcb = 10;
  global_id = 40;
  flag_init = true;
}

waited-Queued : Queued (20 ∷ 30 ∷ 10 ∷ []) (library 2 30 10)
waited-Queued = record {
  ring = record { head_in = omega arith; size_in = omega arith; tail_at = refl };
  holds = refl;
}

-- A signal moves the first waiting thread, 20, to the end of the run queue.
signals_first :
    contents (my_thread_cond_signal 0 (library 0 30 10)).1.ready ≡ 20 ∷ 30 ∷ 10 ∷ 20 ∷ []
unfolding my_thread_cond_signal operating_system_col.ThreadQueue.qpush
    operating_system_col.ThreadQueue.get_head operating_system_col.ThreadQueue.qpop
signals_first = refl
