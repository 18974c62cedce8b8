-- ===== src/ThreadQueue.antt =====
-- The run queue of the user-level threads, qpush, qpop and getHead of G/A3/Top/src/myThread.c.
pub mod Refine
pub mod Tests
use operating_system_col.Base.{ℕ, ◌+◌, ◌-◌, ◌%◌, Bool, true, false, ltb, ◌==◌, if◌then◌else◌}

-- `struct Queue`; the array has `max_threads` entries, and holds the addresses of threads.
pub record Queue : Type 0 where
  pub q : ℕ → ℕ
  pub size : ℕ
  pub head : ℕ
  pub tail : ℕ
  pub max_threads : ℕ

abbrev pub write : (ℕ → ℕ) → ℕ → ℕ → ℕ → ℕ
write q i t j = if j == i then t else q j

-- `true` is the result 0, `false` is -1.
unfoldable pub qpush : ℕ → Queue → Bool × Queue
qpush t queue =
    if ltb queue.size queue.max_threads
    then (
      true,
      record queue {
        q = write queue.q queue.tail t;
        tail = (queue.tail + 1) % queue.max_threads;
        size = queue.size + 1;
      },
    )
    else (false, queue)

unfoldable pub qpop : Queue → Bool × Queue
qpop queue =
    if ltb 0 queue.size
    then (true, record queue { head = (queue.head + 1) % queue.max_threads; size = queue.size - 1 })
    else (false, queue)

unfoldable pub get_head : Queue → ℕ
get_head queue = queue.q queue.head
