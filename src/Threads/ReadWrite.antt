-- ===== src/Threads/ReadWrite.antt =====
-- The reader-writer locks of threads/synch.c. A `struct rwlock` is apart from the memory of the kernel:
-- it is given to each function, and comes back with its result.
use operating_system_col.Base.{
  ℕ, ◌+◌, ◌-◌, ◌%◌, ◌≡◌, ◌≢◌, refl, ap, true, false, none, some, ◌==◌, if◌then◌else◌, arith,
}
use operating_system_col.Syscall.{word}
use operating_system_col.Threads.{
  Run, done, panic, ◌>>=◌, Addr, of_lock, Kernel, set_lock, set_sema, is_running,
}
use operating_system_col.Threads.Schedule.{thread_current}
use operating_system_col.Threads.Sync.{
  lock_init, lock_held_by_current_thread, sema_down, lock_wait, before_wait, lock_acquire,
  lock_release,
}
use operating_system_col.Threads.WellFormed.{WellFormed}
use operating_system_col.Threads.Yield.{thread_current-done}

-- `struct rwlock`, with the addresses of its locks.
pub record RwLock : Type 0 where
  pub read_count : ℕ
  pub read_lock : Addr
  pub write_lock : Addr

-- Where the thread is: it has returned to its caller, or it was switched out in one of the calls, and
-- goes on behind it when it is scheduled.
pub data Place : Type 0 where
  finished : Place
  at_read_lock : Place
  at_write_lock : Place
  at_release : Place

abbrev pub Outcome : Type 0
Outcome = Place × RwLock × Kernel

unfoldable pub rwlock_init : Addr → Addr → Kernel → RwLock × Kernel
unfolding lock_init
rwlock_init r w k =
    (record { read_count = 0; read_lock = r; write_lock = w }, lock_init w (lock_init r k))

-- The last call of a reader.
abbrev pub unlock_readers : RwLock → Kernel → Run Outcome
unlock_readers l k = lock_release l.read_lock k >>= λ (returned, k').
    done (if returned then finished else at_release, l, k')

-- `l->read_count++` and what follows.
abbrev pub enter : RwLock → Kernel → Run Outcome
enter l k = unlock_readers (record l { read_count = (l.read_count + 1) % word }) k

-- `rwlock_read_acquire` behind its first call.
unfoldable pub read_locked : ℕ → RwLock → Kernel → Run Outcome
read_locked fuel l k =
    if l.read_count == 0
    then (lock_acquire fuel l.write_lock k >>= λ (got, k').
        if got then enter l k' else done (at_write_lock, l, k'))
    else enter l k

unfoldable pub rwlock_read_acquire : ℕ → RwLock → Kernel → Run Outcome
unfolding read_locked
rwlock_read_acquire fuel l k = lock_acquire fuel l.read_lock k >>= λ (got, k').
    if got then read_locked fuel l k' else done (at_read_lock, l, k')

-- `rwlock_read_release` behind its first call.
abbrev pub leave : RwLock → Kernel → Run Outcome
leave l k =
    if l.read_count == 0
    then (lock_release l.write_lock k >>= λ (returned, k').
        if returned then unlock_readers l k' else done (at_write_lock, l, k'))
    else unlock_readers l k

unfoldable pub rwlock_read_release : ℕ → RwLock → Kernel → Run Outcome
rwlock_read_release fuel l k = lock_acquire fuel l.read_lock k >>= λ (got, k').
    if got
    then leave (record l { read_count = (l.read_count + word - 1) % word }) k'
    else done (at_read_lock, l, k')

unfoldable pub rwlock_write_acquire : ℕ → RwLock → Kernel → Run Outcome
rwlock_write_acquire fuel l k = lock_acquire fuel l.write_lock k >>= λ (got, k').
    done (if got then finished else at_write_lock, l, k')

unfoldable pub rwlock_write_release : RwLock → Kernel → Run Outcome
rwlock_write_release l k = lock_release l.write_lock k >>= λ (returned, k').
    done (if returned then finished else at_release, l, k')

-- A lock that nobody holds.
pub record IsFree (l : Addr) (k : Kernel) : Type 0 where
  pub no_holder : (k.locks l).holder ≡ none
  pub up : (k.locks l).semaphore.value ≢ 0

-- The state in which the current thread has taken it.
taken : Addr → Kernel → Kernel
taken l k =
    let s = record (k.locks l).semaphore { value = (k.locks l).semaphore.value - 1 } in
    let k' = set_sema (of_lock l) s k in
    set_lock l (record (k'.locks l) { holder = some k.current }) k'

lock_wait-IsFree :
    (l : Addr) (k : Kernel) → WellFormed k → IsFree l k → lock_wait l k ≡ done (true, taken l k)
unfolding lock_wait sema_down thread_current taken
lock_wait-IsFree l k w f =
    let on : is_running (k.threads k.current).status ≡ true = ap is_running w.on_cpu in
    let up : ((k.locks l).semaphore.value == 0) ≡ false = ground (arith, f.up) in rw (up, on) refl

lock_acquire-IsFree :
    (fuel l : ℕ) (k : Kernel)
    → WellFormed k
    → IsFree l k
    → lock_acquire fuel l k ≡ done (true, taken l k)
unfolding lock_acquire lock_held_by_current_thread before_wait
lock_acquire-IsFree fuel l k w f =
    simp (thread_current-done k w, f.no_holder, lock_wait-IsFree l k w f)

-- `ASSERT (lock_held_by_current_thread (lock))`
lock_release-panics :
    (l : Addr) (k : Kernel) (t : Addr)
    → thread_current k ≡ done k.current
    → (k.locks l).holder ≡ some t
    → t ≢ k.current
    → lock_release l k ≡ panic
unfolding lock_release lock_held_by_current_thread
lock_release-panics l k t on h ne =
    let other : (t == k.current) ≡ false = ground (arith, ne) in simp (on, h, other)

-- The last reader to leave must be the thread that came first. `rwlock_read_release` by a thread that
-- does not hold `write_lock`, which the first reader took for all, panics in `lock_release` if no other
-- reader is left, `read_lock` is free and the scheduler is well formed.
pub rwlock_read_release-panics :
    (fuel : ℕ) (l : RwLock) (k : Kernel) (t : Addr)
    → WellFormed k
    → IsFree l.read_lock k
    → l.read_count ≡ 1
    → l.write_lock ≢ l.read_lock
    → (k.locks l.write_lock).holder ≡ some t
    → t ≢ k.current
    → rwlock_read_release fuel l k ≡ panic
unfolding rwlock_read_release taken thread_current
rwlock_read_release-panics fuel l k t w f one apart h ne =
    let last : ((l.read_count + word - 1) % word == 0) ≡ true = ground (arith, one) in
    let other : (l.write_lock == l.read_lock) ≡ false = ground (arith, apart) in
    let on : is_running (k.threads k.current).status ≡ true = ap is_running w.on_cpu in
    let holds : ((taken l.read_lock k).locks l.write_lock).holder ≡ some t = rw other h in
    rw (lock_acquire-IsFree fuel l.read_lock k w f, last)
      (simp (lock_release-panics l.write_lock (taken l.read_lock k) t (rw on refl) holds ne))
