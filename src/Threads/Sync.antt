-- ===== src/Threads/Sync.antt =====
-- threads/synch.c of G/A5/Pintos: semaphores, locks with priority donation, condition variables.
-- Interrupts are off inside each function, so the only switches are those by `schedule`. A function
-- that goes on after a switch returns a `Bool`: `true` when it has returned to its caller, `false`
-- when its thread was switched out. The comment at the function says what that thread runs when it
-- is scheduled again.
use operating_system_col.Base.{
  ℕ, zero, suc, ◌+◌, ◌-◌, Bool, true, false, not, Option, none, some, List, [], ◌∷◌, ◌++◌, ltb,
  ◌==◌, if◌then◌else◌,
}
use operating_system_col.KernelList.{insert_ordered, list_sort}
use operating_system_col.KernelList.Order.{by_key}
use operating_system_col.Threads.{
  Run, done, panic, out_of_fuel, ◌>>=◌, ◌>>◌, assert, Addr, SemaPtr, of_lock, SemaElem, Kernel,
  update, set_thread, set_lock, get_sema, set_sema,
}
use operating_system_col.Threads.Schedule.{
  compare_priority, thread_current, thread_unblock, thread_block, thread_yield, hack1,
  thread_get_priority,
}

unfoldable pub sema_init : SemaPtr → ℕ → Kernel → Kernel
sema_init s value = set_sema s (record { value = value; waiters = [] })

-- One test of the loop: at 0 the thread waits, and tests again when it is scheduled.
unfoldable pub sema_down : SemaPtr → Kernel → Run (Bool × Kernel)
sema_down s k =
    if (get_sema s k).value == 0
    then (do
      cur ← thread_current k
      let waiters = insert_ordered (compare_priority k) cur (get_sema s k).waiters
      k' ← thread_block (set_sema s (record (get_sema s k) { waiters = waiters }) k)
      done (false, k'))
    else done (true, set_sema s (record (get_sema s k) { value = (get_sema s k).value - 1 }) k)

unfoldable pub sema_try_down : SemaPtr → Kernel → Bool × Kernel
sema_try_down s k =
    if ltb 0 (get_sema s k).value
    then (true, set_sema s (record (get_sema s k) { value = (get_sema s k).value - 1 }) k)
    else (false, k)

unfoldable pub increment : SemaPtr → Kernel → Kernel
increment s k = set_sema s (record (get_sema s k) { value = (get_sema s k).value + 1 }) k

-- `sema_up` behind the sorting of the waiters: the first is made ready, and gets the processor if
-- its priority is above the caller's. Nothing is left to do behind the yield.
unfoldable pub wake_first : SemaPtr → List Addr → Kernel → Run Kernel
wake_first s [] k = done (increment s k)
wake_first s (t ∷ rest) k = do
  k' ← thread_unblock t (set_sema s (record (get_sema s k) { waiters = rest }) k)
  let k'' = increment s k'
  mine ← thread_get_priority k''
  if ltb mine (k''.threads t).current_priority then thread_yield k'' else done k''

unfoldable pub sema_up : SemaPtr → Kernel → Run Kernel
sema_up s k = wake_first s (list_sort (compare_priority k) (get_sema s k).waiters) k

unfoldable pub lock_init : Addr → Kernel → Kernel
lock_init l = set_lock l (record { holder = none; semaphore = record { value = 1; waiters = [] } })

abbrev pub is_holder : Addr → Option Addr → Bool
is_holder t none = false
is_holder t (some h) = h == t

unfoldable pub lock_held_by_current_thread : Addr → Kernel → Run Bool
lock_held_by_current_thread l k = do cur ← thread_current k; done (is_holder cur (k.locks l).holder)

-- Raise the priority of the thread at `hold` to that of the thread at `curr`.
unfoldable pub raise : Addr → Addr → Kernel → Kernel
raise hold curr k =
    if ltb (k.threads hold).current_priority (k.threads curr).current_priority
    then set_thread hold
        (record (k.threads hold) { current_priority = (k.threads curr).current_priority }) k
    else k

-- The loop `while (curr->blockLock)`. A lock without a holder is an access through NULL.
unfoldable pub donate : ℕ → Addr → Kernel → Run Kernel
donate zero curr k = out_of_fuel
donate (suc fuel) curr k = elim (k.threads curr).block_lock [
  | none ↦ done k
  | some l ↦ elim (k.locks l).holder [
    | none ↦ panic
    | some hold ↦ donate fuel hold (raise hold curr k)
  ]
]

-- `thread_current ()->blockLock = lock`
abbrev pub block_on : Addr → Addr → Kernel → Kernel
block_on l cur k = set_thread cur (record (k.threads cur) { block_lock = some l }) k

-- The holder `t` notes the donor, and takes its priority.
abbrev pub accept : Addr → Addr → Kernel → Kernel
accept t cur k =
    set_thread t
      (record (k.threads t) {
        donated_priority = insert_ordered (compare_priority k) cur (k.threads t).donated_priority;
        current_priority = (k.threads cur).current_priority;
      })
      k

-- What `lock_acquire` does with the holder's priority before it waits.
unfoldable pub donate_to_holder : ℕ → Addr → Addr → Addr → Kernel → Run Kernel
donate_to_holder fuel l cur t k =
    let k' = block_on l cur k in
    if ltb (k'.threads t).current_priority (k'.threads cur).current_priority
    then donate fuel cur (accept t cur k')
    else done k'

-- `sema_down (&lock->semaphore); lock->holder = thread_current ()`. A thread that waits runs this
-- again when it is scheduled.
unfoldable pub lock_wait : Addr → Kernel → Run (Bool × Kernel)
lock_wait l k = do
  (got, k') ← sema_down (of_lock l) k
  if got
      then (do
        cur ← thread_current k'
        done (true, set_lock l (record (k'.locks l) { holder = some cur }) k'))
      else done (false, k')

-- What `lock_acquire` does before it waits, by the lock's holder.
unfoldable pub before_wait : ℕ → Addr → Addr → Option Addr → Kernel → Run Kernel
before_wait fuel l cur none k = done k
before_wait fuel l cur (some t) k = donate_to_holder fuel l cur t k

unfoldable pub lock_acquire : ℕ → Addr → Kernel → Run (Bool × Kernel)
lock_acquire fuel l k = do
  held ← lock_held_by_current_thread l k
  assert (not held)
  cur ← thread_current k
  k' ← before_wait fuel l cur (k.locks l).holder k
  lock_wait l k'

unfoldable pub lock_try_acquire : Addr → Kernel → Run (Bool × Kernel)
lock_try_acquire l k = do
  held ← lock_held_by_current_thread l k
  assert (not held)
  let (success, k') = sema_try_down (of_lock l) k
  cur ← thread_current k'
  done (success, if success then set_lock l (record (k'.locks l) { holder = some cur }) k' else k')

abbrev pub waits_for : Addr → Option Addr → Bool
waits_for l none = false
waits_for l (some l') = l' == l

-- The loop that drops the donors of the lock. Its second statement, a comparison with NULL, has
-- no effect.
unfoldable pub drop_donors : Addr → Kernel → List Addr → List Addr
drop_donors l k [] = []
drop_donors l k (t ∷ ts) =
    if waits_for l (k.threads t).block_lock then drop_donors l k ts else t ∷ drop_donors l k ts

-- The priority after a release: the thread's own, or the first donor's if that is greater.
unfoldable pub restored_priority : ℕ → List Addr → Kernel → ℕ
restored_priority own [] k = own
restored_priority own (d ∷ ds) k =
    if ltb own (k.threads d).current_priority then (k.threads d).current_priority else own

-- `lock_release` behind `sema_up`.
unfoldable pub release_tail : Addr → Kernel → Run Kernel
release_tail l k = do
  cur ← thread_current k
  let t = k.threads cur
  let donors = drop_donors l k t.donated_priority
  hack1 (
      set_thread cur
        (record t {
          donated_priority = donors;
          current_priority = restored_priority t.priority donors k;
        })
        k)

-- If `sema_up` yields, the thread runs `release_tail` when it is scheduled again.
unfoldable pub lock_release : Addr → Kernel → Run (Bool × Kernel)
lock_release l k = do
  held ← lock_held_by_current_thread l k
  assert held
  k' ← sema_up (of_lock l) (set_lock l (record (k.locks l) { holder = none }) k)
  if k'.current == k.current
      then (do k'' ← release_tail l k'; done (true, k''))
      else done (false, k')

-- `Compare3`
abbrev pub compare_elems : SemaElem → SemaElem → Bool
compare_elems = by_key λ e. e.priority

unfoldable pub cond_init : Addr → Kernel → Kernel
cond_init c k = record k { conds = update k.conds c [] }

-- `cond_wait` up to its call of `lock_release`: `s` is the semaphore on the waiter's stack.
-- What follows are `lock_release`, `sema_down` of `s` and `lock_acquire`.
unfoldable pub cond_enqueue : Addr → Addr → SemaPtr → Kernel → Run Kernel
cond_enqueue c l s k = do
  held ← lock_held_by_current_thread l k
  assert held
  priority ← thread_get_priority k
  let waiter : SemaElem = record { semaphore = s; priority = priority }
  done (sema_init s 0 (record k { conds = update k.conds c (k.conds c ++ (waiter ∷ [])) }))

unfoldable pub cond_signal : Addr → Addr → Kernel → Run Kernel
cond_signal c l k = do
  held ← lock_held_by_current_thread l k
  assert held
  elim (list_sort compare_elems (k.conds c)) [
    | [] ↦ done k
    | e ∷ rest ↦ sema_up e.semaphore (record k { conds = update k.conds c rest })
  ]
