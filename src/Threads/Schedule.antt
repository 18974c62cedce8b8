-- ===== src/Threads/Schedule.antt =====
-- threads/thread.c and the sleep and tick code of devices/timer.c, of G/A5/Pintos.
-- A function that ends by `schedule ()` returns the state in which the next thread runs.
use operating_system_col.Base.{
  ℕ, ◌+◌, Bool, true, false, not, ◌&&◌, Option, none, some, List, [], ◌∷◌, ◌++◌, ltb, leb, ◌==◌,
  if◌then◌else◌,
}
use operating_system_col.KernelList.{insert_ordered}
use operating_system_col.KernelList.Order.{by_key}
use operating_system_col.Threads.{
  Run, done, ◌>>=◌, ◌>>◌, assert, deref, Addr, running, ready, blocked, dying, is_running,
  is_blocked, is_dying, Kernel, set_thread, set_status,
}

abbrev pub pri_max : ℕ
pri_max = 63

-- `TIME_SLICE`
abbrev pub time_slice : ℕ
time_slice = 4

-- `Compare`, and `Compare2`, which reads the same thread through its other list element.
abbrev pub compare_priority : Kernel → Addr → Addr → Bool
compare_priority k = by_key λ t. (k.threads t).current_priority

unfoldable pub thread_current : Kernel → Run Addr
thread_current k = do assert (is_running (k.threads k.current).status); done k.current

unfoldable pub thread_unblock : Addr → Kernel → Run Kernel
thread_unblock t k = do
  assert (is_blocked (k.threads t).status)
  let list = insert_ordered (compare_priority k) t k.ready_list
  done (set_status t ready (record k { ready_list = list }))

abbrev pub take_next : List Addr → Kernel → Option Addr × Kernel
take_next [] k = (k.idle_thread, k)
take_next (t ∷ rest) k = (some t, record k { ready_list = rest })

unfoldable pub next_thread_to_run : Kernel → Option Addr × Kernel
next_thread_to_run k = take_next k.ready_list k

-- The page of a dying thread is given back, unless it is the initial thread's.
unfoldable pub free_dying : Option Addr → Kernel → Kernel
free_dying none k = k
free_dying (some p) k =
    if is_dying (k.threads p).status && not (p == k.initial_thread)
    then record k { freed = p ∷ k.freed }
    else k

-- Run in the context of the thread that was switched to; `prev` is the one switched from.
unfoldable pub thread_schedule_tail : Option Addr → Kernel → Kernel
thread_schedule_tail prev k =
    free_dying prev (record (set_status k.current running k) { thread_ticks = 0 })

-- `schedule` behind the choice of the next thread.
unfoldable pub switch_to : Addr → Kernel → Run Kernel
switch_to next k = do
  assert (not (is_dying (k.threads next).status))
  let prev = if k.current == next then none else some k.current
  done (thread_schedule_tail prev (record k { current = next }))

unfoldable pub schedule : Kernel → Run Kernel
schedule k = do
  let (next, k') = next_thread_to_run k
  assert (not (is_running (k.threads k.current).status))
  t ← deref next
  switch_to t k'

unfoldable pub thread_block : Kernel → Run Kernel
thread_block k = do cur ← thread_current k; schedule (set_status cur blocked k)

abbrev pub is_idle : Addr → Option Addr → Bool
is_idle t none = false
is_idle t (some idle) = t == idle

-- The idle thread is never put on the ready list.
unfoldable pub ready_again : Addr → Kernel → Kernel
ready_again cur k =
    if is_idle cur k.idle_thread
    then k
    else record k { ready_list = insert_ordered (compare_priority k) cur k.ready_list }

unfoldable pub thread_yield : Kernel → Run Kernel
thread_yield k = do cur ← thread_current k; schedule (set_status cur ready (ready_again cur k))

-- `hack1` yields to the head of the ready list, by the priorities without donation.
unfoldable pub yield_to_head : List Addr → Kernel → Run Kernel
yield_to_head [] k = done k
yield_to_head (next ∷ rest) k = do
  cur ← thread_current k
  if ltb (k.threads cur).priority (k.threads next).priority then thread_yield k else done k

unfoldable pub hack1 : Kernel → Run Kernel
hack1 k = yield_to_head k.ready_list k

unfoldable pub thread_get_priority : Kernel → Run ℕ
thread_get_priority k = do cur ← thread_current k; done (k.threads cur).current_priority

abbrev pub is_nil {ℓ} : {A : Type ℓ} → List A → Bool
is_nil [] = true
is_nil (x ∷ xs) = false

unfoldable pub thread_set_priority : ℕ → Kernel → Run Kernel
thread_set_priority new_priority k = do
  cur ← thread_current k
  let t = k.threads cur
  let shown = if is_nil t.donated_priority then new_priority else t.current_priority
  let k' = set_thread cur (record t { priority = new_priority; current_priority = shown }) k
  if ltb new_priority t.current_priority then hack1 k' else done k'

unfoldable pub count_tick : Addr → Kernel → Kernel
count_tick cur k =
    if is_idle cur k.idle_thread
    then record k { idle_ticks = k.idle_ticks + 1 }
    else elim (k.threads cur).pagedir [
      | none ↦ record k { kernel_ticks = k.kernel_ticks + 1 }
      | some _ ↦ record k { user_ticks = k.user_ticks + 1 }
    ]

unfoldable pub thread_tick : Kernel → Run Kernel
thread_tick k = do
  cur ← thread_current k
  let k' = count_tick cur (record k { thread_ticks = k.thread_ticks + 1 })
  done (if leb time_slice k'.thread_ticks then record k' { yield_on_return = true } else k')

-- `list_remove` of an element from the list that holds it.
unfoldable pub list_remove : Addr → List Addr → List Addr
list_remove t [] = []
list_remove t (x ∷ xs) = if x == t then xs else x ∷ list_remove t xs

-- The body of the loop over `sleeping_list`.
unfoldable pub wake : Addr → Kernel → Run Kernel
wake t k =
    if leb (k.threads t).sleep_end k.ticks
    then thread_unblock t (record k { sleeping_list = list_remove t k.sleeping_list })
    else done k

-- The loop: the list is what is left to visit.
unfoldable pub wake_sleepers : List Addr → Kernel → Run Kernel
wake_sleepers [] k = done k
wake_sleepers (t ∷ ts) k = wake t k >>= wake_sleepers ts

unfoldable pub timer_interrupt : Kernel → Run Kernel
timer_interrupt k = do
  k' ← thread_tick (record k { ticks = k.ticks + 1 })
  wake_sleepers k'.sleeping_list k'

-- `intr_handler` for the timer: the handler, and the yield that it asked for.
unfoldable pub timer_event : Kernel → Run Kernel
timer_event k = do
  k' ← timer_interrupt (record k { yield_on_return = false })
  if k'.yield_on_return then thread_yield k' else done k'

unfoldable pub timer_sleep : ℕ → Kernel → Run Kernel
timer_sleep ticks k = do
  cur ← thread_current k
  let t = record (k.threads cur) { sleep_end = ticks + k.ticks }
  thread_block (set_thread cur t (record k { sleeping_list = k.sleeping_list ++ (cur ∷ []) }))

-- `init_thread` on a page at address `p`, with the tid that `allocate_tid` then stores.
unfoldable pub init_thread : Addr → ℕ → Kernel → Run Kernel
init_thread p priority k = do
  assert (leb priority pri_max)
  done (
      set_thread p
        (record {
          tid = 0;
          status = blocked;
          priority = priority;
          current_priority = priority;
          donated_priority = [];
          block_lock = none;
          sleep_end = 0;
          parent = 0;
          pagedir = none;
        })
        (record k { all_list = k.all_list ++ (p ∷ []) }))

-- The end of `thread_create`: the new thread is made ready, and gets the processor at once if its
-- priority is above the creator's.
unfoldable pub thread_start_ready : Addr → Kernel → Run Kernel
thread_start_ready t k = do
  k' ← thread_unblock t k
  two ← thread_get_priority k'
  if ltb two (k'.threads t).priority then thread_yield k' else done k'

-- `thread_exit` after `process_exit`.
unfoldable pub thread_exit : Kernel → Run Kernel
thread_exit k = do
  cur ← thread_current k
  schedule (set_status cur dying (record k { all_list = list_remove cur k.all_list }))

-- The search loop of `id_to_thread`.
unfoldable pub id_to_thread : ℕ → Kernel → List Addr → Option Addr
id_to_thread tid k [] = none
id_to_thread tid k (t ∷ ts) = if (k.threads t).tid == tid then some t else id_to_thread tid k ts
