-- ===== src/UserThreads.antt =====
-- The user-level threads of G/A3/Top/src/myThread.c: the scheduler, and the operations on threads,
-- locks and condition variables. Threads, locks and conditions are named by their addresses.
pub mod Rotation
pub mod RoundRobin
pub mod Attributes
pub mod Tests
use operating_system_col.Base.{
  ℕ, zero, suc, ◌+◌, ◌-◌, ◌%◌, Bool, true, false, not, ◌&&◌, ◌||◌, Option, none, some, ltb, ◌==◌,
  if◌then◌else◌,
}
use operating_system_col.Syscall.{word, error, is_negative}
use operating_system_col.ThreadQueue.{Queue, qpush, qpop, get_head}

-- `struct myThread`, without its stack. The `id` of the main thread is -1.
pub record Tcb : Type 0 where
  pub id : ℕ
  pub status : ℕ
  pub join : ℕ
  pub first : ℕ
  pub joining_thread : Option ℕ
  pub cancel : ℕ

-- `struct myConditionVariable`, with the value of its lock.
pub record Condition : Type 0 where
  pub waiting : Queue
  pub lock : ℕ

-- The global variables of myThread.c, and the memory that they point to.
pub record Library : Type 0 where
  pub tcb : ℕ → Tcb
  pub lock : ℕ → ℕ
  pub cond : ℕ → Condition
  pub ready : Queue
  pub running_tcb : ℕ
  pub main_tcb : ℕ
  pub global_id : ℕ
  pub flag_init : Bool

-- Where control goes: into the function of a thread, back to where a thread was switched out, back
-- into the call in which main was, to the caller, or round a loop for ever.
pub data Control : Type 0 where
  starts resumes : ℕ → Control
  to_main returns spins : Control

abbrev pub set_tcb : ℕ → Tcb → Library → Library
set_tcb p t s = record s { tcb = λ q. if q == p then t else s.tcb q }

abbrev pub set_cond : ℕ → Condition → Library → Library
set_cond p c s = record s { cond = λ q. if q == p then c else s.cond q }

abbrev pub set_lock : ℕ → ℕ → Library → Library
set_lock p v s = record s { lock = λ q. if q == p then v else s.lock q }

-- `status` 1, complete, or 2, waiting
abbrev pub is_off : Tcb → Bool
is_off t = t.status == 1 || t.status == 2

-- `schedule`, up to where the thread runs.
abbrev pub schedule : Library → Control × Library
schedule s =
    let t = s.tcb s.running_tcb in
    if t.first == 0
    then (starts s.running_tcb, set_tcb s.running_tcb (record t { first = 1 }) s)
    else (resumes s.running_tcb, s)

-- The queue and the running thread after a switch in `scheduler`.
unfoldable pub rotate : Library → Library
rotate s =
    let popped = (qpop s.ready).1 in
    let ready = if is_off (s.tcb s.running_tcb) then popped else (qpush s.running_tcb popped).1 in
    record s { ready = ready; running_tcb = get_head ready }

-- `join >= 1` on an `int`
abbrev pub is_joining : Tcb → Bool
is_joining t = ltb 0 t.join && not (is_negative t.join)

-- `scheduler`, from where `longjmp(schedulerContext, 1)` leads; main is passed over while it joins.
abbrev pub scheduler : ℕ → Library → Control × Library
scheduler zero s = (spins, s)
scheduler (suc fuel) s =
    let s = rotate s in
    let t = s.tcb s.running_tcb in
    elim (t.id == error) [
      | false ↦ schedule s
      | true ↦ elim (is_joining t) [ true ↦ scheduler fuel s | false ↦ (to_main, s) ]
    ]

-- `scheduler`, when `init` calls it.
unfoldable pub enter_scheduler : Library → Control × Library
enter_scheduler s =
    let ready = (qpush s.running_tcb (qpop s.ready).1).1 in
    let next = record s { ready = ready; running_tcb = get_head ready } in
    if ltb 0 s.ready.size
    then (if (next.tcb next.running_tcb).id == error then (returns, next) else schedule next)
    else (returns, s)

-- `myThread_yield`, and `myThreadSwitch`, the handler of the timer.
unfoldable pub my_thread_yield : ℕ → Library → Control × Library
my_thread_yield fuel s = scheduler fuel s

abbrev pub joined : Option ℕ → Library → Library
joined none s = s
joined (some j) s = set_tcb j (record (s.tcb j) { join = ((s.tcb j).join + word - 1) % word }) s

-- `status = 1` and the count of the thread that joins.
abbrev pub finish : Library → Library
finish s =
    let s = set_tcb s.running_tcb (record (s.tcb s.running_tcb) { status = 1 }) s in
    joined (s.tcb s.running_tcb).joining_thread s

-- `myThread_exit`, and the end of `schedule` when the function of a thread returns.
unfoldable pub my_thread_exit : ℕ → Library → Control × Library
my_thread_exit fuel s = scheduler fuel (finish s)

unfoldable pub my_thread_join : ℕ → ℕ → Library → Control × Library
my_thread_join fuel t s =
    let s1 = set_tcb t (record (s.tcb t) { joining_thread = some s.running_tcb }) s in
    let r = s1.tcb s.running_tcb in
    let s2 = set_tcb s.running_tcb (record r { join = (r.join + 1) % word }) s1 in
    if (s.tcb t).status == 1 then (returns, s) else scheduler fuel s2

unfoldable pub my_thread_cancel : Option ℕ → Library → ℕ × Library
my_thread_cancel none s = (error, s)
my_thread_cancel (some t) s = (0, set_tcb t (record (s.tcb t) { cancel = 1 }) s)

-- `acquire`, which spins while the value is not 0, and `release`.
abbrev pub acquire : ℕ → Library → Control × Library
acquire l s = if s.lock l == 0 then (returns, set_lock l 1 s) else (spins, s)

abbrev pub release : ℕ → Library → Library
release l s = set_lock l 0 s

-- Code between `acquire(&cond->lock)` and `release(&cond->lock)`; `none` if `acquire` spins.
abbrev pub with_cond : ℕ → (Library → Library) → Library → Option Library
with_cond c f s =
    let s1 = f (set_cond c (record (s.cond c) { lock = 1 }) s) in
    if (s.cond c).lock == 0 then some (set_cond c (record (s1.cond c) { lock = 0 }) s1) else none

abbrev pub enqueue_waiting : ℕ → Library → Library
enqueue_waiting c s =
    set_cond c (record (s.cond c) { waiting = (qpush s.running_tcb (s.cond c).waiting).1 }) s

-- `myThread_cond_wait` from `release(lock)` up to its switch.
abbrev pub wait_enqueued : ℕ → ℕ → Option Library → Library → Control × Library
wait_enqueued fuel l none s = (spins, s)
wait_enqueued fuel l (some s1) s =
    let s2 = release l s1 in
    scheduler fuel (set_tcb s2.running_tcb (record (s2.tcb s2.running_tcb) { status = 2 }) s2)

-- `myThread_cond_wait` of a condition that is not NULL, up to its switch.
unfoldable pub my_thread_cond_wait : ℕ → ℕ → ℕ → Library → Control × Library
my_thread_cond_wait fuel c l s = wait_enqueued fuel l (with_cond c (enqueue_waiting c) s) s

abbrev pub ended : Option Library → Library → Control × Library
ended none s = (spins, s)
ended (some s1) s = (returns, s1)

-- The first waiting thread goes to the end of the run queue.
abbrev pub signal_one : ℕ → Library → Library
signal_one c s =
    let queue = (s.cond c).waiting in
    record (set_cond c (record (s.cond c) { waiting = (qpop queue).1 }) s) {
      ready = (qpush (get_head queue) s.ready).1;
    }

abbrev pub signal_all : ℕ → ℕ → Library → Library
signal_all zero c s = s
signal_all (suc count) c s = signal_all count c (signal_one c s)

unfoldable pub my_thread_cond_signal : ℕ → Library → Control × Library
my_thread_cond_signal c s =
    ended (with_cond c (λ s. if ltb 0 (s.cond c).waiting.size then signal_one c s else s) s) s

-- The loop pops one thread in each round, so it makes as many as there are.
unfoldable pub my_thread_cond_brodcast : ℕ → Library → Control × Library
my_thread_cond_brodcast c s = ended (with_cond c (λ s. signal_all (s.cond c).waiting.size c s) s) s

-- `init` up to its call of `scheduler`; the queue of `ready` is new.
unfoldable pub init : ℕ → ℕ → Queue → Library → Library
init main first_tcb empty s =
    let t = record (s.tcb main) { id = error; join = 0 } in
    record (set_tcb main t s) {
      main_tcb = main;
      ready = (qpush first_tcb (qpush main empty).1).1;
      running_tcb = main;
    }

unfoldable pub my_thread_create : ℕ → ℕ → Queue → Library → Control × Library
my_thread_create thread main empty s =
    let t = record (s.tcb thread) { first = 0; cancel = 0; id = s.global_id; status = 0 } in
    let s = record (set_tcb thread t s) { global_id = s.global_id + 1 } in
    if s.flag_init
    then (returns, record s { ready = (qpush thread s.ready).1 })
    else enter_scheduler (init main thread empty (record s { flag_init = true }))
