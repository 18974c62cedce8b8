-- ===== src/Threads/Frame.antt =====
-- Partial correctness of a run, and the functions of the scheduler that leave every lock alone.
use operating_system_col.Base.{
  ℕ, ◌+◌, ◌≡◌, refl, ◌∙◌, inl, inr, true, false, not, Option, none, some, List, [], ◌∷◌, arith,
  if◌then◌else◌, Bool-cases, ltb, leb,
}
use operating_system_col.Threads.{
  Run, done, panic, out_of_fuel, ◌>>=◌, assert, deref, Addr, Kernel, set_status, ready, blocked,
  is_running, is_blocked, is_dying,
}
use operating_system_col.Threads.Schedule.{
  thread_current, thread_unblock, free_dying, thread_schedule_tail, switch_to, schedule,
  next_thread_to_run, take_next, thread_block, ready_again, thread_yield, yield_to_head, hack1,
  wake, time_slice, thread_set_priority, count_tick, thread_tick, wake_sleepers, timer_interrupt,
  timer_event, timer_sleep,
}

-- If the code runs to its end, `P` holds of its result.
abbrev pub Ensures {ℓ} : {A : Type ℓ} → (A → Type 0) → Run A → Type 0
Ensures P (done a) = P a
Ensures P panic = Unit
Ensures P out_of_fuel = Unit

pub Ensures-bind {ℓ κ} :
    {A : Type ℓ} {B : Type κ} (P : A → Type 0) (Q : B → Type 0) (r : Run A) (f : A → Run B)
    → Ensures P r
    → ((a : A) → P a → Ensures Q (f a))
    → Ensures Q (r >>= f)
Ensures-bind P Q (done a) f p g = g a p
Ensures-bind P Q panic f p g = tt
Ensures-bind P Q out_of_fuel f p g = tt

pub Ensures-mono {ℓ} :
    {A : Type ℓ} (P Q : A → Type 0) (r : Run A) → Ensures P r → ((a : A) → P a → Q a) → Ensures Q r
Ensures-mono P Q (done a) p g = g a p
Ensures-mono P Q panic p g = tt
Ensures-mono P Q out_of_fuel p g = tt

-- Nothing need be known of the first part.
pub Ensures-after {ℓ κ} :
    {A : Type ℓ} {B : Type κ} (Q : B → Type 0) (r : Run A) (f : A → Run B)
    → ((a : A) → Ensures Q (f a))
    → Ensures Q (r >>= f)
Ensures-after Q (done a) f g = g a
Ensures-after Q panic f g = tt
Ensures-after Q out_of_fuel f g = tt

-- The locks are those of `k`.
abbrev pub SameLocks : Kernel → Kernel → Type 0
SameLocks k k' = k'.locks ≡ k.locks

pub locks-free_dying : (p : Option Addr) (k : Kernel) → SameLocks k (free_dying p k)
unfolding free_dying
locks-free_dying none k = refl
locks-free_dying (some p) k = ground arith

pub locks-switch_to : (next : Addr) (k : Kernel) → Ensures (SameLocks k) (switch_to next k)
unfolding switch_to thread_schedule_tail
locks-switch_to next k = elim (Bool-cases (is_dying (k.threads next).status)) [
  | inl e ↦ rw e tt
  | inr e ↦ rw e (locks-free_dying _ _)
]

pub locks-take_next : (l : List Addr) (k : Kernel) → SameLocks k (take_next l k).1
locks-take_next [] k = refl
locks-take_next (t ∷ l) k = refl

pub locks-schedule : (k : Kernel) → Ensures (SameLocks k) (schedule k)
unfolding schedule next_thread_to_run
locks-schedule k =
    Ensures-after (SameLocks k) (assert (not (is_running (k.threads k.current).status))) _ λ _.
      Ensures-after (SameLocks k) (deref (take_next k.ready_list k).0) _ λ t.
        Ensures-mono (SameLocks (take_next k.ready_list k).1) (SameLocks k)
          (switch_to t (take_next k.ready_list k).1)
          (locks-switch_to t (take_next k.ready_list k).1)
          λ k' e. e ∙ locks-take_next k.ready_list k

pub locks-thread_block : (k : Kernel) → Ensures (SameLocks k) (thread_block k)
unfolding thread_block
locks-thread_block k =
    Ensures-after (SameLocks k) (thread_current k) _
      λ cur. locks-schedule (set_status cur blocked k)

pub locks-ready_again : (cur : Addr) (k : Kernel) → SameLocks k (ready_again cur k)
unfolding ready_again
locks-ready_again cur k = ground arith

pub locks-thread_yield : (k : Kernel) → Ensures (SameLocks k) (thread_yield k)
unfolding thread_yield
locks-thread_yield k = Ensures-after (SameLocks k) (thread_current k) _ λ cur.
    Ensures-mono (SameLocks (ready_again cur k)) (SameLocks k)
      (schedule (set_status cur ready (ready_again cur k)))
      (locks-schedule (set_status cur ready (ready_again cur k)))
      λ k' e. e ∙ locks-ready_again cur k

pub locks-yield_to_head : (l : List Addr) (k : Kernel) → Ensures (SameLocks k) (yield_to_head l k)
unfolding yield_to_head
locks-yield_to_head [] k = refl
locks-yield_to_head (t ∷ ts) k = Ensures-after (SameLocks k) (thread_current k) _ λ cur.
    elim (Bool-cases (ltb (k.threads cur).priority (k.threads t).priority)) [
      | inl e ↦ rw e (locks-thread_yield k)
      | inr e ↦ rw e refl
    ]

pub locks-hack1 : (k : Kernel) → Ensures (SameLocks k) (hack1 k)
unfolding hack1
locks-hack1 k = locks-yield_to_head k.ready_list k

pub locks-thread_unblock : (t : Addr) (k : Kernel) → Ensures (SameLocks k) (thread_unblock t k)
unfolding thread_unblock
locks-thread_unblock t k =
    Ensures-after (SameLocks k) (assert (is_blocked (k.threads t).status)) _ λ _. refl

pub locks-thread_set_priority :
    (p : ℕ) (k : Kernel) → Ensures (SameLocks k) (thread_set_priority p k)
unfolding thread_set_priority
locks-thread_set_priority p k = Ensures-after (SameLocks k) (thread_current k) _ λ cur.
    elim (Bool-cases (ltb p (k.threads cur).current_priority)) [
      | inl e ↦ rw e (locks-hack1 _)
      | inr e ↦ rw e refl
    ]

pub locks-count_tick : (cur : Addr) (k : Kernel) → SameLocks k (count_tick cur k)
unfolding count_tick
locks-count_tick cur k = ground arith

pub locks-thread_tick : (k : Kernel) → Ensures (SameLocks k) (thread_tick k)
unfolding thread_tick
locks-thread_tick k = Ensures-after (SameLocks k) (thread_current k) _ λ cur.
    let k' = record k { thread_ticks = k.thread_ticks + 1 } in
    elim (Bool-cases (leb time_slice (count_tick cur k').thread_ticks)) [
      | inl e ↦ rw e (locks-count_tick cur k')
      | inr e ↦ rw e (locks-count_tick cur k')
    ]

pub locks-wake : (t : Addr) (k : Kernel) → Ensures (SameLocks k) (wake t k)
unfolding wake
locks-wake t k = elim (Bool-cases (leb (k.threads t).sleep_end k.ticks)) [
  | inl e ↦ rw e (locks-thread_unblock t _)
  | inr e ↦ rw e refl
]

pub locks-wake_sleepers : (ts : List Addr) (k : Kernel) → Ensures (SameLocks k) (wake_sleepers ts k)
unfolding wake_sleepers
locks-wake_sleepers [] k = refl
locks-wake_sleepers (t ∷ ts) k =
    Ensures-bind (SameLocks k) (SameLocks k) (wake t k) (wake_sleepers ts) (locks-wake t k) λ k' e.
      Ensures-mono (SameLocks k') (SameLocks k) (wake_sleepers ts k') (locks-wake_sleepers ts k')
        λ k'' e'. e' ∙ e

pub locks-timer_interrupt : (k : Kernel) → Ensures (SameLocks k) (timer_interrupt k)
unfolding timer_interrupt
locks-timer_interrupt k =
    let k0 = record k { ticks = k.ticks + 1 } in
    Ensures-bind (SameLocks k) (SameLocks k) (thread_tick k0) _ (locks-thread_tick k0) λ k' e.
      Ensures-mono (SameLocks k') (SameLocks k) (wake_sleepers k'.sleeping_list k')
        (locks-wake_sleepers k'.sleeping_list k') λ k'' e'. e' ∙ e

pub locks-timer_event : (k : Kernel) → Ensures (SameLocks k) (timer_event k)
unfolding timer_event
locks-timer_event k =
    let k0 = record k { yield_on_return = false } in
    Ensures-bind (SameLocks k) (SameLocks k) (timer_interrupt k0) _ (locks-timer_interrupt k0)
      λ k' e.
        elim k'.yield_on_return
          as (λ b. Ensures (SameLocks k) (if b then thread_yield k' else done k')) [
            | true ↦
                Ensures-mono (SameLocks k') (SameLocks k) (thread_yield k') (locks-thread_yield k')
                  λ k'' e'. e' ∙ e
            | false ↦ e
          ]

pub locks-timer_sleep : (n : ℕ) (k : Kernel) → Ensures (SameLocks k) (timer_sleep n k)
unfolding timer_sleep
locks-timer_sleep n k = Ensures-after (SameLocks k) (thread_current k) _ λ cur. locks-thread_block _
