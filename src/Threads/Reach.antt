-- ===== src/Threads/Reach.antt =====
-- Every interleaving of the kernel's functions on threads and locks, as a step relation, and mutual
-- exclusion.
use mathlib.Core.Path.{subst}
use native.Mathlib.Decide.{ℕ_discrete}
use operating_system_col.Base.{
  ℕ, ◌≡◌, ◌≢◌, refl, sym, ap, ◌∙◌, inl, inr, Bool, true, false, some, Bool-cases, ◌==◌, ==_iff,
}
use operating_system_col.Threads.{Run, done, Addr, Lock, alone, Kernel}
use operating_system_col.Threads.Schedule.{
  thread_unblock, thread_yield, thread_set_priority, timer_event, timer_sleep, init_thread,
  thread_start_ready, thread_exit,
}
use operating_system_col.Threads.Sync.{
  sema_down, sema_try_down, sema_up, lock_init, lock_wait, lock_acquire, lock_release, release_tail,
  cond_enqueue, cond_signal,
}
use operating_system_col.Threads.Frame.{
  Ensures, SameLocks, locks-thread_yield, locks-thread_unblock, locks-thread_set_priority,
  locks-timer_event, locks-timer_sleep,
}
use operating_system_col.Threads.LockFrame.{
  WaitAlone, locks-sema_up, locks-sema_down, locks-sema_try_down, locks-init_thread,
  locks-thread_start_ready, locks-thread_exit, locks-cond_enqueue, locks-cond_signal,
}
use operating_system_col.Threads.Exclusion.{
  IsExclusive, IsExclusive-same, Waited, lock_wait-Waited, balance-update,
}
use operating_system_col.Threads.Mutex.{lock_acquire-Waited}
use operating_system_col.Threads.Release.{Released, lock_release-Released, locks-release_tail}

-- One stretch of kernel code by the thread that is running, with interrupts off: a call of one of these
-- functions, a timer interrupt, or what a thread does on when it is scheduled again (`wait_again`,
-- `tail_again`). `Free` says which locks may be released or initialised. Not among the steps is
-- `lock_try_acquire`, which does not turn interrupts off: between its two statements the semaphore is
-- taken and the lock has no holder. A semaphore that is taken, raised or waited at by itself is in no
-- lock.
pub data Step (Free : Addr → Type 0) (k k' : Kernel) : Type 0 where
  acquire : (fuel : ℕ) (l : Addr) (b : Bool) → lock_acquire fuel l k ≡ done (b, k') → Step Free k k'
  wait_again : (l : Addr) (b : Bool) → lock_wait l k ≡ done (b, k') → Step Free k k'
  release : (l : Addr) (b : Bool) → Free l → lock_release l k ≡ done (b, k') → Step Free k k'
  tail_again : (l : Addr) → release_tail l k ≡ done k' → Step Free k k'
  down : (a : Addr) (b : Bool) → sema_down (alone a) k ≡ done (b, k') → Step Free k k'
  up : (a : Addr) → sema_up (alone a) k ≡ done k' → Step Free k k'
  yields : thread_yield k ≡ done k' → Step Free k k'
  sleeps : (n : ℕ) → timer_sleep n k ≡ done k' → Step Free k k'
  sets_priority : (p : ℕ) → thread_set_priority p k ≡ done k' → Step Free k k'
  ticks : timer_event k ≡ done k' → Step Free k k'
  tries_down : (a : Addr) → (sema_try_down (alone a) k).1 ≡ k' → Step Free k k'
  inits : (l : Addr) → Free l → lock_init l k ≡ k' → Step Free k k'
  unblocks : (t : Addr) → thread_unblock t k ≡ done k' → Step Free k k'
  creates : (t p : ℕ) → init_thread t p k ≡ done k' → Step Free k k'
  starts : (t : Addr) → thread_start_ready t k ≡ done k' → Step Free k k'
  exits : thread_exit k ≡ done k' → Step Free k k'
  cond_waits : (c l a : Addr) → cond_enqueue c l (alone a) k ≡ done k' → Step Free k k'
  cond_signals : (c l : Addr) → WaitAlone c k → cond_signal c l k ≡ done k' → Step Free k k'

pub data Steps (Free : Addr → Type 0) (k : Kernel) : Kernel → Type 0 where
  here : Steps Free k k
  next : {k' k'' : Kernel} → Steps Free k k' → Step Free k' k'' → Steps Free k k''

-- Each step keeps the locks exclusive, and takes a lock away from its holder only by a release.
record Fair (Free : Addr → Type 0) (k k' : Kernel) : Type 0 where
  exclusive : IsExclusive k'
  holder : (l t : Addr) → ¬ Free l → (k.locks l).holder ≡ some t → (k'.locks l).holder ≡ some t

module _ (Free : Addr → Type 0) (k k' : Kernel) (x : IsExclusive k) where
  same-Fair : SameLocks k k' → Fair Free k k'
  same-Fair e = record {
    exclusive = IsExclusive-same k k' e x;
    holder = λ l t _ h. ap (λ (f : Addr → Lock). (f l).holder) e ∙ h;
  }

  Waited-holder :
      (m t : Addr)
      → (k.locks m).holder ≡ some t
      → {l : Addr} (b : Bool) → Waited l k.current k (b, k')
      → Dec (m ≡ l)
      → (k'.locks m).holder ≡ some t
  Waited-holder m t h b w (no ne) = ap (λ (v : Lock). v.holder) (w.others m ne) ∙ h
  Waited-holder m t h {l} true w (yes e) = cc (ap (λ q. (k.locks q).holder) e, (w.got refl).0)
  Waited-holder m t h {l} false w (yes e) =
      ap (λ q. (k'.locks q).holder) e ∙ w.waits refl ∙ ap (λ q. (k.locks q).holder) (sym e) ∙ h

  Waited-Fair : (l : Addr) (b : Bool) → Waited l k.current k (b, k') → Fair Free k k'
  Waited-Fair l b w = record {
    exclusive = w.exclusive;
    holder = λ m t _ h. Waited-holder m t h b w (ℕ_discrete m l);
  }

  Released-Fair : (l : Addr) (b : Bool) → Free l → Released l k (b, k') → Fair Free k k'
  Released-Fair l b may r = record {
    exclusive = r.exclusive;
    holder = λ m t kept h.
        ap (λ (v : Lock). v.holder) (r.others m (λ e. kept (subst Free (sym e) may))) ∙ h;
  }

  inits-Fair : (l : Addr) → Free l → Fair Free k (lock_init l k)
  unfolding lock_init
  inits-Fair l may = record {
    exclusive = record { balanced = balance-update k.locks l _ refl λ m _. x.balanced m };
    holder = λ m t kept h. let other : (m == l) ≡ false = not_free m kept in rw other h;
  }
    where
      not_free : (m : Addr) → ¬ Free m → (m == l) ≡ false
      not_free m kept = elim (Bool-cases (m == l)) [
        | inl e ↦ absurd (kept (subst Free (sym ((==_iff m l).0 e)) may))
        | inr e ↦ e
      ]

result {ℓ} : {A : Type ℓ} (P : A → Type 0) {r : Run A} {a : A} → Ensures P r → r ≡ done a → P a
result P p e = subst (Ensures P) e p

Step-Fair : (Free : Addr → Type 0) (k k' : Kernel) → IsExclusive k → Step Free k k' → Fair Free k k'
Step-Fair Free k k' x (acquire fuel l b e) =
    Waited-Fair Free k k' x l b (result (Waited l k.current k) (lock_acquire-Waited fuel l k x) e)
Step-Fair Free k k' x (wait_again l b e) =
    Waited-Fair Free k k' x l b (result (Waited l k.current k) (lock_wait-Waited l k x) e)
Step-Fair Free k k' x (release l b may e) =
    Released-Fair Free k k' x l b may (result (Released l k) (lock_release-Released l k x) e)
Step-Fair Free k k' x (tail_again l e) =
    same-Fair Free k k' x (result (SameLocks k) (locks-release_tail l k) e)
Step-Fair Free k k' x (down a b e) =
    same-Fair Free k k' x (result (λ out. SameLocks k out.1) (locks-sema_down a k) e)
Step-Fair Free k k' x (up a e) = same-Fair Free k k' x (result (SameLocks k) (locks-sema_up a k) e)
Step-Fair Free k k' x (yields e) =
    same-Fair Free k k' x (result (SameLocks k) (locks-thread_yield k) e)
Step-Fair Free k k' x (sleeps n e) =
    same-Fair Free k k' x (result (SameLocks k) (locks-timer_sleep n k) e)
Step-Fair Free k k' x (sets_priority p e) =
    same-Fair Free k k' x (result (SameLocks k) (locks-thread_set_priority p k) e)
Step-Fair Free k k' x (ticks e) =
    same-Fair Free k k' x (result (SameLocks k) (locks-timer_event k) e)
Step-Fair Free k k' x (tries_down a e) =
    same-Fair Free k k' x (subst (SameLocks k) e (locks-sema_try_down a k))
Step-Fair Free k k' x (inits l may e) = subst (Fair Free k) e (inits-Fair Free k k' x l may)
Step-Fair Free k k' x (unblocks t e) =
    same-Fair Free k k' x (result (SameLocks k) (locks-thread_unblock t k) e)
Step-Fair Free k k' x (creates t p e) =
    same-Fair Free k k' x (result (SameLocks k) (locks-init_thread t p k) e)
Step-Fair Free k k' x (starts t e) =
    same-Fair Free k k' x (result (SameLocks k) (locks-thread_start_ready t k) e)
Step-Fair Free k k' x (exits e) =
    same-Fair Free k k' x (result (SameLocks k) (locks-thread_exit k) e)
Step-Fair Free k k' x (cond_waits c l a e) =
    same-Fair Free k k' x (result (SameLocks k) (locks-cond_enqueue c l a k) e)
Step-Fair Free k k' x (cond_signals c l h e) =
    same-Fair Free k k' x (result (SameLocks k) (locks-cond_signal c l k h) e)

-- From a state in which each lock has a holder exactly when its semaphore is 0, and else its
-- semaphore is 1, that is so in every state that is reached by any sequence of the steps above, by
-- whichever threads: acquisition and release of locks with their waits, semaphores in no lock,
-- condition variables, yields, sleeps, changes of priority, timer interrupts, and the creation, the
-- unblocking and the end of threads. `lock_try_acquire` is not among the steps.
pub Steps-IsExclusive :
    (Free : Addr → Type 0) {k k' : Kernel} → IsExclusive k → Steps Free k k' → IsExclusive k'
Steps-IsExclusive Free x here = x
Steps-IsExclusive Free x (next {k'} {k''} s st) =
    (Step-Fair Free k' k'' (Steps-IsExclusive Free x s) st).exclusive

-- Mutual exclusion: from a state in which each lock has a holder exactly when its semaphore is 0, and
-- else its semaphore is 1, a thread that holds a lock still holds it after any sequence of the steps
-- above, by whichever threads, in which nobody releases or initialises that lock. `lock_try_acquire` is
-- not among the steps.
pub Steps-holder :
    {l t : Addr} {k k' : Kernel}
    → IsExclusive k
    → (k.locks l).holder ≡ some t
    → Steps (λ m. m ≢ l) k k'
    → (k'.locks l).holder ≡ some t
Steps-holder x h here = h
Steps-holder {l} {t} x h (next {k'} {k''} s st) =
    (Step-Fair (λ m. m ≢ l) k' k'' (Steps-IsExclusive (λ m. m ≢ l) x s) st).holder l t
      (λ ne. ne refl) (Steps-holder x h s)
