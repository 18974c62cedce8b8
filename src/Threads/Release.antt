-- ===== src/Threads/Release.antt =====
-- `lock_release`, and what it does to the locks.
use mathlib.Core.Path.{subst}
use native.Mathlib.Decide.{ℕ_discrete}
use operating_system_col.Base.{
  ◌+◌, ◌≡◌, ◌≢◌, refl, sym, ap, ◌∙◌, inl, inr, Bool, true, false, Option, none, some, List, [], ◌∷◌,
  arith, Bool-cases, ltb, ◌==◌,
}
use operating_system_col.Threads.{assert, Addr, Lock, of_lock, Kernel, set_lock, get_sema, set_sema}
use operating_system_col.Threads.Schedule.{
  thread_current, thread_unblock, thread_yield, thread_get_priority,
}
use operating_system_col.Threads.Sync.{
  sema_up, wake_first, increment, lock_release, release_tail, lock_held_by_current_thread,
  is_holder,
}
use operating_system_col.Threads.Frame.{
  Ensures, Ensures-bind, Ensures-mono, Ensures-after, SameLocks, locks-thread_yield, locks-hack1,
  locks-thread_unblock,
}
use operating_system_col.Threads.Exclusion.{
  balance, held_count, IsExclusive, IsExclusive-same, is_current,
}

-- After `sema_up` of the semaphore in the lock `l`.
record Upped (l : Addr) (k k' : Kernel) : Type 0 where
  value : (k'.locks l).semaphore.value ≡ (k.locks l).semaphore.value + 1
  holder : (k'.locks l).holder ≡ (k.locks l).holder
  others : (m : Addr) → m ≢ l → k'.locks m ≡ k.locks m

Upped-SameLocks : (l : Addr) (k k' k'' : Kernel) → Upped l k k' → SameLocks k' k'' → Upped l k k''
Upped-SameLocks l k k' k'' u e =
    let at : (m : Addr) → k''.locks m ≡ k'.locks m = λ m. ap (λ (f : Addr → Lock). f m) e in
    record {
      value = ap (λ (v : Lock). v.semaphore.value) (at l) ∙ u.value;
      holder = ap (λ (v : Lock). v.holder) (at l) ∙ u.holder;
      others = λ m ne. at m ∙ u.others m ne;
    }

increment-Upped : (l : Addr) (k : Kernel) → Upped l k (increment (of_lock l) k)
unfolding increment
increment-Upped l k = record {
  value = ground arith;
  holder = ground arith;
  others = λ m ne. ground arith;
}

Upped-trans_waiters :
    (l : Addr) (w : List Addr) (k k' : Kernel)
    → Upped l (set_sema (of_lock l) (record (get_sema (of_lock l) k) { waiters = w }) k) k'
    → Upped l k k'
Upped-trans_waiters l w k k' u = record {
  value = ground (arith, u.value);
  holder = ground (arith, u.holder);
  others = λ m ne. ground (arith, u.others m ne);
}

Upped-from_same : (l : Addr) (k k' k'' : Kernel) → SameLocks k k' → Upped l k' k'' → Upped l k k''
Upped-from_same l k k' k'' e u =
    let at : (m : Addr) → k'.locks m ≡ k.locks m = λ m. ap (λ (f : Addr → Lock). f m) e in
    record {
      value = u.value ∙ ap (λ (v : Lock). v.semaphore.value + 1) (at l);
      holder = u.holder ∙ ap (λ (v : Lock). v.holder) (at l);
      others = λ m ne. u.others m ne ∙ at m;
    }

wake_first-Upped :
    (l : Addr) (ts : List Addr) (k : Kernel) → Ensures (Upped l k) (wake_first (of_lock l) ts k)
unfolding wake_first
wake_first-Upped l [] k = increment-Upped l k
wake_first-Upped l (t ∷ ts) k =
    let k1 = set_sema (of_lock l) (record (get_sema (of_lock l) k) { waiters = ts }) k in
    Ensures-bind (SameLocks k1) (Upped l k) (thread_unblock t k1) _ (locks-thread_unblock t k1)
      λ k' e.
        let k'' = increment (of_lock l) k' in
        let u : Upped l k k'' =
          Upped-trans_waiters l ts k k'' (Upped-from_same l k1 k' k'' e (increment-Upped l k')) in
        Ensures-after (Upped l k) (thread_get_priority k'') _ λ mine.
          elim (Bool-cases (ltb mine (k''.threads t).current_priority)) [
            | inl b ↦ rw b (
                Ensures-mono (SameLocks k'') (Upped l k) (thread_yield k'') (locks-thread_yield k'')
                  (λ k3. Upped-SameLocks l k k'' k3 u))
            | inr b ↦ rw b u
          ]

-- How `lock_release` of `l` may change the locks.
pub record Released (l : Addr) (k : Kernel) (out : Bool × Kernel) : Type 0 where
  pub exclusive : IsExclusive out.1
  pub was_holder : (k.locks l).holder ≡ some k.current
  pub free : (out.1.locks l).holder ≡ none
  pub others : (m : Addr) → m ≢ l → out.1.locks m ≡ k.locks m

holds : (t : Addr) (o : Option Addr) → is_holder t o ≡ true → o ≡ some t
holds t none h = cc
holds t (some h) e = ground arith

held_current :
    (l : Addr) (k : Kernel)
    → Ensures
        (λ b. b ≡ true → (k.locks l).holder ≡ some k.current)
        (lock_held_by_current_thread l k)
unfolding lock_held_by_current_thread
held_current l k =
    Ensures-bind (λ cur. cur ≡ k.current) _ (thread_current k) _ (is_current k)
      λ cur e h.
        holds k.current (k.locks l).holder (subst (λ c. is_holder c (k.locks l).holder ≡ true) e h)

asserted : (b : Bool) → Ensures (λ _. b ≡ true) (assert b)
asserted true = refl
asserted false = tt

-- `lock_release` behind the assertion, before and behind `sema_up`.
abbrev dropped : Addr → Kernel → Kernel
dropped l k = set_lock l (record (k.locks l) { holder = none }) k

dropped_others : (l : Addr) (k : Kernel) (m : Addr) → m ≢ l → (dropped l k).locks m ≡ k.locks m
dropped_others l k m ne = ground arith

by_address : (P : Addr → Type 0) (l : Addr) → P l → ((m : Addr) → m ≢ l → P m) → (m : Addr) → P m
by_address P l p f m = elim (ℕ_discrete m l) [ yes e ↦ subst P (sym e) p | no ne ↦ f m ne ]

Released-Upped :
    (l : Addr) (k : Kernel) (b : Bool) (k' : Kernel)
    → IsExclusive k
    → (k.locks l).holder ≡ some k.current
    → Upped l (dropped l k) k'
    → Released l k (b, k')
Released-Upped l k b k' x h u =
    let zero_before : (k.locks l).semaphore.value ≡ 0 =
      omega (arith, x.balanced l, ap held_count h) in
    let value : ((dropped l k).locks l).semaphore.value ≡ (k.locks l).semaphore.value =
      ground arith in
    let free : ((dropped l k).locks l).holder ≡ none = ground arith in
    let others : (m : Addr) → m ≢ l → k'.locks m ≡ k.locks m =
      λ m ne. u.others m ne ∙ dropped_others l k m ne in
    let at_l : balance (k'.locks l) ≡ 1 =
      omega (arith, u.value, zero_before, value, ap held_count (u.holder ∙ free)) in
    record {
      exclusive = record {
        balanced =
            by_address (λ m. balance (k'.locks m) ≡ 1) l at_l
              (λ m ne. ap balance (others m ne) ∙ x.balanced m);
      };
      was_holder = h;
      free = u.holder ∙ free;
      others = others;
    }

pub locks-release_tail : (l : Addr) (k : Kernel) → Ensures (SameLocks k) (release_tail l k)
unfolding release_tail
locks-release_tail l k = Ensures-after (SameLocks k) (thread_current k) _ λ cur. locks-hack1 _

Released-SameLocks :
    (l : Addr) (k : Kernel) (b c : Bool) (k' k'' : Kernel)
    → Released l k (b, k')
    → SameLocks k' k''
    → Released l k (c, k'')
Released-SameLocks l k b c k' k'' r e = record {
  exclusive = IsExclusive-same k' k'' e r.exclusive;
  was_holder = r.was_holder;
  free = ap (λ (f : Addr → Lock). (f l).holder) e ∙ r.free;
  others = λ m ne. ap (λ (f : Addr → Lock). f m) e ∙ r.others m ne;
}

-- While the locks are exclusive, `lock_release` goes on only if the current thread holds the lock.
-- Whether or not it is preempted by the thread that it wakes, the locks stay exclusive, nobody holds
-- the lock, and no other lock has changed.
pub lock_release-Released :
    (l : Addr) (k : Kernel) → IsExclusive k → Ensures (Released l k) (lock_release l k)
unfolding lock_release sema_up
lock_release-Released l k x =
    Ensures-bind (λ b. b ≡ true → (k.locks l).holder ≡ some k.current) (Released l k)
      (lock_held_by_current_thread l k) _ (held_current l k)
      λ held h.
        Ensures-bind (λ _. held ≡ true) (Released l k) (assert held) _ (asserted held)
          λ _ yes_held.
            let k0 = dropped l k in
            Ensures-bind (Upped l k0) (Released l k) (sema_up (of_lock l) k0) _
              (wake_first-Upped l _ k0)
              λ k' u.
                let r = Released-Upped l k false k' x (h yes_held) u in
                elim (Bool-cases (k'.current == k.current)) [
                  | inl e ↦ rw e (
                      Ensures-bind (SameLocks k') (Released l k) (release_tail l k') _
                        (locks-release_tail l k')
                        λ k'' same. Released-SameLocks l k false true k' k'' r same)
                  | inr e ↦ rw e r
                ]
