-- ===== src/Threads/Mutex.antt =====
-- `lock_acquire` with its donations, and what it does to the locks.
use operating_system_col.Base.{
  ℕ, zero, suc, ◌≡◌, refl, sym, ap, ◌∙◌, inl, inr, Bool, not, Option, none, some, arith, Bool-cases,
  Option-cases, ltb,
}
use operating_system_col.Threads.{assert, Addr, Lock, Kernel}
use operating_system_col.Threads.Schedule.{thread_current}
use operating_system_col.Threads.Sync.{
  raise, donate, block_on, accept, donate_to_holder, before_wait, lock_wait, lock_acquire,
  lock_held_by_current_thread,
}
use operating_system_col.Threads.Frame.{
  Ensures, Ensures-bind, Ensures-mono, Ensures-after, SameLocks,
}
use operating_system_col.Threads.Exclusion.{
  IsExclusive, IsExclusive-same, Waited, lock_wait-Waited, is_current,
}

-- The locks and the current thread are those of `k`.
pub record Kept (k k' : Kernel) : Type 0 where
  pub locks : SameLocks k k'
  pub current : k'.current ≡ k.current

Kept-raise : (hold curr : Addr) (k : Kernel) → Kept k (raise hold curr k)
unfolding raise
Kept-raise hold curr k = record { locks = ground arith; current = ground arith }

Kept-donate : (fuel : ℕ) (curr : Addr) (k : Kernel) → Ensures (Kept k) (donate fuel curr k)
unfolding donate
Kept-donate zero curr k = tt
Kept-donate (suc fuel) curr k = elim (Option-cases (k.threads curr).block_lock) [
  | inl e ↦ rw (e, donate) (record { locks = refl; current = refl })
  | inr (l, e) ↦ elim (Option-cases (k.locks l).holder) [
    | inl h ↦ rw (e, h, donate) tt
    | inr (t, h) ↦
        rw (e, h, donate)
          (Ensures-mono (Kept (raise t curr k)) (Kept k) (donate fuel t (raise t curr k))
            (Kept-donate fuel t (raise t curr k))
            λ k' d. record {
              locks = d.locks ∙ (Kept-raise t curr k).locks;
              current = d.current ∙ (Kept-raise t curr k).current;
            })
  ]
]

Kept-donate_to_holder :
    (fuel : ℕ) (l cur t : Addr) (k : Kernel) → Ensures (Kept k) (donate_to_holder fuel l cur t k)
unfolding donate_to_holder
Kept-donate_to_holder fuel l cur t k =
    elim (Bool-cases (
      ltb ((block_on l cur k).threads t).current_priority
        ((block_on l cur k).threads cur).current_priority)) [
          | inl e ↦
              rw (e, donate_to_holder)
                (Ensures-mono (Kept (accept t cur (block_on l cur k))) (Kept k)
                  (donate fuel cur (accept t cur (block_on l cur k)))
                  (Kept-donate fuel cur (accept t cur (block_on l cur k)))
                  λ k' d. record { locks = d.locks; current = d.current })
          | inr e ↦ rw (e, donate_to_holder) (record { locks = refl; current = refl })
        ]

Kept-before_wait :
    (fuel : ℕ) (l cur : Addr) (o : Option Addr) (k : Kernel)
    → Ensures (Kept k) (before_wait fuel l cur o k)
unfolding before_wait
Kept-before_wait fuel l cur none k = record { locks = refl; current = refl }
Kept-before_wait fuel l cur (some t) k = Kept-donate_to_holder fuel l cur t k

Waited-Kept :
    (l : Addr) (k k' : Kernel)
    → Kept k k'
    → (out : Bool × Kernel) → Waited l k'.current k' out
    → Waited l k.current k out
Waited-Kept l k k' d out w =
    let at : (m : Addr) → k'.locks m ≡ k.locks m = λ m. ap (λ (f : Addr → Lock). f m) d.locks in
    record {
      exclusive = w.exclusive;
      others = λ m ne. w.others m ne ∙ at m;
      got = λ h.
          let (free, mine) = w.got h in
          (sym (ap (λ (v : Lock). v.holder) (at l)) ∙ free, mine ∙ ap some d.current);
      waits = λ h. w.waits h ∙ ap (λ (v : Lock). v.holder) (at l);
    }

-- While the locks are exclusive, `lock_acquire` by the current thread keeps them so, whatever it
-- donates, and changes no other lock. It returns with the lock only if nobody held it, and the
-- current thread is then its holder; if the thread has to wait, the holder stays.
pub lock_acquire-Waited :
    (fuel : ℕ) (l : Addr) (k : Kernel)
    → IsExclusive k
    → Ensures (Waited l k.current k) (lock_acquire fuel l k)
unfolding lock_acquire
lock_acquire-Waited fuel l k x =
    Ensures-after (Waited l k.current k) (lock_held_by_current_thread l k) _ λ held.
      Ensures-after (Waited l k.current k) (assert (not held)) _ λ _.
        Ensures-bind (λ cur. cur ≡ k.current) (Waited l k.current k) (thread_current k) _
          (is_current k)
          λ cur e.
            Ensures-bind (Kept k) (Waited l k.current k)
              (before_wait fuel l cur (k.locks l).holder k) (lock_wait l)
              (Kept-before_wait fuel l cur (k.locks l).holder k)
              λ k' d.
                Ensures-mono (Waited l k'.current k') (Waited l k.current k) (lock_wait l k')
                  (lock_wait-Waited l k' (IsExclusive-same k k' d.locks x)) (Waited-Kept l k k' d)
