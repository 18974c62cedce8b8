-- ===== src/Threads/Exclusion.antt =====
-- Mutual exclusion: the holder and the semaphore of a lock, and `lock_wait`.
use operating_system_col.Base.{
  ℕ, ◌+◌, ◌-◌, ◌≡◌, ◌≢◌, refl, sym, ap, ◌∙◌, ◌⊎◌, inl, inr, Bool, true, false, Option, none, some,
  List, arith, if◌then◌else◌, Bool-cases, ◌==◌,
}
use mathlib.Core.Path.{subst}
use operating_system_col.KernelList.{insert_ordered}
use operating_system_col.Threads.{
  Run, done, ◌>>=◌, assert, Addr, Lock, of_lock, Kernel, set_lock, get_sema, set_sema, update,
  is_running,
}
use operating_system_col.Threads.Schedule.{compare_priority, thread_current, thread_block}
use operating_system_col.Threads.Sync.{sema_down, lock_wait}
use operating_system_col.Threads.Frame.{
  Ensures, Ensures-bind, Ensures-after, SameLocks, locks-thread_block,
}

-- One for a free lock and for a held one: the semaphore's value, and one more if there is a holder.
abbrev pub held_count : Option Addr → ℕ
held_count none = 0
held_count (some t) = 1

abbrev pub balance : Lock → ℕ
balance l = l.semaphore.value + held_count l.holder

pub record IsExclusive (k : Kernel) : Type 0 where
  pub balanced : (l : Addr) → balance (k.locks l) ≡ 1

pub IsExclusive-same : (k k' : Kernel) → SameLocks k k' → IsExclusive k → IsExclusive k'
IsExclusive-same k k' e x = record {
  balanced = λ l. ap (λ (f : Addr → Lock). balance (f l)) e ∙ x.balanced l;
}

pub balance-update :
    (f : Addr → Lock) (l : Addr) (v : Lock)
    → balance v ≡ 1
    → ((m : Addr) → m ≢ l → balance (f m) ≡ 1)
    → (m : Addr) → balance (update f l v m) ≡ 1
balance-update f l v h all m = elim (Bool-cases (m == l)) [
  | inl e ↦ rw e h
  | inr e ↦ rw e (all m (ground arith))
]

none_of_count : (o : Option Addr) → held_count o ≡ 0 → o ≡ none
none_of_count none h = refl
none_of_count (some t) h = absurd (omega arith)

pub is_current : (k : Kernel) → Ensures (λ cur. cur ≡ k.current) (thread_current k)
unfolding thread_current
is_current k =
    Ensures-after (λ cur. cur ≡ k.current) (assert (is_running (k.threads k.current).status)) _
      λ _. refl

-- How `lock_wait` of `l` by the thread `cur` may change the locks.
pub record Waited (l cur : Addr) (k : Kernel) (out : Bool × Kernel) : Type 0 where
  pub exclusive : IsExclusive out.1
  pub others : (m : Addr) → m ≢ l → out.1.locks m ≡ k.locks m
  pub got : out.0 ≡ true → ((k.locks l).holder ≡ none) × ((out.1.locks l).holder ≡ some cur)
  pub waits : out.0 ≡ false → (out.1.locks l).holder ≡ (k.locks l).holder

-- The lock `l` of `k` with other waiters, and with a lower semaphore.
abbrev with_waiters : Addr → List Addr → Kernel → Kernel
with_waiters l waiters k =
    set_sema (of_lock l) (record (get_sema (of_lock l) k) { waiters = waiters }) k

abbrev lowered : Addr → Kernel → Kernel
lowered l k =
    set_sema (of_lock l)
      (record (get_sema (of_lock l) k) { value = (get_sema (of_lock l) k).value - 1 }) k

abbrev Downed : Addr → Kernel → Bool × Kernel → Type 0
Downed l k out =
    ((out.0 ≡ false) × ((w : List Addr) × SameLocks (with_waiters l w k) out.1))
    ⊎ ((out.0 ≡ true) × ((k.locks l).semaphore.value ≢ 0) × (out.1 ≡ lowered l k))

sema_down-Downed : (l : Addr) (k : Kernel) → Ensures (Downed l k) (sema_down (of_lock l) k)
unfolding sema_down
sema_down-Downed l k = elim (Bool-cases ((k.locks l).semaphore.value == 0)) [
  | inl e ↦ rw e (
      Ensures-after (Downed l k) (thread_current k) _ λ cur.
        let w = insert_ordered (compare_priority k) cur (k.locks l).semaphore.waiters in
        Ensures-bind (SameLocks (with_waiters l w k)) (Downed l k)
          (thread_block (with_waiters l w k)) _ (locks-thread_block (with_waiters l w k))
          λ k' same. inl (refl, (w, same)))
  | inr e ↦ rw e (inr (refl, (λ z. ground arith), refl))
]

-- `lock_wait` behind its call of `sema_down`.
finish : Addr → Bool × Kernel → Run (Bool × Kernel)
finish l (got, k') =
    if got
    then (do
      cur ← thread_current k'
      done (true, set_lock l (record (k'.locks l) { holder = some cur }) k'))
    else done (false, k')

module _ (l : Addr) (k : Kernel) (x : IsExclusive k) where
  with_waiters-Waited :
      (w : List Addr) (k' : Kernel)
      → SameLocks (with_waiters l w k) k'
      → Waited l k.current k (false, k')
  with_waiters-Waited w k' e = record {
    exclusive =
        IsExclusive-same (with_waiters l w k) k' e
          (record { balanced = balance-update k.locks l _ (x.balanced l) (λ m ne. x.balanced m) });
    others = λ m ne. ap (λ (f : Addr → Lock). f m) e ∙ ground arith;
    got = λ h. cc;
    waits = λ _. ap (λ (f : Addr → Lock). (f l).holder) e ∙ ground arith;
  }

  -- The lock was free, and `cur` is its holder now.
  taken : Addr → Kernel
  taken cur = set_lock l (record ((lowered l k).locks l) { holder = some cur }) (lowered l k)

  taken-Waited : (k.locks l).semaphore.value ≢ 0 → Waited l k.current k (true, taken k.current)
  unfolding taken
  taken-Waited pos =
      let free : (k.locks l).holder ≡ none = none_of_count _ (omega (arith, x.balanced l)) in
      record {
        exclusive = record {
          balanced =
              balance-update (lowered l k).locks l _ (ground (arith, x.balanced l))
                (λ m ne. ground (arith, x.balanced m));
        };
        others = λ m ne. ground arith;
        got = λ _. (free, ground arith);
        waits = λ h. cc;
      }

  waited : (out : Bool × Kernel) → Downed l k out → Ensures (Waited l k.current k) (finish l out)
  unfolding taken finish
  waited (false, k') (inl (e, (w, same))) = with_waiters-Waited w k' same
  waited (false, k') (inr (e, _, _)) = cc
  waited (true, k') (inl (e, _)) = cc
  waited (true, k') (inr (e, pos, eq)) =
      subst (λ k''. Ensures (Waited l k.current k) (finish l (true, k''))) (sym eq)
        (Ensures-bind (λ cur. cur ≡ k.current) (Waited l k.current k) (thread_current (lowered l k))
          _ (is_current (lowered l k)) λ cur e'. rw e' (taken-Waited pos))

  -- While the locks are exclusive, a thread that goes through the wait of `lock_acquire` keeps them
  -- so and changes no other lock. It gets the lock only if nobody held it, and is then its holder;
  -- a thread that has to wait leaves the holder as it was.
  pub lock_wait-Waited : Ensures (Waited l k.current k) (lock_wait l k)
  unfolding lock_wait finish
  lock_wait-Waited =
      Ensures-bind (Downed l k) (Waited l k.current k) (sema_down (of_lock l) k) (finish l)
        (sema_down-Downed l k) waited
