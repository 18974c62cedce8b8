-- ===== src/Threads/Acquire.antt =====
-- What `lock_acquire` gives the holder of a lock before it waits.
use mathlib.Core.Path.{subst}
use native.Mathlib.Nat.{le_trans}
use operating_system_col.Base.{
  ℕ, suc, ◌≤◌, ◌<◌, ◌≡◌, ◌≢◌, refl, ap, ◌∙◌, inl, inr, some, arith, Bool-cases, ltb, ltb→lt, ltb→le,
}
use operating_system_col.Threads.{Addr, Lock, Kernel}
use operating_system_col.Threads.Sync.{donate, block_on, accept, donate_to_holder}
use operating_system_col.Threads.WellFormed.{Returns, Returns-mono}
use operating_system_col.Threads.Priority.{shown}
use operating_system_col.Threads.Donation.{
  Chain, free, link, OnChain, here, next, Donated, donate-Donated,
}

module _ (k k' : Kernel) (same : k'.locks ≡ k.locks) where
  same_lock : (l : Addr) → (k'.locks l).holder ≡ (k.locks l).holder
  same_lock l = ap (λ (f : Addr → Lock). (f l).holder) same

  Chain-of_same :
      {t : Addr} {n : ℕ}
      → Chain k t n
      → ((x : Addr) → OnChain k t x → (k'.threads x).block_lock ≡ (k.threads x).block_lock)
      → Chain k' t n
  Chain-of_same (free {curr} e) f = free (f curr here ∙ e)
  Chain-of_same (link {curr} {l} e h c) f =
      link (f curr here ∙ e) (same_lock l ∙ h) (Chain-of_same c λ x on. f x (next e h on))

  OnChain-of_same :
      {t u : Addr}
      → OnChain k t u
      → ((x : Addr) → OnChain k t x → (k'.threads x).block_lock ≡ (k.threads x).block_lock)
      → OnChain k' t u
  OnChain-of_same here f = here
  OnChain-of_same (next {curr} {l} e h c) f =
      next (f curr here ∙ e) (same_lock l ∙ h) (OnChain-of_same c λ x on. f x (next e h on))

-- What the current thread's request has changed when it begins to wait.
pub record Pledged (l cur t : Addr) (k k' : Kernel) : Type 0 where
  pub locks : k'.locks ≡ k.locks
  pub block_lock : (k'.threads cur).block_lock ≡ some l
  pub direct : shown k cur ≤ shown k' t
  pub nested : shown k t < shown k cur → (u : Addr) → OnChain k t u → shown k cur ≤ shown k' u
  pub grown : (u : Addr) → shown k u ≤ shown k' u

-- The state in which the donation loop starts.
abbrev accepted : Addr → Addr → Addr → Kernel → Kernel
accepted l cur t k = accept t cur (block_on l cur k)

accepted_blocked :
    (l cur t : Addr) (k : Kernel) → ((accepted l cur t k).threads cur).block_lock ≡ some l
accepted_blocked l cur t k = ground arith

accepted_others :
    (l cur t : Addr) (k : Kernel) (x : Addr)
    → x ≢ cur
    → ((accepted l cur t k).threads x).block_lock ≡ (k.threads x).block_lock
accepted_others l cur t k x ne = ground arith

accepted_donor :
    (l cur t : Addr) (k : Kernel) → t ≢ cur → shown (accepted l cur t k) cur ≡ shown k cur
accepted_donor l cur t k ne = ground arith

accepted_grown :
    (l cur t : Addr) (k : Kernel)
    → shown k t < shown k cur
    → (u : Addr) → shown k u ≤ shown (accepted l cur t k) u
accepted_grown l cur t k low u = ground arith

shown-block_on : (l cur : Addr) (k : Kernel) (u : Addr) → shown (block_on l cur k) u ≡ shown k u
shown-block_on l cur k u = ground arith

module _ (fuel n : ℕ) (k : Kernel) (l cur t : Addr) (held : (k.locks l).holder ≡ some t)
    (ne : t ≢ cur) where
  accepted_same :
      ¬ OnChain k t cur
      → (x : Addr) → OnChain k t x
      → ((accepted l cur t k).threads x).block_lock ≡ (k.threads x).block_lock
  accepted_same apart x on = accepted_others l cur t k x λ e. apart (subst (OnChain k t) e on)

  Donated-Pledged :
      ¬ OnChain k t cur
      → shown k t < shown k cur
      → (k' : Kernel) → Donated cur (accepted l cur t k) k'
      → Pledged l cur t k k'
  Donated-Pledged apart low k' d =
      let reach : (u : Addr) → OnChain k t u → shown k cur ≤ shown k' u = λ u on.
        subst (λ p. p ≤ shown k' u) (accepted_donor l cur t k ne)
          (d.reached u (
            next (accepted_blocked l cur t k) held
              (OnChain-of_same k (accepted l cur t k) refl on (accepted_same apart)))) in
      record {
        locks = d.raised.locks;
        block_lock = d.raised.block_lock cur ∙ accepted_blocked l cur t k;
        direct = reach t here;
        nested = λ _. reach;
        grown = λ u. le_trans (accepted_grown l cur t k low u) (d.raised.grown u);
      }

  -- When the current thread asks for a lock that another thread holds, and the holder's chain of
  -- blocked holders has at most `n` links and does not come back to the asking thread, the donation
  -- ends (fuel above `n + 1` is enough). The holder then has at least the asking thread's priority;
  -- if it had less before, so has every thread on the chain. No thread has lost priority, no lock
  -- has changed, and the asking thread is recorded as blocked on the lock.
  pub donate_to_holder_lem :
      Chain k t n
      → ¬ OnChain k t cur
      → suc n < fuel
      → Returns (Pledged l cur t k) (donate_to_holder fuel l cur t k)
  unfolding donate_to_holder
  donate_to_holder_lem chain apart h =
      elim (Bool-cases (ltb (shown (block_on l cur k) t) (shown (block_on l cur k) cur))) [
        | inl e ↦
            let low : shown k t < shown k cur = omega (
              arith,
              ltb→lt (shown (block_on l cur k) t) (shown (block_on l cur k) cur) e,
              shown-block_on l cur k t,
              shown-block_on l cur k cur,
            ) in
            rw (e, donate_to_holder)
              (Returns-mono (Donated cur (accepted l cur t k)) (Pledged l cur t k)
                (donate fuel cur (accepted l cur t k))
                (donate-Donated fuel (accepted l cur t k) cur (suc n)
                  (link (accepted_blocked l cur t k) held
                    (Chain-of_same k (accepted l cur t k) refl chain (accepted_same apart)))
                  h)
                (Donated-Pledged apart low))
        | inr e ↦
            let high : shown k cur ≤ shown k t = omega (
              arith,
              ltb→le (shown (block_on l cur k) t) (shown (block_on l cur k) cur) e,
              shown-block_on l cur k t,
              shown-block_on l cur k cur,
            ) in
            rw (e, donate_to_holder)
              (record {
                locks = refl;
                block_lock = ground arith;
                direct = omega (arith, shown-block_on l cur k t);
                nested = λ low. absurd (omega arith);
                grown = λ u. omega (arith, shown-block_on l cur k u);
              })
      ]
