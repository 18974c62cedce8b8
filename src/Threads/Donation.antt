-- ===== src/Threads/Donation.antt =====
-- The donation loop of `lock_acquire`: whom it reaches, when it ends, and when it does not.
use operating_system_col.Base.{
  ℕ, zero, suc, ◌≤◌, ◌<◌, ◌≡◌, ◌≢◌, refl, ap, ◌∙◌, ◌⊎◌, inl, inr, true, false, none, some, arith,
  ltb, ◌==◌,
}
use mathlib.Core.Path.{subst}
use native.Mathlib.Nat.{le_refl, le_trans}
use operating_system_col.Threads.{out_of_fuel, ◌>>=◌, Addr, running, is_running, Lock, Kernel}
use operating_system_col.Threads.Schedule.{thread_current}
use operating_system_col.Threads.Sync.{
  raise, donate, block_on, accept, donate_to_holder, before_wait, lock_wait, lock_acquire,
  lock_held_by_current_thread,
}
use operating_system_col.Threads.WellFormed.{Returns, Returns-mono}
use operating_system_col.Threads.Priority.{shown}

-- From `curr` at most `n` links, each from a thread to the holder of the lock that it is blocked
-- on, lead to a thread that is blocked on no lock.
pub data Chain (k : Kernel) : Addr → ℕ → Type 0 where
  free : {curr : Addr} {n : ℕ} → (k.threads curr).block_lock ≡ none → Chain k curr n
  link :
      {curr l hold : Addr} {n : ℕ}
      → (k.threads curr).block_lock ≡ some l
      → (k.locks l).holder ≡ some hold
      → Chain k hold n
      → Chain k curr (suc n)

-- `t` is reached from `curr` by those links.
pub data OnChain (k : Kernel) : Addr → Addr → Type 0 where
  here : {t : Addr} → OnChain k t t
  next :
      {curr l hold t : Addr}
      → (k.threads curr).block_lock ≡ some l
      → (k.locks l).holder ≡ some hold
      → OnChain k hold t
      → OnChain k curr t

-- Two states that differ in current priorities only, which have not fallen in the second.
pub record Raised (k k' : Kernel) : Type 0 where
  pub locks : k'.locks ≡ k.locks
  pub ready_list : k'.ready_list ≡ k.ready_list
  pub current : k'.current ≡ k.current
  pub block_lock : (t : Addr) → (k'.threads t).block_lock ≡ (k.threads t).block_lock
  pub priority : (t : Addr) → (k'.threads t).priority ≡ (k.threads t).priority
  pub status : (t : Addr) → (k'.threads t).status ≡ (k.threads t).status
  pub donors : (t : Addr) → (k'.threads t).donated_priority ≡ (k.threads t).donated_priority
  pub grown : (t : Addr) → shown k t ≤ shown k' t

Raised-raise : (hold curr : Addr) (k : Kernel) → Raised k (raise hold curr k)
unfolding raise
Raised-raise hold curr k = record {
  locks = ground arith;
  ready_list = ground arith;
  current = ground arith;
  block_lock = λ t. ground arith;
  priority = λ t. ground arith;
  status = λ t. ground arith;
  donors = λ t. ground arith;
  grown = λ t. ground arith;
}

raise_enough : (hold curr : Addr) (k : Kernel) → shown k curr ≤ shown (raise hold curr k) hold
unfolding raise
raise_enough hold curr k = ground arith

Raised-trans : {a b c : Kernel} → Raised a b → Raised b c → Raised a c
Raised-trans r s = record {
  locks = s.locks ∙ r.locks;
  ready_list = s.ready_list ∙ r.ready_list;
  current = s.current ∙ r.current;
  block_lock = λ t. s.block_lock t ∙ r.block_lock t;
  priority = λ t. s.priority t ∙ r.priority t;
  status = λ t. s.status t ∙ r.status t;
  donors = λ t. s.donors t ∙ r.donors t;
  grown = λ t. le_trans (r.grown t) (s.grown t);
}

Raised-refl : (k : Kernel) → Raised k k
Raised-refl k = record {
  locks = refl;
  ready_list = refl;
  current = refl;
  block_lock = λ t. refl;
  priority = λ t. refl;
  status = λ t. refl;
  donors = λ t. refl;
  grown = λ t. le_refl (shown k t);
}

module _ {k k' : Kernel} (r : Raised k k') where
  holder-Raised : (l : Addr) → (k'.locks l).holder ≡ (k.locks l).holder
  holder-Raised l = ap (λ (f : Addr → Lock). (f l).holder) r.locks

  Chain-Raised : {curr : Addr} {n : ℕ} → Chain k curr n → Chain k' curr n
  Chain-Raised (free {curr} e) = free (r.block_lock curr ∙ e)
  Chain-Raised (link {curr} {l} e h c) =
      link (r.block_lock curr ∙ e) (holder-Raised l ∙ h) (Chain-Raised c)

  OnChain-Raised : {curr t : Addr} → OnChain k curr t → OnChain k' curr t
  OnChain-Raised here = here
  OnChain-Raised (next {curr} {l} e h c) =
      next (r.block_lock curr ∙ e) (holder-Raised l ∙ h) (OnChain-Raised c)

-- What the loop has done when it ends.
pub record Donated (curr : Addr) (k k' : Kernel) : Type 0 where
  pub raised : Raised k k'
  pub reached : (t : Addr) → OnChain k curr t → shown k curr ≤ shown k' t

-- The links of a chain are determined by the state.
same_holder :
    (k : Kernel) (curr l l' hold hold' : Addr)
    → (k.threads curr).block_lock ≡ some l
    → (k.locks l).holder ≡ some hold
    → (k.threads curr).block_lock ≡ some l'
    → (k.locks l').holder ≡ some hold'
    → hold' ≡ hold
same_holder k curr l l' hold hold' e h e' h' = cc

pub OnChain-cases :
    {k : Kernel} {curr t : Addr}
    → OnChain k curr t
    → (l hold : Addr) → (k.threads curr).block_lock ≡ some l
    → (k.locks l).holder ≡ some hold
    → (t ≡ curr) ⊎ OnChain k hold t
OnChain-cases here l hold e h = inl refl
OnChain-cases {k} {t} (next {curr} {l = l'} {hold = hold'} e' h' c) l hold e h =
    inr (subst (λ x. OnChain k x t) (same_holder k curr l l' hold hold' e h e' h') c)

pub no_link :
    {k : Kernel} {curr t : Addr} → OnChain k curr t → (k.threads curr).block_lock ≡ none → t ≡ curr
no_link here e = refl
no_link (next e' h' c) e = cc

-- Along a chain of at most `n` links, fuel above `n` is enough for the loop to end. Every thread on
-- the chain then has at least the priority that the first one had, no thread has lost priority, and
-- nothing but current priorities has changed.
pub donate-Donated :
    (fuel : ℕ) (k : Kernel) (curr : Addr) (n : ℕ)
    → Chain k curr n
    → n < fuel
    → Returns (Donated curr k) (donate fuel curr k)
unfolding donate
donate-Donated zero k curr n c h = absurd (omega arith)
donate-Donated (suc fuel) k curr n (free e) h =
    rw (e, donate)
      (record {
        raised = Raised-refl k;
        reached = λ t c. rw (no_link c e) (le_refl (shown k curr));
      })
donate-Donated (suc fuel) k curr (suc n) (link {l} {hold} e g c) h =
    let r = Raised-raise hold curr k in
    rw (e, g, donate)
      (Returns-mono (Donated hold (raise hold curr k)) (Donated curr k)
        (donate fuel hold (raise hold curr k))
        (donate-Donated fuel (raise hold curr k) hold n (Chain-Raised r c) (omega arith))
        λ k' d. record {
          raised = Raised-trans r d.raised;
          reached = λ t on. elim (OnChain-cases on l hold e g) [
            | inl same ↦ rw same (le_trans (r.grown curr) (d.raised.grown curr))
            | inr later ↦ le_trans (raise_enough hold curr k) (d.reached t (OnChain-Raised r later))
          ];
        })

-- A thread whose `block_lock` names a lock that it holds itself: the loop stays at it.
self_loop :
    (fuel : ℕ) (k : Kernel) (t m : Addr)
    → (k.threads t).block_lock ≡ some m
    → (k.locks m).holder ≡ some t
    → donate fuel t k ≡ out_of_fuel
unfolding donate
self_loop zero k t m e h = refl
self_loop (suc fuel) k t m e h =
    let r = Raised-raise t t k in
    rw (e, h, donate)
      (self_loop fuel (raise t t k) t m (r.block_lock t ∙ e) (holder-Raised r m ∙ h))

donate_to_stale :
    (fuel : ℕ) (k : Kernel) (curr t l m : Addr)
    → (k.threads curr).block_lock ≡ some l
    → (k.locks l).holder ≡ some t
    → (k.threads t).block_lock ≡ some m
    → (k.locks m).holder ≡ some t
    → donate fuel curr k ≡ out_of_fuel
unfolding donate
donate_to_stale zero k curr t l m e h e' h' = refl
donate_to_stale (suc fuel) k curr t l m e h e' h' =
    let r = Raised-raise t curr k in
    rw (e, h, donate)
      (self_loop fuel (raise t curr k) t m (r.block_lock t ∙ e') (holder-Raised r m ∙ h'))

contended :
    (fuel : ℕ) (l t : Addr) (k : Kernel)
    → (k.threads k.current).status ≡ running
    → (k.locks l).holder ≡ some t
    → t ≢ k.current
    → lock_acquire fuel l k ≡ (donate_to_holder fuel l k.current t k >>= lock_wait l)
unfolding lock_acquire before_wait lock_held_by_current_thread thread_current
contended fuel l t k r h ne =
    let other : (t == k.current) ≡ false = ground arith in rw (ap is_running r, h, other)

donates_to_stale :
    (fuel : ℕ) (k : Kernel) (cur t l m : Addr)
    → (k.locks l).holder ≡ some t
    → t ≢ cur
    → shown k t < shown k cur
    → (k.threads t).block_lock ≡ some m
    → (k.locks m).holder ≡ some t
    → donate_to_holder fuel l cur t k ≡ out_of_fuel
unfolding donate_to_holder
donates_to_stale fuel k cur t l m h ne low e h' =
    let higher : ltb (shown (block_on l cur k) t) (shown (block_on l cur k) cur) ≡ true =
      ground arith in
    rw higher (
      donate_to_stale fuel (accept t cur (block_on l cur k)) cur t l m (ground arith) h
        (ground arith) h')

-- A thread that asks for a lock whose holder has a lower priority never comes out of the donation
-- loop, whatever the fuel, if the holder's `block_lock` still names a lock that the holder has since
-- been given. (No function of the source resets `block_lock`.)
pub lock_acquire_hangs :
    (fuel : ℕ) (l t m : Addr) (k : Kernel)
    → (k.threads k.current).status ≡ running
    → (k.locks l).holder ≡ some t
    → t ≢ k.current
    → shown k t < shown k k.current
    → (k.threads t).block_lock ≡ some m
    → (k.locks m).holder ≡ some t
    → lock_acquire fuel l k ≡ out_of_fuel
lock_acquire_hangs fuel l t m k r h ne low e h' =
    rw (contended fuel l t k r h ne, donates_to_stale fuel k k.current t l m h ne low e h')
