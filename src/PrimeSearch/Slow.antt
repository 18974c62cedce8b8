-- ===== src/PrimeSearch/Slow.antt =====
-- `runSlow` of G/A2/Top/src/main.c: each thread has a fixed part of the range.
use native.Mathlib.Decide.{ℕ_discrete}
use operating_system_col.Base.{
  ℕ, zero, suc, ◌+◌, ◌-◌, ◌*◌, ◌≤◌, ◌<◌, ◌≡◌, ◌≢◌, refl, sym, ap, ◌∙◌, ◌⊎◌, inl, inr, Bool, true,
  false, arith, ltb, ltb→lt, ltb→le, if◌then◌else◌, Bool-cases,
}
use native.Mathlib.Nat.{suc-mul}
use operating_system_col.PrimeSearch.{put, is_prime}

-- The arrays `primeS`, without a bound, and `counts`.
pub record Found : Type 0 where
  pub marks : ℕ → Bool
  pub counts : ℕ → ℕ

abbrev pub nothing_found : Found
nothing_found = record { marks = λ j. false; counts = λ t. 0 }

module _ (isqrt : ℕ → ℕ) where
  -- The body of the loop for `local`, but for the increment.
  unfoldable pub note_prime : ℕ → ℕ → Found → Found
  note_prime temp local s =
      if is_prime isqrt local
      then record { marks = put s.marks local true; counts = put s.counts temp (s.counts temp + 1) }
      else s

  -- The loop from `local` on, for as many rounds as there are numbers up to `higher`.
  unfoldable pub slow_from : ℕ → ℕ → ℕ → Found → Found
  slow_from zero temp local s = s
  slow_from (suc rounds) temp local s = slow_from rounds temp (local + 1) (note_prime temp local s)

  unfoldable pub run_slow : ℕ → ℕ → ℕ → Found → Found
  run_slow temp lower higher s = slow_from (suc higher - lower) temp lower s

  -- The threads that `main` starts, with ids below the first number, one after another. Each writes
  -- to its own part of the array and to its own count.
  unfoldable pub slow_threads : ℕ → ℕ → Found
  slow_threads zero size = nothing_found
  slow_threads (suc i) size = run_slow i (i * size + 1) ((i + 1) * size) (slow_threads i size)

  note-other :
      (temp local j : ℕ) (s : Found) → j ≢ local → (note_prime temp local s).marks j ≡ s.marks j
  unfolding note_prime
  note-other temp local j s ne = elim (Bool-cases (is_prime isqrt local)) [
    | inl b ↦ rw b (ground arith)
    | inr b ↦ rw b refl
  ]

  note-same :
      (temp local : ℕ) (s : Found)
      → s.marks local ≡ false
      → (note_prime temp local s).marks local ≡ is_prime isqrt local
  unfolding note_prime
  note-same temp local s e = elim (Bool-cases (is_prime isqrt local)) [
    | inl b ↦ rw b (ground arith)
    | inr b ↦ rw b e
  ]

  outside :
      (rounds temp local j : ℕ) (s : Found)
      → (j < local) ⊎ (local + rounds ≤ j)
      → (slow_from rounds temp local s).marks j ≡ s.marks j
  unfolding slow_from
  outside zero temp local j s h = refl
  outside (suc rounds) temp local j s h =
      outside rounds temp (local + 1) j (note_prime temp local s) (further h)
      ∙ note-other temp local j s (apart h)
    where
      further : (j < local) ⊎ (local + suc rounds ≤ j) → (j < local + 1) ⊎ (local + 1 + rounds ≤ j)
      further (inl k) = inl (omega (arith, k))
      further (inr k) = inr (omega (arith, k))

      apart : (j < local) ⊎ (local + suc rounds ≤ j) → j ≢ local
      apart (inl k) = λ e. omega (arith, k, e)
      apart (inr k) = λ e. omega (arith, k, e)

  inside :
      (rounds temp local j : ℕ) (s : Found)
      → local ≤ j
      → j < local + rounds
      → s.marks j ≡ false
      → (slow_from rounds temp local s).marks j ≡ is_prime isqrt j
  unfolding slow_from
  inside zero temp local j s low high e = absurd (omega (arith, low, high))
  inside (suc rounds) temp local j s low high e = elim (ℕ_discrete j local) [
    | yes same ↦
        outside rounds temp (local + 1) j (note_prime temp local s) (inl (omega (arith, same)))
        ∙ ap (note_prime temp local s).marks same
        ∙ note-same temp local s (ap s.marks (sym same) ∙ e)
        ∙ ap (is_prime isqrt) (sym same)
    | no ne ↦
        inside rounds temp (local + 1) j (note_prime temp local s) (omega (arith, low, ne))
          (omega (arith, high)) (note-other temp local j s ne ∙ e)
  ]

  next_part : (i size : ℕ) → (i + 1) * size ≡ i * size + size
  next_part i size =
      let one : i + 1 ≡ suc i = omega arith in ap (λ n. n * size) one ∙ suc-mul i size

  unmarked :
      (threads size j : ℕ)
      → (j ≡ 0) ⊎ (threads * size < j)
      → (slow_threads threads size).marks j ≡ false
  unfolding slow_threads run_slow
  unmarked zero size j h = refl
  unmarked (suc i) size j h =
      outside (suc ((i + 1) * size) - (i * size + 1)) i (i * size + 1) j (slow_threads i size)
        (beyond h)
      ∙ unmarked i size j (before h)
    where
      beyond :
          (j ≡ 0) ⊎ (suc i * size < j)
          → (j < i * size + 1) ⊎ (i * size + 1 + (suc ((i + 1) * size) - (i * size + 1)) ≤ j)
      beyond (inl e) = inl (omega (arith, e))
      beyond (inr k) = inr (omega (arith, k, next_part i size, suc-mul i size))

      before : (j ≡ 0) ⊎ (suc i * size < j) → (j ≡ 0) ⊎ (i * size < j)
      before (inl e) = inl e
      before (inr k) = inr (omega (arith, k, suc-mul i size))

  -- The threads of `runSlow`, one after another, mark each number from 1 to the number of threads
  -- times the size of a part, that last one included, exactly if `isPrime` answers true for it.
  slow_threads-marks :
      (threads size j : ℕ)
      → 0 < j
      → j ≤ threads * size
      → (slow_threads threads size).marks j ≡ is_prime isqrt j
  unfolding slow_threads run_slow
  slow_threads-marks zero size j pos h = absurd (omega (arith, pos, h))
  slow_threads-marks (suc i) size j pos h = elim (Bool-cases (ltb (i * size) j)) [
    | inl b ↦
        let mine = ltb→lt (i * size) j b in
        inside (suc ((i + 1) * size) - (i * size + 1)) i (i * size + 1) j (slow_threads i size)
          (omega (arith, mine)) (omega (arith, h, next_part i size, suc-mul i size))
          (unmarked i size j (inr mine))
    | inr b ↦
        let earlier = ltb→le (i * size) j b in
        outside (suc ((i + 1) * size) - (i * size + 1)) i (i * size + 1) j (slow_threads i size)
          (inl (omega (arith, earlier)))
        ∙ slow_threads-marks i size j pos earlier
  ]
