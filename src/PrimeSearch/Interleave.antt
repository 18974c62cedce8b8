-- ===== src/PrimeSearch/Interleave.antt =====
-- `runFast` under every interleaving of its threads.
use mathlib.Core.Path.{subst}
use operating_system_col.Base.{
  ℕ, ◌+◌, ◌<◌, ◌≡◌, ◌≢◌, refl, sym, ◌∙◌, true, false, inl, inr, arith, ltb, Bool-cases, ltb→lt,
  ltb→le, ◌↔◌, List, [], ◌∷◌, All, lt→ltb, ◌&&◌, if◌then◌else◌,
}
use operating_system_col.PrimeSearch.{
  counts_size, Phase, looping, wanting, scanning, finished, Search, put, set_phase, is_prime, test,
  advance_from, advance, interleave, begin,
}
use operating_system_col.PrimeSearch.Trial.{IsRoot, IsPrime, is_prime-IsPrime}
use operating_system_col.PrimeSearch.Fast.{Claims, IsPartition, drops, takes, scans}

module _ (isqrt : ℕ → ℕ) (limit : ℕ) where
  tests :
      (t local top : ℕ) (s : Search)
      → IsPartition (is_prime isqrt) limit s
      → s.phase t ≡ scanning local top
      → local < top
      → IsPartition
          (is_prime isqrt)
          limit
          (set_phase t (scanning (local + 1) top) (test isqrt t local s))
  unfolding test
  tests t local top s i at inside = elim (Bool-cases (is_prime isqrt local)) [
    | inl b ↦ rw b (
        scans (is_prime isqrt) limit t local top s (put s.marks local true)
          (if ltb t counts_size then put s.counts t (s.counts t + 1) else s.counts)
          (if ltb t counts_size then s.overrun else true) i at inside (put-same local ∙ sym b)
          λ j ne. put-other j ne)
    | inr b ↦ rw b (
        scans (is_prime isqrt) limit t local top s s.marks s.counts s.overrun i at inside
          (i.unmarked local t (subst (λ q. Claims q local) (sym at) (omega arith, inside)) ∙ sym b)
          λ j ne. refl)
  ]
    where
      put-same : (j : ℕ) → put s.marks j true j ≡ true
      put-same j = ground arith

      put-other : (j : ℕ) → j ≢ local → put s.marks local true j ≡ s.marks j
      put-other j ne = ground arith

  no-Claims :
      (t : ℕ) (p : Phase) (s : Search)
      → s.phase t ≡ p
      → ((j : ℕ) → ¬ Claims p j)
      → (j : ℕ) → ¬ Claims (s.phase t) j
  no-Claims t p s at h j c = h j (subst (λ q. Claims q j) at c)

  advance_from-IsPartition :
      (t : ℕ) (p : Phase) (s : Search)
      → s.phase t ≡ p
      → IsPartition (is_prime isqrt) limit s
      → IsPartition (is_prime isqrt) limit (advance_from isqrt limit t p s)
  unfolding advance_from
  advance_from-IsPartition t looping s at i = elim (Bool-cases (ltb s.global limit)) [
    | inl b ↦ rw b (
        drops (is_prime isqrt) limit t wanting s (λ j c. c)
          (λ j high. no-Claims t looping s at (λ j c. c) j) (λ e. cc) i)
    | inr b ↦ rw b (
        drops (is_prime isqrt) limit t finished s (λ j c. c)
          (λ j high. no-Claims t looping s at (λ j c. c) j) (λ e. ltb→le s.global limit b) i)
  ]
  advance_from-IsPartition t wanting s at i =
      takes (is_prime isqrt) limit t s i (no-Claims t wanting s at λ j c. c)
  advance_from-IsPartition t (scanning local top) s at i = elim (Bool-cases (ltb local top)) [
    | inl b ↦ elim (Bool-cases (ltb local limit)) [
      | inl c ↦ rw (b, c) (tests t local top s i at (ltb→lt local top b))
      | inr c ↦
          rw (b, c)
            (drops (is_prime isqrt) limit t looping s (λ j d. d)
              (λ j high d.
                let e = subst (λ q. Claims q j) at d in
                omega (arith, e.0, ltb→le local limit c, high))
              (λ e. cc) i)
    ]
    | inr b ↦ rw b (
        drops (is_prime isqrt) limit t looping s (λ j d. d)
          (λ j high d.
            let e = subst (λ q. Claims q j) at d in omega (arith, e.0, e.1, ltb→le local top b))
          (λ e. cc) i)
  ]
  advance_from-IsPartition t finished s at i = i

  interleave-IsPartition :
      (ts : List ℕ) (s : Search)
      → IsPartition (is_prime isqrt) limit s
      → IsPartition (is_prime isqrt) limit (interleave isqrt limit ts s)
  unfolding interleave advance
  interleave-IsPartition [] s i = i
  interleave-IsPartition (t ∷ ts) s i =
      interleave-IsPartition ts (advance isqrt limit t s)
        (advance_from-IsPartition t (s.phase t) s refl i)

  begin-IsPartition : IsPartition (is_prime isqrt) limit begin
  begin-IsPartition = record {
    started = omega arith;
    fresh = λ j h. (refl, λ t c. c);
    alone = λ j t u c d. absurd c;
    unmarked = λ j t c. refl;
    tested = λ j pos low high free. absurd (omega (arith, pos, low));
    through = λ t e. cc;
  }

  test-overrun :
      (t local : ℕ) (s : Search) → t < counts_size → (test isqrt t local s).overrun ≡ s.overrun
  unfolding test
  test-overrun t local s h = rw (lt→ltb t counts_size h) (ground arith)

  advance_from-overrun :
      (t : ℕ) (p : Phase) (s : Search)
      → t < counts_size
      → (advance_from isqrt limit t p s).overrun ≡ s.overrun
  unfolding advance_from
  advance_from-overrun t looping s h = ground arith
  advance_from-overrun t wanting s h = refl
  advance_from-overrun t (scanning local top) s h =
      elim (Bool-cases (ltb local top && ltb local limit)) [
        | inl b ↦ rw b (test-overrun t local s h)
        | inr b ↦ rw b refl
      ]
  advance_from-overrun t finished s h = refl

  interleave-overrun :
      (ts : List ℕ) (s : Search)
      → All (λ t. t < counts_size) ts
      → (interleave isqrt limit ts s).overrun ≡ s.overrun
  unfolding interleave advance
  interleave-overrun [] s h = refl
  interleave-overrun (t ∷ ts) s h =
      interleave-overrun ts (advance isqrt limit t s) h.1 ∙ advance_from-overrun t (s.phase t) s h.0

  -- In every interleaving of threads of `runFast` with ids below 50: once a thread has come out of its
  -- loop and no thread has a number left to test, each number from 1 to below the limit is marked in
  -- `primeF` exactly if it is prime, if the library's square root, rounded down, is the integer square
  -- root. No thread has written behind the end of `counts`, which has 50 entries.
  pub run_fast-IsPrime :
      IsRoot isqrt
      → (ts : List ℕ) → All (λ u. u < counts_size) ts
      → (t : ℕ) → (interleave isqrt limit ts begin).phase t ≡ finished
      → ((u j : ℕ) → ¬ Claims ((interleave isqrt limit ts begin).phase u) j)
      → (j : ℕ) → 0 < j
      → j < limit
      → (((interleave isqrt limit ts begin).marks j ≡ true) ↔ IsPrime j)
        × ((interleave isqrt limit ts begin).overrun ≡ false)
  run_fast-IsPrime root ts few t over idle j pos high =
      let i = interleave-IsPartition ts begin begin-IsPartition in
      let same = i.tested j pos (omega (arith, i.through t over, high)) high (λ u. idle u j) in
      (
        subst (λ b. (b ≡ true) ↔ IsPrime j) (sym same) (is_prime-IsPrime isqrt root j pos),
        interleave-overrun ts begin few,
      )

  -- In every interleaving, two threads never have the same number still to test, and a number that
  -- a thread has still to test is not yet marked.
  pub run_fast-apart :
      (ts : List ℕ) (j t u : ℕ)
      → Claims ((interleave isqrt limit ts begin).phase t) j
      → Claims ((interleave isqrt limit ts begin).phase u) j
      → (t ≡ u) × ((interleave isqrt limit ts begin).marks j ≡ false)
  run_fast-apart ts j t u c d =
      let i = interleave-IsPartition ts begin begin-IsPartition in
      (i.alone j t u c d, i.unmarked j t c)
