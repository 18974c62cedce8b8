-- ===== src/PrimeSearch.antt =====
-- G/A2/Top/src/main.c: the search for primes by several threads.
-- `isPrime` takes the integer square root from the C library: it is the parameter `isqrt`.
pub mod Trial
pub mod Fast
pub mod Slow
pub mod Interleave
pub mod Tests
use operating_system_col.Base.{
  ℕ, zero, suc, ◌+◌, ◌-◌, Bool, true, false, List, [], ◌∷◌, ltb, ◌==◌, ◌%◌, ◌&&◌, if◌then◌else◌,
}

-- The loop of `isPrime` from `i` on, with as many rounds as there are values up to `lower`.
unfoldable pub trial : ℕ → ℕ → ℕ → Bool
trial zero n i = true
trial (suc rounds) n i = let rest = trial rounds n (i + 1) in if n % i == 0 then false else rest

-- `CHUNK`
abbrev pub chunk : ℕ
chunk = 100

-- Where a thread stands in `runFast`: at the test of the outer loop, before the locked section, at
-- the test of the inner loop with its `local` and `top`, or behind the loops.
pub data Phase : Type 0 where
  looping : Phase
  wanting : Phase
  scanning : ℕ → ℕ → Phase
  finished : Phase

-- The size of the array `counts`, `LIMIT`.
abbrev pub counts_size : ℕ
counts_size = 50

-- The shared variables `global`, `primeF` and `counts`, and the threads by their ids. `overrun` says
-- that a thread has written behind the end of `counts`: what the program does then C leaves undefined.
pub record Search : Type 0 where
  pub global : ℕ
  pub marks : ℕ → Bool
  pub counts : ℕ → ℕ
  pub overrun : Bool
  pub phase : ℕ → Phase

abbrev pub put {ℓ} : {A : Type ℓ} → (ℕ → A) → ℕ → A → ℕ → A
put f i v j = if j == i then v else f j

abbrev pub set_phase : ℕ → Phase → Search → Search
set_phase t p s = record s { phase = put s.phase t p }

module _ (isqrt : ℕ → ℕ) where
  unfoldable pub is_prime : ℕ → Bool
  is_prime n = if n == 1 then false else trial (isqrt n - 1) n 2

  -- The body of the inner loop for `local`, but for the increment.
  unfoldable pub test : ℕ → ℕ → Search → Search
  test t local s =
      if is_prime local
      then record s {
        marks = put s.marks local true;
        counts = if ltb t counts_size then put s.counts t (s.counts t + 1) else s.counts;
        overrun = if ltb t counts_size then s.overrun else true;
      }
      else s

  -- What the thread `t` does next. The locked section is one step; the test of the outer loop reads
  -- `global` without the lock.
  unfoldable pub advance_from : ℕ → ℕ → Phase → Search → Search
  advance_from limit t looping s =
      if ltb s.global limit then set_phase t wanting s else set_phase t finished s
  advance_from limit t wanting s =
      set_phase t (scanning s.global (s.global + chunk)) (record s { global = s.global + chunk })
  advance_from limit t (scanning local top) s =
      if ltb local top && ltb local limit
      then set_phase t (scanning (local + 1) top) (test t local s)
      else set_phase t looping s
  advance_from limit t finished s = s

  unfoldable pub advance : ℕ → ℕ → Search → Search
  advance limit t s = advance_from limit t (s.phase t) s

  -- An interleaving, as the ids of the threads in the order in which they take steps.
  unfoldable pub interleave : ℕ → List ℕ → Search → Search
  interleave limit [] s = s
  interleave limit (t ∷ ts) s = interleave limit ts (advance limit t s)

abbrev pub begin : Search
begin = record {
  global = 1;
  marks = λ j. false;
  counts = λ t. 0;
  overrun = false;
  phase = λ t. looping;
}
