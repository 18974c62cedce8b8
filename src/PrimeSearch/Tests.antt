-- ===== src/PrimeSearch/Tests.antt =====
-- A square root that is as documented, and two threads that search below 6.
use native.Mathlib.Nat.{mul-le-mul_right, mul-suc}
use native.Mathlib.Decide.{ℕ_discrete}
use mathlib.Core.Path.{subst}
use operating_system_col.Base.{
  ℕ, zero, suc, ◌*◌, ◌≤◌, ◌<◌, ◌≡◌, ◌≢◌, refl, true, inl, inr, arith, ltb, if◌then◌else◌,
  Bool-cases, ltb→lt, ltb→le, ◌↔◌, List, [], ◌∷◌, All, false,
}
use operating_system_col.PrimeSearch.{
  counts_size, looping, finished, Search, is_prime, trial, test, advance_from, advance, interleave,
  begin,
}
use operating_system_col.PrimeSearch.Trial.{IsRoot, IsPrime}
use operating_system_col.PrimeSearch.Fast.{Claims}
use operating_system_col.PrimeSearch.Interleave.{run_fast-IsPrime}

abbrev root_from : ℕ → ℕ → ℕ
root_from r n = if ltb n (suc r * suc r) then r else suc r

abbrev root : ℕ → ℕ
root zero = 0
root (suc n) = root_from (root n) (suc n)

next_square : (r : ℕ) → suc r * suc r < suc (suc r) * suc (suc r)
next_square r =
    let wider : suc r * suc r ≤ suc (suc r) * suc r = mul-le-mul_right (suc r) (omega arith) in
    omega (arith, wider, mul-suc (suc (suc r)) (suc r))

root_from-bounds :
    (r n : ℕ)
    → r * r ≤ n
    → n < suc r * suc r
    → (root_from r (suc n) * root_from r (suc n) ≤ suc n)
      × (suc n < suc (root_from r (suc n)) * suc (root_from r (suc n)))
root_from-bounds r n low high = elim (Bool-cases (ltb (suc n) (suc r * suc r))) [
  | inl b ↦ rw b (omega (arith, low), ltb→lt (suc n) (suc r * suc r) b)
  | inr b ↦ rw b (ltb→le (suc n) (suc r * suc r) b, omega (arith, high, next_square r))
]

root-bounds : (n : ℕ) → (root n * root n ≤ n) × (n < suc (root n) * suc (root n))
root-bounds zero = (omega arith, omega arith)
root-bounds (suc n) = root_from-bounds (root n) n (root-bounds n).0 (root-bounds n).1

root-IsRoot : IsRoot root
root-IsRoot = record { below = λ n. (root-bounds n).0; above = λ n. (root-bounds n).1 }

-- Thread 0 takes a block; thread 1 looks too, and takes an empty one.
abbrev turns : List ℕ
turns = 0 ∷ 1 ∷ 0 ∷ 1 ∷ 0 ∷ 0 ∷ 0 ∷ 1 ∷ 0 ∷ 0 ∷ 0 ∷ 1 ∷ 0 ∷ []

abbrev searched : Search
searched = interleave root 6 turns begin

marks_five : searched.marks 5 ≡ true
unfolding interleave advance advance_from test is_prime trial
marks_five = refl

over : searched.phase 0 ≡ finished
unfolding interleave advance advance_from test is_prime trial
over = refl

not_started : (u : ℕ) → u ≢ 0 → u ≢ 1 → searched.phase u ≡ looping
unfolding interleave advance advance_from test is_prime trial
not_started u h k = ground arith

idle : (u j : ℕ) → ¬ Claims (searched.phase u) j
unfolding interleave advance advance_from test is_prime trial
idle u j c = elim (ℕ_discrete u 0) [
  | yes e ↦ subst (λ x. Claims (searched.phase x) j) e c
  | no ne ↦ elim (ℕ_discrete u 1) [
    | yes e ↦ subst (λ x. Claims (searched.phase x) j) e c
    | no ne' ↦ subst (λ p. Claims p j) (not_started u ne ne') c
  ]
]

turns_few : All (λ u. u < counts_size) turns
turns_few = (
  omega arith,
  (
    omega arith,
    (
      omega arith,
      (
        omega arith,
        (
          omega arith,
          (
            omega arith,
            (
              omega arith,
              (
                omega arith,
                (omega arith, (omega arith, (omega arith, (omega arith, (omega arith, tt))))),
              ),
            ),
          ),
        ),
      ),
    ),
  ),
)

run_fast-IsPrime_example : ((searched.marks 5 ≡ true) ↔ IsPrime 5) × (searched.overrun ≡ false)
run_fast-IsPrime_example =
    run_fast-IsPrime root 6 root-IsRoot turns turns_few 0 over idle 5 (omega arith) (omega arith)

-- Thread 0 has still to test 3.
halfway : Claims ((interleave root 6 (0 ∷ 1 ∷ 0 ∷ 1 ∷ 0 ∷ 0 ∷ []) begin).phase 0) 3
unfolding interleave advance advance_from test is_prime trial
halfway = (omega arith, omega arith)
