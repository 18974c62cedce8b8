-- ===== src/PrimeSearch/Trial.antt =====
-- `isPrime` against the definition of a prime number.
use native.Mathlib.Nat.{div-add-mod, mul-mod_left, mul-le-mul, mul-le-mul_left}
use mathlib.Core.Path.{subst}
use Prim.Native.Nat.mul
use native.Mathlib.Decide.{ℕ_discrete}
use operating_system_col.Base.{
  ℕ, zero, suc, ◌+◌, ◌-◌, ◌*◌, ◌≤◌, ◌<◌, ◌≡◌, ◌≢◌, refl, ap, Bool, true, false, inl, inr, arith,
  ltb, ◌==◌, ◌%◌, ◌/◌, Bool-cases, ltb→lt, ltb→le, ◌↔◌,
}
use operating_system_col.PrimeSearch.{trial, is_prime}

-- What the library's square root, rounded down, is documented to be.
pub record IsRoot (isqrt : ℕ → ℕ) : Type 0 where
  pub below : (n : ℕ) → isqrt n * isqrt n ≤ n
  pub above : (n : ℕ) → n < suc (isqrt n) * suc (isqrt n)

-- No number above 1 and below `n` divides it.
pub record IsPrime (n : ℕ) : Type 0 where
  pub large : 1 < n
  pub undivided : (d : ℕ) → 1 < d → d < n → n % d ≢ 0

trial-true :
    (rounds n i : ℕ) → trial rounds n i ≡ true → (d : ℕ) → i ≤ d → d < i + rounds → n % d ≢ 0
unfolding trial
trial-true zero n i h d low high = λ e. omega (arith, low, high)
trial-true (suc rounds) n i h d low high = elim (Bool-cases (n % i == 0)) [
  | inl b ↦ absurd (false≢true (rw (b, trial) at h))
  | inr b ↦ elim (ℕ_discrete d i) [
    | yes same ↦ λ e. ground (arith, b, e, ap (λ x. n % x) same)
    | no ne ↦ trial-true rounds n (i + 1) (rw (b, trial) at h) d (omega arith) (omega arith)
  ]
]
  where
    false≢true : false ≢ true
    false≢true q = cc (q)

trial-false :
    (rounds n i : ℕ) → trial rounds n i ≡ false → (d : ℕ) × (i ≤ d) × (d < i + rounds) × (n % d ≡ 0)
unfolding trial
trial-false zero n i h = absurd (true≢false h)
  where
    true≢false : true ≢ false
    true≢false q = cc (q)
trial-false (suc rounds) n i h = elim (Bool-cases (n % i == 0)) [
  | inl b ↦ (i, omega arith, omega arith, ground arith)
  | inr b ↦
      let (d, low, high, e) = trial-false rounds n (i + 1) (rw (b, trial) at h) in
      (d, omega (arith, low), omega (arith, high), e)
]

-- Of two factors, one is at most the root.
small_factor : (r n d e : ℕ) → n < suc r * suc r → d * e ≡ n → r < d → e ≤ r
small_factor r n d e h p low = elim (Bool-cases (ltb r e)) [
  | inl b ↦
      let square : suc r * suc r ≤ d * e = mul-le-mul low (ltb→lt r e b) in
      absurd (omega (arith, square, h, p))
  | inr b ↦ ltb→le r e b
]

factors : (n d : ℕ) → n % d ≡ 0 → d * (n / d) ≡ n
factors n d e = omega (arith, div-add-mod n d, e)

cofactor_large : (n d e : ℕ) → d * e ≡ n → d < n → 1 < e
cofactor_large n d zero p h = absurd (omega (arith, p, h, mul.zero d))
cofactor_large n d (suc zero) p h = absurd (omega (arith, p, h))
cofactor_large n d (suc (suc e)) p h = omega arith

module _ (isqrt : ℕ → ℕ) (root : IsRoot isqrt) where
  root_positive : (n : ℕ) → 0 < n → 0 < isqrt n
  root_positive n h = elim (Bool-cases (ltb 0 (isqrt n))) [
    | inl b ↦ ltb→lt 0 (isqrt n) b
    | inr b ↦
        let z : isqrt n ≡ 0 = omega (arith, ltb→le 0 (isqrt n) b) in
        let one : n < 1 = subst (λ r. n < suc r * suc r) z (root.above n) in
        absurd (omega (arith, one, h))
  ]

  found_small : (n d : ℕ) → trial (isqrt n - 1) n 2 ≡ true → 1 < d → d ≤ isqrt n → n % d ≢ 0
  found_small n d t low high = trial-true (isqrt n - 1) n 2 t d low (omega (arith, low, high))

  sound : (n : ℕ) → n ≢ 1 → 0 < n → trial (isqrt n - 1) n 2 ≡ true → IsPrime n
  sound n ne pos t = record {
    large = omega (arith, ne, pos);
    undivided = λ d low high e. elim (Bool-cases (ltb (isqrt n) d)) [
      | inl b ↦
          let f = n / d in
          let p = factors n d e in
          found_small n f t (cofactor_large n d f p high)
            (small_factor (isqrt n) n d f (root.above n) p (ltb→lt (isqrt n) d b))
            (subst (λ m. m % f ≡ 0) p (mul-mod_left d f))
      | inr b ↦ found_small n d t low (ltb→le (isqrt n) d b) e
    ];
  }

  below_own_square : (r n d : ℕ) → 1 < d → d ≤ r → r * r ≤ n → d < n
  below_own_square r n d low high h =
      let twice : r * 2 ≤ r * r = mul-le-mul_left r (omega (arith, low, high)) in
      omega (arith, twice, h, low, high)

  complete : (n : ℕ) → IsPrime n → trial (isqrt n - 1) n 2 ≢ false
  complete n p t =
      let (d, low, high, e) = trial-false (isqrt n - 1) n 2 t in
      let small : d ≤ isqrt n =
        omega (arith, low, high, root_positive n (omega (arith, p.large))) in
      p.undivided d low (below_own_square (isqrt n) n d low small (root.below n)) e

  -- For every positive number, `isPrime` answers true exactly when the number is prime, if the
  -- library's square root, rounded down, is the integer square root.
  pub is_prime-IsPrime : (n : ℕ) → 0 < n → (is_prime isqrt n ≡ true) ↔ IsPrime n
  unfolding is_prime
  is_prime-IsPrime n pos = elim (Bool-cases (n == 1)) [
    | inl b ↦ rw b (λ h. absurd (false≢true h), λ p. absurd (omega (arith, p.large, one b)))
    | inr b ↦ rw b (sound n (other b) pos, λ p. not_false _ (complete n p))
  ]
    where
      false≢true : false ≢ true
      false≢true q = cc (q)

      one : (n == 1) ≡ true → n ≡ 1
      one b = ground arith

      other : (n == 1) ≡ false → n ≢ 1
      other b = ground arith

      not_false : (b : Bool) → b ≢ false → b ≡ true
      not_false true h = refl
      not_false false h = absurd (h refl)
