-- ===== src/Syscall/Bounds.antt =====
-- What `validate_user_addr_range` lets through.
use operating_system_col.Base.{
  ℕ, zero, suc, ◌+◌, ◌-◌, ◌%◌, ◌≤◌, ◌<◌, ◌≡◌, ◌≢◌, refl, sym, ap, ◌∙◌, ◌⊎◌, inl, inr, Bool, true,
  false, not, ◌||◌, Option, none, some, arith, ltb, ltb→lt, ltb→le, ◌==◌, Bool-cases,
}
use operating_system_col.PageReplacement.Laws.{Succeeds, Succeeds-mono}
use operating_system_col.Syscall.{Machine, word}
use operating_system_col.Syscall.Address.{
  page_of, phys_base, code_base, Probe, go_on, stop, probe, load_missing, probe_byte, validate_from,
  validate_user_addr_range,
}

-- The address `a` is one of a user program.
abbrev pub IsUser : ℕ → Type 0
IsUser a = (code_base ≤ a) × (a < phys_base)

-- The addresses `va + i` to `va + n - 1` are those of a user program.
abbrev pub Through : ℕ → ℕ → ℕ → Type 0
Through va i n = (j : ℕ) → i ≤ j → j < n → IsUser (va + j)

-- The byte at the address `a` is 0 in some state of the machine.
abbrev pub IsNull : Machine → ℕ → Type 0
IsNull M a = (w : M.World) × ((M.get_user a w).0 ≡ some 0)

-- What is known when the loop has started at `i` and returned the Boolean: all of the `bcnt` bytes
-- with `exact`, and without it those of a string with its end: the last byte was read as 0 while the
-- loop ran.
pub record Passed (M : Machine) (va bcnt i : ℕ) (exact : Bool) : Type 0 where
  pub last : ℕ
  pub through : Through va i last
  pub whole : exact ≡ true → bcnt ≤ last
  pub terminated : exact ≡ false → (n : ℕ) × (suc n ≡ last) × (i ≤ n) × IsNull M (va + n)

abbrev pub Validated : (M : Machine) → ℕ → ℕ → ℕ → Bool → Bool × M.World → Type 0
Validated M va bcnt i exact out = out.0 ≡ true → Passed M va bcnt i exact

-- The branches of the loop.
Succeeds-probe :
    {A : Type 0} (P : Bool × A → Type 0) (p : Probe) (w : A) (rest : Option (Bool × A))
    → ((b : Bool) → p ≡ stop b → P (b, w))
    → (p ≡ go_on → Succeeds P rest)
    → Succeeds P (elim p [ stop b ↦ some (b, w) | go_on ↦ rest ])
Succeeds-probe P go_on w rest f g = g refl
Succeeds-probe P (stop b) w rest f g = f b refl

Succeeds-more :
    {A : Type 0} (P : Bool × A → Type 0) (t : Bool) (w : A) (rest : Option (Bool × A))
    → (t ≡ false → P (true, w))
    → Succeeds P rest
    → Succeeds P (elim t [ false ↦ some (true, w) | true ↦ rest ])
Succeeds-more P true w rest f g = g
Succeeds-more P false w rest f g = f refl

Nat_cases : (j i : ℕ) → i ≤ j → (j ≡ i) ⊎ (i + 1 ≤ j)
Nat_cases j i h = ground arith

at_start : (j i : ℕ) → i ≤ j → j < i + 1 → j ≡ i
at_start j i h k = omega (arith, h, k)

module _ (M : Machine) where
  probe-IsUser :
      (a esp : ℕ) (exact : Bool) (w : M.World) → ((probe M a esp exact w).0 ≡ stop false) ⊎ IsUser a
  probe-IsUser a esp exact w = elim (Bool-cases (ltb a phys_base)) [
    | inr e ↦ inl (rw e)
    | inl e ↦ elim (Bool-cases (ltb a code_base)) [
      | inl k ↦ inl (rw (e, k))
      | inr k ↦ inr (ltb→le a code_base k, ltb→lt a phys_base e)
    ]
  ]

  probe_byte_exact :
      (a esp : ℕ) (byte : Option ℕ) (w : M.World) → (probe_byte M a esp true byte w).0 ≢ stop true
  probe_byte_exact a esp none w =
      elim (Bool-cases (load_missing M a esp (M.lookup_page (page_of a) w) w).0) [
        | inl e ↦ rw e (λ same. cc)
        | inr e ↦ rw e (λ same. cc)
      ]
  probe_byte_exact a esp (some byte) w = (λ same. cc)

  -- With `exact` no byte makes the loop return true.
  probe_exact : (a esp : ℕ) (w : M.World) → (probe M a esp true w).0 ≢ stop true
  probe_exact a esp w = elim (Bool-cases (not (ltb a phys_base) || ltb a code_base)) [
    | inl e ↦ rw e (λ same. cc)
    | inr e ↦ rw e (probe_byte_exact a esp (M.get_user a w).0 (M.get_user a w).1)
  ]

  probe_byte_null :
      (a esp : ℕ) (exact : Bool) (byte : Option ℕ) (w : M.World)
      → (probe_byte M a esp exact byte w).0 ≡ stop true
      → byte ≡ some 0
  probe_byte_null a esp exact none w h =
      elim (Bool-cases (load_missing M a esp (M.lookup_page (page_of a) w) w).0) [
        | inl e ↦ let same : go_on ≡ stop true = (rw e at h) in cc (same)
        | inr e ↦ let same : stop false ≡ stop true = (rw e at h) in cc (same)
      ]
  probe_byte_null a esp true (some byte) w h = cc (h)
  probe_byte_null a esp false (some byte) w h = elim (Bool-cases (byte == 0)) [
    | inl e ↦ let null : byte ≡ 0 = ground arith in ap some null
    | inr e ↦ let same : go_on ≡ stop true = (rw e at h) in cc (same)
  ]

  -- The loop returns true at a byte only when it has read 0 there.
  probe_null :
      (a esp : ℕ) (exact : Bool) (w : M.World)
      → (probe M a esp exact w).0 ≡ stop true
      → (M.get_user a w).0 ≡ some 0
  probe_null a esp exact w h = elim (Bool-cases (not (ltb a phys_base) || ltb a code_base)) [
    | inl e ↦ let same : stop false ≡ stop true = (rw e at h) in cc (same)
    | inr e ↦ probe_byte_null a esp exact (M.get_user a w).0 (M.get_user a w).1 (rw e at h)
  ]

  more :
      (i bcnt : ℕ) (exact : Bool) → (ltb i bcnt || not exact) ≡ false → (exact ≡ true) × (bcnt ≤ i)
  more i bcnt true h = (refl, ground arith)
  more i bcnt false h = ground arith

  Passed-grow :
      (va bcnt i : ℕ) (exact : Bool)
      → IsUser (va + i)
      → Passed M va bcnt (i + 1) exact
      → Passed M va bcnt i exact
  Passed-grow va bcnt i exact u p = record {
    last = p.last;
    through = λ j l h. elim (Nat_cases j i l) [ inl e ↦ rw e u | inr e ↦ p.through j e h ];
    whole = p.whole;
    terminated = λ e. let (n, l, h, z) = p.terminated e in (n, l, omega (arith, h), z);
  }

  Validated-stop :
      (va bcnt i : ℕ) (exact : Bool) (w : M.World) (esp : ℕ) (b : Bool)
      → va + i < word
      → (probe M ((va + i) % word) esp exact w).0 ≡ stop b
      → b ≡ true
      → Passed M va bcnt i exact
  Validated-stop va bcnt i exact w esp b h e t =
      let here : (va + i) % word ≡ va + i = omega (arith, h) in
      elim (probe-IsUser ((va + i) % word) esp exact w) [
        | inl f ↦ cc
        | inr u ↦ record {
          last = i + 1;
          through =
              λ j l m. rw (at_start j i l m) (omega (arith, here, u.0), omega (arith, here, u.1));
          whole = λ same. absurd (
              probe_exact ((va + i) % word) esp w
                (ap (λ x. (probe M ((va + i) % word) esp x w).0) (sym same) ∙ e ∙ ap stop t));
          terminated = λ _. (
            i,
            omega arith,
            omega arith,
            (
              w,
              ap (λ a. (M.get_user a w).0) (sym here)
                  ∙ probe_null ((va + i) % word) esp exact w (e ∙ ap stop t),
            ),
          );
        }
      ]

  -- The loop ends within its fuel, which is what is left of the addresses below `PHYS_BASE`.
  validate_from_lem :
      (fuel va i bcnt esp : ℕ) (exact : Bool) (w : M.World)
      → va + i < word
      → 0 < fuel
      → suc phys_base ≤ fuel + (va + i)
      → Succeeds (Validated M va bcnt i exact) (validate_from M fuel va i bcnt esp exact w)
  validate_from_lem zero va i bcnt esp exact w h f k = absurd (omega (arith, f))
  validate_from_lem (suc fuel) va i bcnt esp exact w h f k =
      let here : (va + i) % word ≡ va + i = omega (arith, h) in
      let (p, w') = probe M ((va + i) % word) esp exact w in
      Succeeds-more (Validated M va bcnt i exact) (ltb i bcnt || not exact) w _
        (λ e _. record {
          last = i;
          through = λ j l m. absurd (omega (arith, l, m));
          whole = λ _. (more i bcnt exact e).1;
          terminated = λ f. let t = (more i bcnt exact e).0 in cc;
        })
        (Succeeds-probe (Validated M va bcnt i exact) p w' _
          (λ b e. Validated-stop va bcnt i exact w esp b (omega (arith, h)) e)
          (λ e. elim (probe-IsUser ((va + i) % word) esp exact w) [
            | inl f ↦ cc
            | inr u ↦
                Succeeds-mono (Validated M va bcnt (i + 1) exact) _ _
                  (validate_from_lem fuel va (i + 1) bcnt esp exact w' (omega (arith, here, u.1))
                    (omega (arith, here, u.1, k)) (omega (arith, k)))
                  λ out v t.
                    Passed-grow va bcnt i exact (omega (arith, here, u.0), omega (arith, here, u.1))
                      (v t)
          ]))

  -- `validate_user_addr_range` of any word ends, whatever the page tables do. If it returns true, the
  -- pointer is not NULL, and every byte of the range (with `exact`) or of a string with its final 0
  -- (without: the loop has read the byte 0 at the last address) has an address of a user program: from
  -- 0x08048000 to `PHYS_BASE`, with no wrap-around.
  pub validate_user_addr_range-Passed :
      (va bcnt esp : ℕ) (exact : Bool) (w : M.World)
      → va < word
      → Succeeds
          (λ out. out.0 ≡ true → (va ≢ 0) × Passed M va bcnt 0 exact)
          (validate_user_addr_range M va bcnt esp exact w)
  unfolding validate_user_addr_range
  validate_user_addr_range-Passed va bcnt esp exact w h = elim (Bool-cases (va == 0)) [
    | inl e ↦ rw e (λ t. cc)
    | inr e ↦
        let not_null : va ≢ 0 = λ z. cc in
        rw e (
          Succeeds-mono (Validated M va bcnt 0 exact) _ _
            (validate_from_lem (phys_base - va + 1) va 0 bcnt esp exact w (omega (arith, h))
              (omega arith) (omega arith))
            λ out v t. (not_null, v t))
  ]
