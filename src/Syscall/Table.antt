-- ===== src/Syscall/Table.antt =====
-- The table of open files as a list of ascending descriptors.
use operating_system_col.Base.{
  ℕ, suc, ◌≤◌, ◌<◌, ◌≡◌, ◌≢◌, refl, ap, inl, inr, true, false, none, some, List, [], ◌∷◌, ◌++◌,
  arith, if◌then◌else◌, ◌==◌, ==_iff, Bool-cases,
}
use operating_system_col.Syscall.{Machine, FileAux, State}
use operating_system_col.Syscall.Files.{find_file}

-- The descriptors ascend from `lo` on and stay below `hi`.
abbrev pub Ascending : {M : Machine} → ℕ → ℕ → List (FileAux M) → Type 0
Ascending lo hi [] = lo ≤ hi
Ascending lo hi (fa ∷ l) = (lo ≤ fa.fd) × Ascending (suc fa.fd) hi l

-- The first entry with this descriptor is taken out.
abbrev pub without : {M : Machine} → ℕ → List (FileAux M) → List (FileAux M)
without fd [] = []
without fd (fa ∷ l) = let rest = without fd l in if fa.fd == fd then l else fa ∷ rest

module _ {M : Machine} where
  abbrev pub IsTable : State M → Type 0
  IsTable s = Ascending 2 s.running.fd s.running.file_list

  pub Ascending-weaken :
      (lo lo' hi : ℕ) (l : List (FileAux M)) → lo' ≤ lo → Ascending lo hi l → Ascending lo' hi l
  Ascending-weaken lo lo' hi [] h a = omega (arith, h, a)
  Ascending-weaken lo lo' hi (fa ∷ l) h a = (omega (arith, h, a.0), a.1)

  pub Ascending-le : (lo hi : ℕ) (l : List (FileAux M)) → Ascending lo hi l → lo ≤ hi
  Ascending-le lo hi [] a = a
  Ascending-le lo hi (fa ∷ l) a = omega (arith, a.0, Ascending-le (suc fa.fd) hi l a.1)

  pub Ascending-append :
      (lo hi : ℕ) (f : M.File) (l : List (FileAux M))
      → Ascending lo hi l
      → Ascending lo (suc hi) (l ++ record { file = f; fd = hi } ∷ [])
  Ascending-append lo hi f [] a = (a, omega arith)
  Ascending-append lo hi f (fa ∷ l) a = (a.0, Ascending-append (suc fa.fd) hi f l a.1)

  pub Ascending-without :
      (lo hi fd : ℕ) (l : List (FileAux M)) → Ascending lo hi l → Ascending lo hi (without fd l)
  Ascending-without lo hi fd [] a = a
  Ascending-without lo hi fd (fa ∷ l) a = elim (Bool-cases (fa.fd == fd)) [
    | inl e ↦ rw e (Ascending-weaken (suc fa.fd) lo hi l (omega (arith, a.0)) a.1)
    | inr e ↦ rw e (a.0, Ascending-without (suc fa.fd) hi fd l a.1)
  ]

  pub find_file-below :
      (lo hi fd : ℕ) (l : List (FileAux M)) → Ascending lo hi l → fd < lo → find_file fd l ≡ none
  find_file-below lo hi fd [] a h = refl
  find_file-below lo hi fd (fa ∷ l) a h =
      let other : (fa.fd == fd) ≡ false = ground (arith, a.0) in
      rw other (find_file-below (suc fa.fd) hi fd l a.1 (omega (arith, a.0, h)))

  pub find_file-above :
      (lo hi fd : ℕ) (l : List (FileAux M)) → Ascending lo hi l → hi ≤ fd → find_file fd l ≡ none
  find_file-above lo hi fd [] a h = refl
  find_file-above lo hi fd (fa ∷ l) a h =
      let less = Ascending-le (suc fa.fd) hi l a.1 in
      let other : (fa.fd == fd) ≡ false = ground (arith, less) in
      rw other (find_file-above (suc fa.fd) hi fd l a.1 h)

  pub without-above :
      (lo hi fd : ℕ) (l : List (FileAux M)) → Ascending lo hi l → hi ≤ fd → without fd l ≡ l
  without-above lo hi fd [] a h = refl
  without-above lo hi fd (fa ∷ l) a h =
      let less = Ascending-le (suc fa.fd) hi l a.1 in
      let other : (fa.fd == fd) ≡ false = ground (arith, less) in
      rw other (ap (λ r. fa ∷ r) (without-above (suc fa.fd) hi fd l a.1 h))

  pub without-appended :
      (lo hi : ℕ) (f : M.File) (l : List (FileAux M))
      → Ascending lo hi l
      → without hi (l ++ record { file = f; fd = hi } ∷ []) ≡ l
  without-appended lo hi f [] a = let same : (hi == hi) ≡ true = ground arith in rw same
  without-appended lo hi f (fa ∷ l) a =
      let less = Ascending-le (suc fa.fd) hi l a.1 in
      let other : (fa.fd == hi) ≡ false = ground (arith, less) in
      rw other (ap (λ r. fa ∷ r) (without-appended (suc fa.fd) hi f l a.1))

  pub find_file-appended :
      (lo hi : ℕ) (f : M.File) (l : List (FileAux M))
      → Ascending lo hi l
      → find_file hi (l ++ record { file = f; fd = hi } ∷ []) ≡ some f
  find_file-appended lo hi f [] a = let same : (hi == hi) ≡ true = ground arith in rw same
  find_file-appended lo hi f (fa ∷ l) a =
      let less = Ascending-le (suc fa.fd) hi l a.1 in
      let other : (fa.fd == hi) ≡ false = ground (arith, less) in
      rw other (find_file-appended (suc fa.fd) hi f l a.1)

  pub find_file-append :
      (fd j : ℕ) (f : M.File) (l : List (FileAux M))
      → j ≢ fd
      → find_file j (l ++ record { file = f; fd = fd } ∷ []) ≡ find_file j l
  find_file-append fd j f [] h = let other : (fd == j) ≡ false = ground arith in rw other
  find_file-append fd j f (fa ∷ l) h = elim (Bool-cases (fa.fd == j)) [
    | inl e ↦ rw e
    | inr e ↦ rw e (find_file-append fd j f l h)
  ]

  pub find_file-without :
      (lo hi fd : ℕ) (l : List (FileAux M)) → Ascending lo hi l → find_file fd (without fd l) ≡ none
  find_file-without lo hi fd [] a = refl
  find_file-without lo hi fd (fa ∷ l) a = elim (Bool-cases (fa.fd == fd)) [
    | inl e ↦
        let here = (==_iff fa.fd fd).0 e in
        rw e (find_file-below (suc fa.fd) hi fd l a.1 (omega (arith, here)))
    | inr e ↦ rw (e, e) (find_file-without (suc fa.fd) hi fd l a.1)
  ]

  pub find_file-kept :
      (fd j : ℕ) (l : List (FileAux M)) → j ≢ fd → find_file j (without fd l) ≡ find_file j l
  find_file-kept fd j [] h = refl
  find_file-kept fd j (fa ∷ l) h = elim (Bool-cases (fa.fd == fd)) [
    | inl e ↦
        let here = (==_iff fa.fd fd).0 e in
        let other : (fa.fd == j) ≡ false = ground (arith, here) in rw (e, other)
    | inr e ↦
        rw e
          (elim (Bool-cases (fa.fd == j)) [ inl k ↦ rw k | inr k ↦ rw k (find_file-kept fd j l h) ])
  ]
