-- ===== src/Loader/Frame.antt =====
-- The frame that `setup_stack` leaves for `main`.
use operating_system_col.Base.{
  ℕ, zero, suc, ◌+◌, ◌-◌, ◌*◌, ◌%◌, ◌≤◌, ◌<◌, ◌≡◌, refl, sym, ap, ◌∙◌, append_assoc, inl, inr, List,
  [], ◌∷◌, ◌++◌, arith, length, length-append, ◌==◌, ==_iff, Bool-cases, subst,
}
use operating_system_col.Syscall.{word}
use operating_system_col.Syscall.Address.{phys_base}
use operating_system_col.Loader.Arguments.{
  Stack, push, word_bytes, copy_tokens, copy_after, padding, align, push_pointers,
}
use operating_system_col.Loader.Layout.{
  IsStack, word_at, StringAt, Points, push-esp, push-IsStack, word_at-top, StringAt-push,
  Points-push, memory_at-top,
}

-- The bytes of the arguments, each with its null byte.
abbrev pub size : List (List ℕ) → ℕ
size [] = 0
size (t ∷ ts) = length t + 1 + size ts

-- The strings are at these addresses.
abbrev pub Strings : List ℕ → List (List ℕ) → Stack → Type 0
Strings [] [] s = Unit
Strings (p ∷ argv) (t ∷ ts) s = (p < word) × StringAt p t s × Strings argv ts s
Strings [] (t ∷ ts) s = ⊥
Strings (p ∷ argv) [] s = ⊥

pub Strings-push :
    (argv : List ℕ) (ts : List (List ℕ)) (b : List ℕ) (s : Stack)
    → IsStack s
    → length b ≤ s.esp
    → Strings argv ts s
    → Strings argv ts (push b s)
Strings-push [] [] b s i h p = tt
Strings-push (a ∷ argv) (t ∷ ts) b s i h p =
    (p.0, StringAt-push a t b s i h p.1, Strings-push argv ts b s i h p.2)
Strings-push [] (t ∷ ts) b s i h p = p
Strings-push (a ∷ argv) [] b s i h p = p

pub record Copied (ts : List (List ℕ)) (s : Stack) (out : List ℕ × Stack) : Type 0 where
  pub stack : IsStack out.1
  pub depth : out.1.esp + size ts ≡ s.esp
  pub strings : Strings out.0 ts out.1
  pub counted : length out.0 ≡ length ts

pub copy_tokens-Copied :
    (ts : List (List ℕ)) (s : Stack) → IsStack s → size ts ≤ s.esp → Copied ts s (copy_tokens ts s)
copy_tokens-Copied [] s i h = record {
  stack = i;
  depth = omega arith;
  strings = tt;
  counted = refl;
}
copy_tokens-Copied (t ∷ ts) s i h =
    let c = copy_tokens-Copied ts s i (omega (arith, h)) in
    let s1 = (copy_tokens ts s).1 in
    let b = t ++ 0 ∷ [] in
    let long : length b ≡ length t + 1 = length-append t (0 ∷ []) ∙ omega arith in
    let fits : length b ≤ s1.esp = omega (arith, c.depth, h, long) in
    let top = push-esp b s1 c.stack fits in
    record {
      stack = push-IsStack b s1 c.stack fits;
      depth = omega (arith, top, c.depth, long, fits);
      strings = (
        omega (arith, top, c.stack),
        (omega arith, (s1.bytes, memory_at-top b s1 ∙ append_assoc t (0 ∷ []) s1.bytes)),
        Strings-push (copy_tokens ts s).0 ts b s1 c.stack fits c.strings,
      );
      counted = omega (arith, c.counted);
    }

length-copy_after : (n : ℕ) (after : ℕ → ℕ) → length (copy_after n after) ≡ n
length-copy_after zero after = refl
length-copy_after (suc n) after = ap suc (length-copy_after n after)

length-padding : (n : ℕ) (after : ℕ → ℕ) → length (padding n after) ≡ n
length-padding zero after = refl
length-padding (suc n) after = ap suc (length-copy_after n after)

pub record Aligned (argv : List ℕ) (ts : List (List ℕ)) (s s' : Stack) : Type 0 where
  pub stack : IsStack s'
  pub aligned : s'.esp % 4 ≡ 0
  pub near : s.esp ≤ s'.esp + 3
  pub strings : Strings argv ts s'

pub align-Aligned :
    (after : ℕ → ℕ) (argv : List ℕ) (ts : List (List ℕ)) (s : Stack)
    → IsStack s
    → 3 ≤ s.esp
    → Strings argv ts s
    → Aligned argv ts s (align after s)
align-Aligned after argv ts s i h p = elim (Bool-cases ((phys_base - s.esp) % 4 == 0)) [
  | inl e ↦
      let even = (==_iff ((phys_base - s.esp) % 4) 0).0 e in
      rw e (record { stack = i; aligned = omega (arith, even, i); near = omega arith; strings = p })
  | inr e ↦
      let odd : 0 < (phys_base - s.esp) % 4 = ground arith in
      let n = 4 - (phys_base - s.esp) % 4 in
      let b = padding n after in
      let long : length b ≡ n = length-padding n after in
      let fits : length b ≤ s.esp = omega (arith, long, odd, h) in
      let top = push-esp b s i fits in
      rw e (record {
        stack = push-IsStack b s i fits;
        aligned = omega (arith, top, long, i, fits);
        near = omega (arith, top, long, odd);
        strings = Strings-push argv ts b s i fits p;
      })
]

pub record Pushed (argv : List ℕ) (ts : List (List ℕ)) (s s' : Stack) : Type 0 where
  pub stack : IsStack s'
  pub depth : s'.esp + 4 * length argv ≡ s.esp
  pub strings : (p : ℕ) (t : List ℕ) → StringAt p t s → StringAt p t s'
  pub points : Points ts s'.esp s'

pub push_pointers-Pushed :
    (argv : List ℕ) (ts : List (List ℕ)) (s : Stack)
    → IsStack s
    → 4 * length argv ≤ s.esp
    → Strings argv ts s
    → word_at s.esp s ≡ 0
    → Pushed argv ts s (push_pointers argv s)
push_pointers-Pushed [] [] s i h p e = record {
  stack = i;
  depth = omega arith;
  strings = λ p t x. x;
  points = (omega arith, e);
}
push_pointers-Pushed [] (t ∷ ts) s i h p e = absurd p
push_pointers-Pushed (a ∷ argv) [] s i h p e = absurd p
push_pointers-Pushed (a ∷ argv) (t ∷ ts) s i h p e =
    let q = push_pointers-Pushed argv ts s i (omega (arith, h)) p.2 e in
    let s1 = push_pointers argv s in
    let b = word_bytes a in
    let fits : length b ≤ s1.esp = omega (arith, q.depth, h) in
    let top = push-esp b s1 q.stack fits in
    let s2 = push b s1 in
    let next : s1.esp ≡ s2.esp + 4 = omega (arith, top, fits) in
    let here : word_at s2.esp s2 ≡ a = word_at-top a s1 p.0 in
    record {
      stack = push-IsStack b s1 q.stack fits;
      depth = omega (arith, next, q.depth);
      strings = λ c u x. StringAt-push c u b s1 q.stack fits (q.strings c u x);
      points = (
        omega arith,
        subst (λ w. StringAt w t s2) (sym here)
            (StringAt-push a t b s1 q.stack fits (q.strings a t p.1)),
        subst (λ x. Points ts x s2) next (Points-push ts s1.esp b s1 q.stack fits q.points),
      );
    }
