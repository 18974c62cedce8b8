-- ===== src/Loader/Layout.antt =====
-- What the first stack page holds after `setup_stack`.
use operating_system_col.Base.{
  ℕ, zero, suc, ◌+◌, ◌-◌, ◌*◌, ◌≤◌, ◌<◌, ◌≡◌, sym, ap, ◌∙◌, List, [], ◌∷◌, ◌++◌, arith, length,
  length-append, subst,
}
use operating_system_col.Syscall.{word}
use operating_system_col.Syscall.Address.{phys_base}
use operating_system_col.Loader.Arguments.{Stack, push, word_bytes}

abbrev drop : ℕ → List ℕ → List ℕ
drop zero l = l
drop (suc n) [] = []
drop (suc n) (x ∷ l) = drop n l

-- The memory from the address `a` on.
abbrev pub memory_at : ℕ → Stack → List ℕ
memory_at a s = drop (a - s.esp) s.bytes

abbrev pub decode : List ℕ → ℕ
decode (a ∷ b ∷ c ∷ d ∷ l) = a + 256 * b + 65536 * c + 16777216 * d
decode _ = 0

-- The word at an address, and the string.
abbrev pub word_at : ℕ → Stack → ℕ
word_at a s = decode (memory_at a s)

abbrev pub StringAt : ℕ → List ℕ → Stack → Type 0
StringAt a t s = (s.esp ≤ a) × ((rest : List ℕ) × (memory_at a s ≡ t ++ 0 ∷ rest))

-- From the address `a` on there are pointers to these strings, and then NULL.
abbrev pub Points : List (List ℕ) → ℕ → Stack → Type 0
Points [] a s = (s.esp ≤ a) × (word_at a s ≡ 0)
Points (t ∷ ts) a s = (s.esp ≤ a) × StringAt (word_at a s) t s × Points ts (a + 4) s

-- The bytes reach up to `PHYS_BASE`.
abbrev pub IsStack : Stack → Type 0
IsStack s = s.esp + length s.bytes ≡ phys_base

drop-append : (b l : List ℕ) (k : ℕ) → drop (length b + k) (b ++ l) ≡ drop k l
drop-append [] l k = let e : 0 + k ≡ k = omega arith in rw e
drop-append (x ∷ b) l k =
    let e : suc (length b) + k ≡ suc (length b + k) = omega arith in rw e (drop-append b l k)

pub push-esp :
    (b : List ℕ) (s : Stack) → IsStack s → length b ≤ s.esp → (push b s).esp ≡ s.esp - length b
push-esp b s i h = omega (arith, i, h)

pub push-IsStack : (b : List ℕ) (s : Stack) → IsStack s → length b ≤ s.esp → IsStack (push b s)
push-IsStack b s i h = omega (arith, i, h, push-esp b s i h, length-append b s.bytes)

pub memory_at-push :
    (a : ℕ) (b : List ℕ) (s : Stack)
    → IsStack s
    → length b ≤ s.esp
    → s.esp ≤ a
    → memory_at a (push b s) ≡ memory_at a s
memory_at-push a b s i h l =
    let e : a - (push b s).esp ≡ length b + (a - s.esp) = omega (arith, push-esp b s i h, h, l) in
    ap (λ n. drop n (b ++ s.bytes)) e ∙ drop-append b s.bytes (a - s.esp)

pub memory_at-top : (b : List ℕ) (s : Stack) → memory_at (push b s).esp (push b s) ≡ b ++ s.bytes
memory_at-top b s =
    let e : (push b s).esp - (push b s).esp ≡ 0 = omega arith in ap (λ n. drop n (b ++ s.bytes)) e

decode-word_bytes : (n : ℕ) (l : List ℕ) → n < word → decode (word_bytes n ++ l) ≡ n
decode-word_bytes n l h = omega (arith, h)

pub word_at-top :
    (n : ℕ) (s : Stack) → n < word → word_at (push (word_bytes n) s).esp (push (word_bytes n) s) ≡ n
word_at-top n s h = ap decode (memory_at-top (word_bytes n) s) ∙ decode-word_bytes n s.bytes h

pub StringAt-push :
    (a : ℕ) (t b : List ℕ) (s : Stack)
    → IsStack s
    → length b ≤ s.esp
    → StringAt a t s
    → StringAt a t (push b s)
StringAt-push a t b s i h (l, (rest, e)) =
    (omega (arith, push-esp b s i h, l), (rest, memory_at-push a b s i h l ∙ e))

pub Points-push :
    (ts : List (List ℕ)) (a : ℕ) (b : List ℕ) (s : Stack)
    → IsStack s
    → length b ≤ s.esp
    → Points ts a s
    → Points ts a (push b s)
Points-push [] a b s i h (l, e) =
    (omega (arith, push-esp b s i h, l), ap decode (memory_at-push a b s i h l) ∙ e)
Points-push (t ∷ ts) a b s i h p =
    let same : word_at a (push b s) ≡ word_at a s = ap decode (memory_at-push a b s i h p.0) in
    (
      omega (arith, push-esp b s i h, p.0),
      subst (λ w. StringAt w t (push b s)) (sym same) (StringAt-push (word_at a s) t b s i h p.1),
      Points-push ts (a + 4) b s i h p.2,
    )
