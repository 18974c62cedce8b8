-- ===== src/Loader/Lazy.antt =====
-- The pages that `lazy_load_segment` notes.
use operating_system_col.Base.{
  ℕ, zero, suc, ◌+◌, ◌-◌, ◌*◌, ◌/◌, ◌%◌, ◌≤◌, ◌<◌, ◌≡◌, refl, sym, subst, ◌∙◌, Bool, true, false,
  ◌||◌, List, [], ◌∷◌, ◌++◌, arith, ltb, if◌then◌else◌, append_assoc, append-nil,
}
use operating_system_col.Threads.{Run}
use operating_system_col.Threads.WellFormed.{Returns}
use operating_system_col.Syscall.{Machine, word}
use operating_system_col.Syscall.Children.{page_size}
use operating_system_col.Syscall.Address.{phys_base}
use operating_system_col.Loader.Pages.{
  SupPage, new_file_sup_page, page_read, minus, lazy_pages, lazy_load_segment,
}

-- The offset in the file of page `k` of a segment with `read` bytes in the file.
abbrev pub offset_at : ℕ → ℕ → ℕ → ℕ
offset_at ofs read k = ofs + (if ltb (page_size * k) read then page_size * k else read)

-- Page `k`, and the pages `k` to `k + n - 1`, of a segment at `upage`.
abbrev pub page_at : ℕ → ℕ → ℕ → Bool → ℕ → SupPage
page_at ofs upage read writable k =
    new_file_sup_page (offset_at ofs read k) (page_read (read - page_size * k))
      (upage + page_size * k) writable

abbrev pub pages_from : ℕ → ℕ → ℕ → Bool → ℕ → ℕ → List SupPage
pages_from ofs upage read writable zero k = []
pages_from ofs upage read writable (suc n) k =
    page_at ofs upage read writable k ∷ pages_from ofs upage read writable n (suc k)

-- The bytes of zeros that are left at page `k` of a segment of `total` bytes.
abbrev zero_at : ℕ → ℕ → ℕ → ℕ
zero_at total read k = total - page_size * k - (read - page_size * k)

next_offset :
    (ofs read k : ℕ)
    → ofs + read < word
    → (offset_at ofs read k + page_read (read - page_size * k)) % word ≡ offset_at ofs read (suc k)
next_offset ofs read k h = ground arith

next_upage :
    (upage k total : ℕ)
    → upage + total < word
    → page_size * (suc k) ≤ total
    → (upage + page_size * k + page_size) % word ≡ upage + page_size * (suc k)
next_upage upage k total h l = omega (arith, h, l)

next_read :
    (read k : ℕ)
    → read < word
    → minus (read - page_size * k) (page_read (read - page_size * k)) ≡ read - page_size * (suc k)
next_read read k h = ground arith

next_zero :
    (total read k : ℕ)
    → total < word
    → read ≤ total
    → page_size * (suc k) ≤ total
    → minus (zero_at total read k) (page_size - page_read (read - page_size * k))
      ≡ zero_at total read (suc k)
next_zero total read k h l m = ground arith

some_left :
    (total read k : ℕ)
    → page_size * (suc k) ≤ total
    → (ltb 0 (read - page_size * k) || ltb 0 (zero_at total read k)) ≡ true
some_left total read k h = ground arith

none_left :
    (total read k : ℕ)
    → total ≡ page_size * k
    → read ≤ total
    → (ltb 0 (read - page_size * k) || ltb 0 (zero_at total read k)) ≡ false
none_left total read k h l = ground arith

first_offset : (ofs read : ℕ) → offset_at ofs read 0 ≡ ofs
first_offset ofs read = ground arith

first_upage : (upage : ℕ) → upage + page_size * 0 ≡ upage
first_upage upage = omega arith

first_read : (read : ℕ) → read - page_size * 0 ≡ read
first_read read = omega arith

first_zero : (read z : ℕ) → zero_at (read + z) read 0 ≡ z
first_zero read z = omega arith

congr4 :
    {A : Type 0} (f : ℕ → ℕ → ℕ → ℕ → A) {a a' b b' c c' d d' : ℕ}
    → a ≡ a'
    → b ≡ b'
    → c ≡ c'
    → d ≡ d'
    → f a b c d ≡ f a' b' c' d'
congr4 f p q r s = λ i. f (p i) (q i) (r i) (s i)

-- A segment that the loop can note: it lies below `PHYS_BASE`, and its offsets in the file are words.
pub record Loadable (ofs upage read total : ℕ) : Type 0 where
  pub in_user_space : upage + total ≤ phys_base
  pub offsets : ofs + read < word
  pub enough : read ≤ total

module _ (M : Machine) (allocates : (w : M.World) → (M.malloc w).0 ≡ true) where
  -- The loop has returned true and added these pages.
  abbrev Noted : List SupPage → Bool × (M.World × List SupPage) → Type 0
  Noted spt out = (out.0 ≡ true) × (out.1.1 ≡ spt)

  lazy_step :
      (fuel o u r z : ℕ) (writable : Bool) (w : M.World) (spt : List SupPage)
      → (ltb 0 r || ltb 0 z) ≡ true
      → lazy_pages M (suc fuel) o u r z writable w spt
        ≡ lazy_pages M fuel
            ((o + page_read r) % word)
            ((u + page_size) % word)
            (minus r (page_read r))
            (minus z (page_size - page_read r))
            writable
            (M.malloc w).1
            (spt ++ new_file_sup_page o (page_read r) u writable ∷ [])
  lazy_step fuel o u r z writable w spt e = rw (lazy_pages, e, allocates w)

  -- The loop at page `k`, and what is left at the next one.
  lazy_next :
      (ofs upage read total : ℕ) (writable : Bool)
      → Loadable ofs upage read total
      → (n k : ℕ) (w : M.World) (spt : List SupPage) → page_size * suc k ≤ total
      → lazy_pages M
          (suc (suc n))
          (offset_at ofs read k)
          (upage + page_size * k)
          (read - page_size * k)
          (zero_at total read k)
          writable
          w
          spt
        ≡ lazy_pages M
            (suc n)
            (offset_at ofs read (suc k))
            (upage + page_size * suc k)
            (read - page_size * suc k)
            (zero_at total read (suc k))
            writable
            (M.malloc w).1
            (spt ++ page_at ofs upage read writable k ∷ [])
  lazy_next ofs upage read total writable l n k w spt room =
      let below : total < word = omega (arith, l.in_user_space) in
      let f : ℕ → ℕ → ℕ → ℕ → Run (Bool × (M.World × List SupPage)) = λ o u r z.
        lazy_pages M (suc n) o u r z writable (M.malloc w).1
          (spt ++ page_at ofs upage read writable k ∷ []) in
      lazy_step (suc n) (offset_at ofs read k) (upage + page_size * k) (read - page_size * k)
        (zero_at total read k) writable w spt (some_left total read k room)
      ∙ congr4 f (next_offset ofs read k l.offsets)
          (next_upage upage k total (omega (arith, l.in_user_space)) room)
          (next_read read k (omega (arith, l.offsets))) (next_zero total read k below l.enough room)

  lazy_pages-Noted :
      (ofs upage read total : ℕ) (writable : Bool)
      → Loadable ofs upage read total
      → (n k : ℕ) (w : M.World) (spt : List SupPage) → total ≡ page_size * (k + n)
      → Returns (Noted (spt ++ pages_from ofs upage read writable n k)) (
          lazy_pages M
            (suc n)
            (offset_at ofs read k)
            (upage + page_size * k)
            (read - page_size * k)
            (zero_at total read k)
            writable
            w
            spt)
  lazy_pages-Noted ofs upage read total writable l zero k w spt e =
      rw (lazy_pages, none_left total read k (omega (arith, e)) l.enough)
        (refl, sym (append-nil spt))
  lazy_pages-Noted ofs upage read total writable l (suc n) k w spt e =
      let room : page_size * suc k ≤ total = omega (arith, e) in
      let spg = page_at ofs upage read writable k in
      let rest = pages_from ofs upage read writable n (suc k) in
      subst (Returns (Noted (spt ++ spg ∷ rest)))
        (sym (lazy_next ofs upage read total writable l n k w spt room))
        (subst
          (λ x. Returns (Noted x) (
            lazy_pages M (suc n) (offset_at ofs read (suc k)) (upage + page_size * suc k)
              (read - page_size * suc k) (zero_at total read (suc k)) writable (M.malloc w).1
              (spt ++ spg ∷ [])))
          (append_assoc spt (spg ∷ []) rest)
          (lazy_pages-Noted ofs upage read total writable l n (suc k) (M.malloc w).1
            (spt ++ spg ∷ []) (omega (arith, e))))

  -- `lazy_load_segment` of whole pages, at an aligned address of user space and an aligned offset, when
  -- `malloc` never fails, runs to its end and returns true: no `ASSERT` fails and the loop stops. The
  -- supplemental page table then has one more entry for each page of the segment, in order: page `k` at
  -- `upage + 4096 k`, with what of the file's bytes lies in it, and with the offset of its first byte
  -- in the file, or of the end of the file's bytes when it has none.
  pub lazy_load_segment-Noted :
      (ofs upage read_bytes zero_bytes : ℕ) (writable : Bool) (w : M.World) (spt : List SupPage)
      → Loadable ofs upage read_bytes (read_bytes + zero_bytes)
      → (read_bytes + zero_bytes) % page_size ≡ 0
      → upage % page_size ≡ 0
      → ofs % page_size ≡ 0
      → Returns
          (λ out.
            (out.0 ≡ true)
            × (out.1.1
                ≡ spt
                  ++ pages_from ofs upage read_bytes writable
                      ((read_bytes + zero_bytes) / page_size)
                      0))
          (lazy_load_segment M ofs upage read_bytes zero_bytes writable w spt)
  unfolding lazy_load_segment
  lazy_load_segment-Noted ofs upage read_bytes zero_bytes writable w spt l a b c =
      let small : (read_bytes + zero_bytes) % word ≡ read_bytes + zero_bytes =
        omega (arith, l.in_user_space) in
      let fuel : (read_bytes + zero_bytes) / page_size + 1
          ≡ suc ((read_bytes + zero_bytes) / page_size) =
        omega arith in
      let total = read_bytes + zero_bytes in
      let pages : total ≡ page_size * (0 + total / page_size) = omega (arith, a) in
      let f : ℕ → ℕ → ℕ → ℕ → Run (Bool × (M.World × List SupPage)) =
        λ o u r z. lazy_pages M (suc (total / page_size)) o u r z writable w spt in
      let start =
        congr4 f (first_offset ofs read_bytes) (first_upage upage) (first_read read_bytes)
          (first_zero read_bytes zero_bytes) in
      rw (small, a, b, c, fuel)
        (subst
          (Returns (Noted (spt ++ pages_from ofs upage read_bytes writable (total / page_size) 0)))
          start
          (lazy_pages-Noted ofs upage read_bytes total writable l (total / page_size) 0 w spt
            pages))
