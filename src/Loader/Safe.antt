-- ===== src/Loader/Safe.antt =====
-- Where the pages of a program lie, whatever its file holds.
use operating_system_col.Base.{
  ℕ, zero, suc, ◌+◌, ◌-◌, ◌*◌, ◌/◌, ◌%◌, ◌≤◌, ◌<◌, ◌≡◌, inl, inr, Bool, true, false, ◌||◌, List, [],
  ◌∷◌, ◌++◌, arith, length, ltb, ◌==◌, Bool-cases, All, All-append,
}
use operating_system_col.Threads.{Run, done}
use operating_system_col.Threads.WellFormed.{Returns, Returns-bind}
use operating_system_col.Syscall.{Machine, word, is_negative}
use operating_system_col.Syscall.Children.{page_size}
use operating_system_col.Syscall.Address.{phys_base}
use operating_system_col.Loader.{ProgramHeader, validate_segment, segment_of}
use operating_system_col.Loader.Fits.{segment_of-Fits}
use operating_system_col.Loader.Pages.{
  SupPage, new_file_sup_page, page_read, minus, lazy_pages, lazy_load_segment,
}
use operating_system_col.Loader.Program.{
  byte_at, word_of, program_header, Kind, ignored, refused, loadable, kind_of, load_one_segment,
  load_kind, load_headers,
}

-- A page of user space other than page 0.
abbrev pub IsUserPage : SupPage → Type 0
IsUserPage p = (page_size ≤ p.upage) × (p.upage % page_size ≡ 0) × (p.upage + page_size ≤ phys_base)

byte_at-lt : (b : List ℕ) (i : ℕ) → byte_at b i < 256
byte_at-lt [] i = omega arith
byte_at-lt (x ∷ b) zero = omega arith
byte_at-lt (x ∷ b) (suc i) = byte_at-lt b i

word_of-lt : (b : List ℕ) (i : ℕ) → word_of b i < word
word_of-lt b i =
    omega
      (arith, byte_at-lt b i, byte_at-lt b (i + 1), byte_at-lt b (i + 2), byte_at-lt b (i + 2 + 1))

-- The table of a run that has ended.
abbrev pub AllUser : {W : Type 0} → Bool × (W × List SupPage) → Type 0
AllUser out = All IsUserPage out.1.1

module _ (M : Machine) (allocates : (w : M.World) → (M.malloc w).0 ≡ true) where
  more_bytes : (r z n : ℕ) → r + z ≡ page_size * suc n → (ltb 0 r || ltb 0 z) ≡ true
  more_bytes r z n h = ground arith

  no_bytes : (r z : ℕ) → r + z ≡ 0 → (ltb 0 r || ltb 0 z) ≡ false
  no_bytes r z h = ground arith

  less_bytes :
      (r z n : ℕ)
      → r < word
      → z < word
      → r + z ≡ page_size * suc n
      → minus r (page_read r) + minus z (page_size - page_read r) ≡ page_size * n
  less_bytes r z n a b h = ground arith

  lazy_pages-AllUser :
      (n o u r z : ℕ) (writable : Bool) (w : M.World) (spt : List SupPage)
      → r + z ≡ page_size * n
      → page_size ≤ u
      → u % page_size ≡ 0
      → u + page_size * n ≤ phys_base
      → All IsUserPage spt
      → Returns AllUser (lazy_pages M (suc n) o u r z writable w spt)
  lazy_pages-AllUser zero o u r z writable w spt e a b c s =
      rw (lazy_pages, no_bytes r z (omega (arith, e))) s
  lazy_pages-AllUser (suc n) o u r z writable w spt e a b c s =
      let next : (u + page_size) % word ≡ u + page_size = omega (arith, c) in
      rw (lazy_pages, more_bytes r z n e, allocates w)
        (lazy_pages-AllUser n ((o + page_read r) % word) ((u + page_size) % word)
          (minus r (page_read r)) (minus z (page_size - page_read r)) writable (M.malloc w).1
          (spt ++ new_file_sup_page o (page_read r) u writable ∷ [])
          (less_bytes r z n (omega (arith, e, c)) (omega (arith, e, c)) e) (omega (arith, next, a))
          (omega (arith, next, b)) (omega (arith, next, c))
          (All-append IsUserPage spt _ s ((a, b, omega (arith, c)), tt)))

  lazy_load_segment-AllUser :
      (o u r z : ℕ) (writable : Bool) (w : M.World) (spt : List SupPage)
      → (r + z) % page_size ≡ 0
      → o % page_size ≡ 0
      → page_size ≤ u
      → u % page_size ≡ 0
      → u + (r + z) ≤ phys_base
      → All IsUserPage spt
      → Returns AllUser (lazy_load_segment M o u r z writable w spt)
  unfolding lazy_load_segment
  lazy_load_segment-AllUser o u r z writable w spt e f a b c s =
      let small : (r + z) % word ≡ r + z = omega (arith, c) in
      let fuel : (r + z) / page_size + 1 ≡ suc ((r + z) / page_size) = omega arith in
      rw (small, e, b, f, fuel)
        (lazy_pages-AllUser ((r + z) / page_size) o u r z writable w spt (omega (arith, e)) a b
          (omega (arith, e, c)) s)

  load_one_segment-AllUser :
      (file : M.File) (phdr : ProgramHeader) (w : M.World) (spt : List SupPage)
      → phdr.p_vaddr < word
      → phdr.p_memsz < word
      → All IsUserPage spt
      → Returns AllUser (load_one_segment M file phdr w spt)
  load_one_segment-AllUser file phdr w spt v m s =
      elim (Bool-cases (validate_segment phdr (M.file_length file w))) [
        | inr e ↦ rw (load_one_segment, e) s
        | inl e ↦
            let f = segment_of-Fits phdr (M.file_length file w) v m e in
            let g = segment_of phdr in
            rw (load_one_segment, e)
              (lazy_load_segment-AllUser g.file_page g.mem_page g.read_bytes g.zero_bytes g.writable
                w spt f.whole_pages f.file_aligned f.starts.0 f.mem_aligned f.in_user_space s)
      ]

  load_kind-AllUser :
      (kind : Kind) (file : M.File) (phdr : ProgramHeader) (w : M.World) (spt : List SupPage)
      → phdr.p_vaddr < word
      → phdr.p_memsz < word
      → All IsUserPage spt
      → Returns AllUser (load_kind M kind file phdr w spt)
  load_kind-AllUser ignored file phdr w spt v m s = s
  load_kind-AllUser refused file phdr w spt v m s = s
  load_kind-AllUser loadable file phdr w spt v m s = load_one_segment-AllUser file phdr w spt v m s

  go_on-AllUser :
      (out : Bool × (M.World × List SupPage))
      (rest : M.World → List SupPage → Run (Bool × (M.World × List SupPage)))
      → AllUser out
      → ((w : M.World) (spt : List SupPage) → All IsUserPage spt → Returns AllUser (rest w spt))
      → Returns AllUser (elim out.0 [ false ↦ done out | true ↦ rest out.1.0 out.1.1 ])
  go_on-AllUser (true, (w, spt)) rest s f = f w spt s
  go_on-AllUser (false, (w, spt)) rest s f = s

  -- Whatever the bytes of the file and its program headers are, when `malloc` never fails: the loop of
  -- `load` over the headers ends, no `ASSERT` in `lazy_load_segment` fails, and all pages that stand
  -- in the supplemental page table after it are aligned pages of user space other than page 0, if those
  -- before it are.
  pub load_headers-AllUser :
      (count file_ofs : ℕ) (file : M.File) (w : M.World) (spt : List SupPage)
      → All IsUserPage spt
      → Returns AllUser (load_headers M count file_ofs file w spt)
  load_headers-AllUser zero file_ofs file w spt s = s
  load_headers-AllUser (suc count) file_ofs file w spt s =
      let (bytes, w1) = M.file_read file 32 (M.file_seek file file_ofs w) in
      let phdr = program_header bytes in
      elim (Bool-cases (is_negative file_ofs || ltb (M.file_length file w) file_ofs)) [
        | inl e ↦ rw (load_headers, e) s
        | inr e ↦ elim (Bool-cases (length bytes == 32)) [
          | inr k ↦ rw (load_headers, e, k) s
          | inl k ↦
              rw (load_headers, e, k)
                (Returns-bind AllUser AllUser (load_kind M (kind_of phdr.p_type) file phdr w1 spt) _
                  (load_kind-AllUser (kind_of phdr.p_type) file phdr w1 spt (word_of-lt bytes 8)
                    (word_of-lt bytes 20) s)
                  λ out t.
                    go_on-AllUser out
                      (λ w spt. load_headers M count ((file_ofs + 32) % word) file w spt) t
                      λ w spt u. load_headers-AllUser count ((file_ofs + 32) % word) file w spt u)
        ]
      ]
