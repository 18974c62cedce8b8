-- ===== src/Loader/Fits.antt =====
-- What `validate_segment` guarantees of the pages of a segment.
use operating_system_col.Base.{
  ℕ, ◌+◌, ◌-◌, ◌*◌, ◌/◌, ◌%◌, ◌≤◌, ◌<◌, ◌≡◌, inl, inr, Bool, true, false, not, arith, ltb, ltb→le,
  ◌==◌, if◌then◌else◌, Bool-cases, All, [], ◌∷◌,
}
use operating_system_col.Syscall.{word}
use operating_system_col.Syscall.Children.{page_size}
use operating_system_col.Syscall.Address.{phys_base, page_of}
use operating_system_col.Loader.{
  ProgramHeader, Segment, validate_segment, round_up, page_offset, segment_read, segment_zero,
  segment_of,
}

-- Eight guards, all of which let the code go on.
guards :
    (a b c d e f g i : Bool)
    → (if a
        then false
        else if b
        then false
        else if c
        then false
        else if d
        then false
        else if e
        then false
        else if f
        then false
        else if g
        then false
        else if i
        then false
        else true)
      ≡ true
    → All (λ t. t ≡ false) (a ∷ b ∷ c ∷ d ∷ e ∷ f ∷ g ∷ i ∷ [])
guards a b c d e f g i h = ground arith

not_differs : (x y : ℕ) → not (x == y) ≡ false → x ≡ y
not_differs x y h = ground arith

not_zero : (x : ℕ) → (x == 0) ≡ false → 0 < x
not_zero x h = ground arith

below : (x y : ℕ) → not (ltb x y) ≡ false → x < y
below x y h = ground arith

pub record Valid (phdr : ProgramHeader) (file_length : ℕ) : Type 0 where
  pub congruent : phdr.p_offset % page_size ≡ phdr.p_vaddr % page_size
  pub in_file : phdr.p_offset ≤ file_length
  pub large_enough : phdr.p_filesz ≤ phdr.p_memsz
  pub not_empty : 0 < phdr.p_memsz
  pub in_user_space : phdr.p_vaddr + phdr.p_memsz < phys_base
  pub not_first_page : page_size ≤ phdr.p_vaddr

no_wrap :
    (v m : ℕ)
    → v < word
    → m < word
    → v < phys_base
    → (v + m) % word < phys_base
    → v ≤ (v + m) % word
    → v + m < phys_base
no_wrap v m a b h k l = omega (arith, a, b, h, k, l)

validate_segment-Valid :
    (phdr : ProgramHeader) (file_length : ℕ)
    → phdr.p_vaddr < word
    → phdr.p_memsz < word
    → validate_segment phdr file_length ≡ true
    → Valid phdr file_length
unfolding validate_segment
validate_segment-Valid phdr n v m h =
    let end = (phdr.p_vaddr + phdr.p_memsz) % word in
    let p =
      guards (not (phdr.p_offset % page_size == phdr.p_vaddr % page_size)) (ltb n phdr.p_offset)
        (ltb phdr.p_memsz phdr.p_filesz) (phdr.p_memsz == 0) (not (ltb phdr.p_vaddr phys_base))
        (not (ltb end phys_base)) (ltb end phdr.p_vaddr) (ltb phdr.p_vaddr page_size) h in
    record {
      congruent = not_differs (phdr.p_offset % page_size) (phdr.p_vaddr % page_size) p.0;
      in_file = ltb→le n phdr.p_offset p.1.0;
      large_enough = ltb→le phdr.p_memsz phdr.p_filesz p.1.1.0;
      not_empty = not_zero phdr.p_memsz p.1.1.1.0;
      in_user_space =
          no_wrap phdr.p_vaddr phdr.p_memsz v m (below phdr.p_vaddr phys_base p.1.1.1.1.0)
            (below end phys_base p.1.1.1.1.1.0) (ltb→le end phdr.p_vaddr p.1.1.1.1.1.1.0);
      not_first_page = ltb→le phdr.p_vaddr page_size p.1.1.1.1.1.1.1.0;
    }

-- The pages of a segment that is loaded.
pub record Fits (phdr : ProgramHeader) (s : Segment) : Type 0 where
  pub whole_pages : (s.read_bytes + s.zero_bytes) % page_size ≡ 0
  pub mem_aligned : s.mem_page % page_size ≡ 0
  pub file_aligned : s.file_page % page_size ≡ 0
  pub some_bytes : 0 < s.read_bytes + s.zero_bytes
  pub starts : (page_size ≤ s.mem_page) × (s.mem_page ≤ phdr.p_vaddr)
  pub covers : phdr.p_vaddr + phdr.p_memsz ≤ s.mem_page + (s.read_bytes + s.zero_bytes)
  pub in_user_space : s.mem_page + (s.read_bytes + s.zero_bytes) ≤ phys_base

-- The bytes of the pages of `m` bytes that start at the offset `o` of a page.
abbrev whole : ℕ → ℕ → ℕ
whole o m = (o + m + 4095) / 4096 * 4096

round_up-whole :
    (o m : ℕ) → o < page_size → o + m < phys_base → round_up ((o + m) % word) ≡ whole o m
round_up-whole o m a c = omega (arith, a, c)

sum_whole :
    (o f m r : ℕ)
    → o < page_size
    → f ≤ m
    → o + m < phys_base
    → r ≡ whole o m
    → (o + f) % word + (r + word - (o + f) % word) % word ≡ whole o m
sum_whole o f m r a b c e = omega (arith, a, b, c, e)

segment_total :
    (phdr : ProgramHeader)
    → phdr.p_filesz ≤ phdr.p_memsz
    → page_offset phdr + phdr.p_memsz < phys_base
    → segment_read phdr + segment_zero phdr ≡ whole (page_offset phdr) phdr.p_memsz
segment_total phdr a b =
    let o = page_offset phdr in
    let small : o < page_size = omega arith in
    let r = round_up-whole o phdr.p_memsz small b in
    elim (Bool-cases (ltb 0 phdr.p_filesz)) [
      | inl e ↦ rw e (sum_whole o phdr.p_filesz phdr.p_memsz _ small a b r)
      | inr e ↦ rw e (omega (arith, r))
    ]

whole_fits : (v m : ℕ) → v + m < phys_base → page_of v + whole (v % page_size) m ≤ phys_base
whole_fits v m h = omega (arith, h)

whole_covers : (v m : ℕ) → v + m ≤ page_of v + whole (v % page_size) m
whole_covers v m = omega arith

page_of-aligned : (v : ℕ) → page_of v % page_size ≡ 0
page_of-aligned v = omega arith

whole-aligned : (o m : ℕ) → whole o m % page_size ≡ 0
whole-aligned o m = omega arith

-- A program header that `validate_segment` accepts, whose address and size are words, gives pages that
-- meet the three `ASSERT`s of `load_segment`, that cover the whole segment and at least one byte, that
-- start above page 0 and that end at or below `PHYS_BASE`: nothing wraps around.
pub segment_of-Fits :
    (phdr : ProgramHeader) (file_length : ℕ)
    → phdr.p_vaddr < word
    → phdr.p_memsz < word
    → validate_segment phdr file_length ≡ true
    → Fits phdr (segment_of phdr)
unfolding segment_of
segment_of-Fits phdr n v m h =
    let q = validate_segment-Valid phdr n v m h in
    let small : page_offset phdr + phdr.p_memsz < phys_base = omega (arith, q.in_user_space) in
    let total = segment_total phdr q.large_enough small in
    record {
      whole_pages = omega (arith, total, whole-aligned (page_offset phdr) phdr.p_memsz);
      mem_aligned = page_of-aligned phdr.p_vaddr;
      file_aligned = page_of-aligned phdr.p_offset;
      some_bytes = omega (arith, total, q.not_empty);
      starts = (omega (arith, q.not_first_page), omega arith);
      covers = omega (arith, total, whole_covers phdr.p_vaddr phdr.p_memsz);
      in_user_space = omega (arith, total, whole_fits phdr.p_vaddr phdr.p_memsz q.in_user_space);
    }
