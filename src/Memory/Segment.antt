-- ===== src/Memory/Segment.antt =====
-- The pages that `lazy_load_segment` notes, when the process touches them.
use operating_system_col.Base.{
  ℕ, zero, suc, ◌+◌, ◌-◌, ◌*◌, ◌/◌, ◌%◌, ◌≤◌, ◌<◌, ◌≡◌, refl, sym, ap, ◌∙◌, inl, inr, Bool, true,
  false, none, some, List, [], ◌∷◌, ◌++◌, ltb, ◌==◌, if◌then◌else◌, ==_iff, arith, Bool-cases,
}
use operating_system_col.Syscall.Children.{page_size}
use operating_system_col.Syscall.Address.{page_of}
use operating_system_col.Memory.Paging.{Platform, Paging}
use operating_system_col.Threads.{Run, done, panic, out_of_fuel}
use operating_system_col.Threads.WellFormed.{Returns, Returns-mono}
use operating_system_col.Syscall.{Machine}
use operating_system_col.Loader.Pages.{SupPage, page_read, lazy_load_segment}
use operating_system_col.Loader.Lazy.{
  offset_at, page_at, pages_from, Loadable, lazy_load_segment-Noted,
}
use operating_system_col.Memory.Paging.{
  lookup_page, addr_to_pfno, Trap, Answer, resumed, page_fault,
}
use operating_system_col.Memory.View.{
  IsAligned, page_of-IsAligned, Maps, mapping, user_byte, IsPaged,
}
use operating_system_col.Memory.Frames.{HasRoom}
use operating_system_col.Memory.Load.{Executable, NeverFull}
use operating_system_col.Memory.Fault.{IsUserFault, ResumedLoaded, page_fault-ResumedLoaded}

lookup_page-append :
    (va : ℕ) (a b : List SupPage)
    → lookup_page va a ≡ none
    → lookup_page va (a ++ b) ≡ lookup_page va b
lookup_page-append va [] b h = refl
lookup_page-append va (x ∷ a) b h = elim (Bool-cases (addr_to_pfno x.upage == addr_to_pfno va)) [
  | inl e ↦ let first : some x ≡ none = (rw e at h) in cc (first)
  | inr e ↦ rw e (lookup_page-append va a b (rw e at h))
]

lookup_page-pages_from :
    (ofs upage read : ℕ) (writable : Bool) (n k j : ℕ)
    → IsAligned upage
    → k ≤ j
    → j < k + n
    → lookup_page (upage + page_size * j) (pages_from ofs upage read writable n k)
      ≡ some (page_at ofs upage read writable j)
lookup_page-pages_from ofs upage read writable zero k j al l u = absurd (omega arith)
lookup_page-pages_from ofs upage read writable (suc n) k j al l u = elim (Bool-cases (k == j)) [
  | inl e ↦
      let same : k ≡ j = (==_iff k j).0 e in
      let found : (addr_to_pfno (upage + page_size * k) == addr_to_pfno (upage + page_size * j))
          ≡ true =
        ground (arith, same) in
      rw found (ap (λ x. some (page_at ofs upage read writable x)) same)
  | inr e ↦
      let other : (addr_to_pfno (upage + page_size * k) == addr_to_pfno (upage + page_size * j))
          ≡ false =
        ground arith in
      rw other
        (lookup_page-pages_from ofs upage read writable n (suc k) j al (ground arith) (omega arith))
]

-- The bytes of a segment: `read` of the file, and zeros.
abbrev pub segment_byte : (ℕ → ℕ) → ℕ → ℕ → ℕ → ℕ
segment_byte content ofs read i = if ltb i read then content (ofs + i) else 0

page_byte :
    (content : ℕ → ℕ) (ofs read k o : ℕ)
    → o < page_size
    → (if ltb o (page_read (read - page_size * k)) then content (offset_at ofs read k + o) else 0)
      ≡ segment_byte content ofs read (page_size * k + o)
page_byte content ofs read k o h = elim (Bool-cases (ltb (page_size * k + o) read)) [
  | inl e ↦
      let inside : ltb o (page_read (read - page_size * k)) ≡ true = ground arith in
      let at : offset_at ofs read k + o ≡ ofs + (page_size * k + o) = ground arith in
      rw (e, inside) (ap content at)
  | inr e ↦
      let outside : ltb o (page_read (read - page_size * k)) ≡ false = ground arith in
      rw (e, outside) refl
]

-- Two accounts of what a run leaves agree.
Returns-agree :
    {A B : Type 0} (r : Run A) (get : A → B) (x y : B)
    → Returns (λ a. get a ≡ x) r
    → Returns (λ a. get a ≡ y) r
    → x ≡ y
Returns-agree (done a) get x y p q = sym p ∙ q
Returns-agree panic get x y p q = absurd p
Returns-agree out_of_fuel get x y p q = absurd p

page_at-fits :
    (ofs upage read : ℕ) (writable : Bool) (k : ℕ)
    → (page_at ofs upage read writable k).read_bytes ≤ page_size
page_at-fits ofs upage read writable k = ground arith

page_at-in_file :
    (ofs upage read size : ℕ) (writable : Bool) (k : ℕ)
    → ofs + read ≤ size
    → (page_at ofs upage read writable k).offset + (page_at ofs upage read writable k).read_bytes
      ≤ size
page_at-in_file ofs upage read size writable k h = ground arith

module _ (P : Platform) (maps : Maps P) (exe : Executable P) (room : NeverFull P) where
  -- The handler has resumed the program, and the page at `va` holds its part of the segment.
  pub record Touched (ofs upage read va : ℕ) (s : Paging P) (out : Answer × Paging P) : Type 0 where
    pub answer : out.0 ≡ resumed
    pub paged : IsPaged P out.1
    pub byte :
        (a : ℕ)
        → user_byte P a out.1 ≡ (
            if page_of a == va
            then some (segment_byte exe.content ofs read (a - upage))
            else user_byte P a s)

  Loaded-Touched :
      (ofs upage read va : ℕ) (writable : Bool) (k : ℕ) (s : Paging P) (out : Answer × Paging P)
      → va ≡ upage + page_size * k
      → ResumedLoaded P maps exe room (page_at ofs upage read writable k) va s out
      → Touched ofs upage read va s out
  Loaded-Touched ofs upage read va writable k s out e l = record {
    answer = l.0;
    paged = l.1.paged;
    byte = λ a. l.1.byte a ∙ byte a;
  }
    where
      byte :
          (a : ℕ)
          → (if page_of a == va
              then some (
                  if ltb (a % page_size) (page_read (read - page_size * k))
                  then exe.content (offset_at ofs read k + a % page_size)
                  else 0)
              else user_byte P a s)
            ≡ (if page_of a == va
                then some (segment_byte exe.content ofs read (a - upage))
                else user_byte P a s)
      byte a = elim (Bool-cases (page_of a == va)) [
        | inl f ↦
            let at : page_size * k + a % page_size ≡ a - upage =
              omega (arith, (==_iff (page_of a) va).0 f, e) in
            rw f (
              ap some (
                page_byte exe.content ofs read k (a % page_size) (omega arith)
                ∙ ap (segment_byte exe.content ofs read) at))
        | inr f ↦ rw f refl
      ]

  -- Lazy loading gives what the program header asks for. Say `lazy_load_segment` of whole pages at an
  -- aligned address of user space, the allocator never failing, has left the supplemental page table of
  -- a process, and the user then touches an address of the segment whose page is neither mapped nor
  -- noted for something else, with a frame free, memory for page tables, and the segment's bytes inside
  -- the executable. Then the page fault is handled and the program resumed; on the page, the byte at
  -- `upage + i` is that of the file at `ofs + i` if `i` is below `read_bytes`, and else 0; every other
  -- page of the process reads as before, and no page frame is mapped twice.
  pub lazy_load_segment-Touched :
      (M : Machine) (ofs upage read_bytes zero_bytes : ℕ) (writable : Bool) (world : M.World)
      (spt : List SupPage) (f : Trap) (s : Paging P)
      → ((w : M.World) → (M.malloc w).0 ≡ true)
      → Loadable ofs upage read_bytes (read_bytes + zero_bytes)
      → (read_bytes + zero_bytes) % page_size ≡ 0
      → upage % page_size ≡ 0
      → ofs % page_size ≡ 0
      → ofs + read_bytes ≤ exe.size
      → Returns
          (λ out. out.1.1 ≡ s.sup_page_table)
          (lazy_load_segment M ofs upage read_bytes zero_bytes writable world spt)
      → lookup_page (page_of f.fault_addr) spt ≡ none
      → IsUserFault f
      → upage ≤ f.fault_addr
      → f.fault_addr < upage + (read_bytes + zero_bytes)
      → IsPaged P s
      → mapping P (page_of f.fault_addr) s ≡ 0
      → HasRoom s.pools
      → Returns (Touched ofs upage read_bytes (page_of f.fault_addr) s) (page_fault P f s)
  lazy_load_segment-Touched M ofs upage read_bytes zero_bytes writable world spt f s allocates l a b
        c inside left fresh u low high w absent free =
      let total = read_bytes + zero_bytes in
      let va = page_of f.fault_addr in
      let k = (f.fault_addr - upage) / page_size in
      let at : va ≡ upage + page_size * k = omega (arith, b, low) in
      let from_start : 0 ≤ k = omega arith in
      let in_range : k < 0 + total / page_size = omega (arith, a, high, low) in
      let pages = pages_from ofs upage read_bytes writable (total / page_size) 0 in
      let noted =
        Returns-mono _ (λ out. out.1.1 ≡ spt ++ pages) _
          (lazy_load_segment-Noted M allocates ofs upage read_bytes zero_bytes writable world spt l
            a b c)
          λ out q. q.1 in
      let table : spt ++ pages ≡ s.sup_page_table =
        Returns-agree _ (λ out. out.1.1) (spt ++ pages) s.sup_page_table noted left in
      let found =
        ap (lookup_page va) (sym table)
        ∙ lookup_page-append va spt pages fresh
        ∙ ap (λ v. lookup_page v pages) at
        ∙ lookup_page-pages_from ofs upage read_bytes writable (total / page_size) 0 k b from_start
            in_range in
      Returns-mono (ResumedLoaded P maps exe room (page_at ofs upage read_bytes writable k) va s)
        (Touched ofs upage read_bytes va s) (page_fault P f s)
        (page_fault-ResumedLoaded P maps exe room f (page_at ofs upage read_bytes writable k) s u w
          (record {
            aligned = page_of-IsAligned f.fault_addr;
            absent = absent;
            found = found;
            on_disk = refl;
            fits = page_at-fits ofs upage read_bytes writable k;
            in_file = page_at-in_file ofs upage read_bytes exe.size writable k inside;
          })
          free)
        λ out q. Loaded-Touched ofs upage read_bytes va writable k s out at q
