-- ===== src/Memory/Slots.antt =====
-- The swap partition as a table of pages.
use operating_system_col.Base.{
  ℕ, ◌+◌, ◌-◌, ◌*◌, ◌/◌, ◌%◌, ◌≤◌, ◌<◌, ◌≡◌, refl, sym, ap, ◌∙◌, subst, inl, inr, true, false,
  Option, none, some, ◌==◌, if◌then◌else◌, ==_iff, arith, Bool-cases,
}
use operating_system_col.Threads.WellFormed.{Returns, Returns-bind}
use operating_system_col.Syscall.{word}
use operating_system_col.Syscall.Children.{page_size}
use operating_system_col.Memory.{is_within}
use operating_system_col.Memory.Bitmap.{Bitmap, bitmap_scan_and_flip}
use operating_system_col.Memory.Scan.{Filled, Somewhere, Flipped, bitmap_scan_and_flip-Flipped}
use operating_system_col.Memory.Swap.{
  sector_size, sectors_per_page, Block, Swap, write_from, store_page, swap_out,
}
use operating_system_col.Memory.Sectors.{Keeps, sector, write_from-sector}

-- The bytes of a page by offset.
abbrev pub Page : Type 0
Page = ℕ → ℕ

-- The table with another entry for one slot.
abbrev pub put : ℕ → Option Page → (ℕ → Option Page) → ℕ → Option Page
put i v table j = if j == i then v else table j

module _ (B : Block) (keeps : Keeps B) where
  -- The sectors of a slot hold a page.
  abbrev pub IsStored : ℕ → Page → B.World → Type 0
  IsStored i page w =
      (o : ℕ)
      → o < page_size
      → sector B keeps (i * sectors_per_page + o / sector_size) w (o % sector_size) ≡ page o

  abbrev pub IsSlot : Option Page → ℕ → Swap B → Type 0
  IsSlot none i s = s.freemap.bits i ≡ true
  IsSlot (some page) i s = (s.freemap.bits i ≡ false) × IsStored i page s.world

  -- The partition holds the pages of the table, and every other slot is free.
  pub record Represents (table : ℕ → Option Page) (s : Swap B) : Type 0 where
    pub fits : s.freemap.bit_cnt * sectors_per_page ≤ word
    pub slot : (i : ℕ) → i < s.freemap.bit_cnt → IsSlot (table i) i s

  -- A slot of which neither the bit nor the sectors have changed.
  pub IsSlot-same :
      (v : Option Page) (i : ℕ) (s s' : Swap B)
      → s'.freemap.bits i ≡ s.freemap.bits i
      → ((o : ℕ)
          → o < page_size
          → sector B keeps (i * sectors_per_page + o / sector_size) s'.world (o % sector_size)
            ≡ sector B keeps (i * sectors_per_page + o / sector_size) s.world (o % sector_size))
      → IsSlot v i s
      → IsSlot v i s'
  IsSlot-same none i s s' e f p = e ∙ p
  IsSlot-same (some page) i s s' e f p = (e ∙ p.0, λ o l. f o l ∙ p.1 o l)

  free-none :
      (v : Option Page) (i : ℕ) (s : Swap B) → IsSlot v i s → s.freemap.bits i ≡ true → v ≡ none
  free-none none i s p e = refl
  free-none (some page) i s p e = cc (p.0)

  used-some :
      (v : Option Page) (i : ℕ) (s : Swap B)
      → IsSlot v i s
      → s.freemap.bits i ≡ false
      → (page : Page) × (v ≡ some page)
  used-some none i s p e = cc
  used-some (some page) i s p e = (page, refl)

  -- What `swap_out` does to the table: it puts the page into the first free slot, if there is one.
  pub record Taken (kpage : ℕ) (table : ℕ → Option Page) (s : Swap B) (i : ℕ) (s' : Swap B)
      : Type 0 where
    pub in_range : i < s.freemap.bit_cnt
    pub was_free : table i ≡ none
    pub first : (k : ℕ) → k < i → (page : Page) × (table k ≡ some page)
    pub now : Represents (put i (some λ o. s.memory (kpage + o)) table) s'
    pub same_memory : s'.memory ≡ s.memory

  abbrev pub Out : ℕ → (ℕ → Option Page) → Swap B → Option ℕ × Swap B → Type 0
  Out kpage table s (some i, s') = Taken kpage table s i s'
  Out kpage table s (none, s') =
      (s' ≡ s) × ((k : ℕ) → k < s.freemap.bit_cnt → (page : Page) × (table k ≡ some page))

  module _ (kpage : ℕ) (table : ℕ → Option Page) (s : Swap B) (r : Represents table s) where
    used_page :
        (k : ℕ)
        → k < s.freemap.bit_cnt
        → Somewhere k 1 false s.freemap
        → (page : Page) × (table k ≡ some page)
    used_page k h (j, l, u, e) =
        let here : j ≡ k = omega (arith, l, u) in
        used-some (table k) k s (r.slot k h) (ap s.freemap.bits (sym here) ∙ e)

    -- The state after the sectors of slot `i` have been written.
    written : ℕ → Bitmap → Swap B
    written i b = record s {
      freemap = b;
      world = write_from B sectors_per_page 0 (i * sectors_per_page % word) kpage s.memory s.world;
    }

    written-sector :
        (i t o : ℕ) (b : Bitmap)
        → i < s.freemap.bit_cnt
        → o < sector_size
        → sector B keeps t (written i b).world o ≡ (
            if is_within (i * sectors_per_page) sectors_per_page t
            then s.memory (kpage + (t - i * sectors_per_page) * sector_size + o)
            else sector B keeps t s.world o)
    unfolding written
    written-sector i t o b h l =
        let no_wrap : i * sectors_per_page % word ≡ i * sectors_per_page =
          omega (arith, r.fits, h) in
        let start : i * sectors_per_page + 0 ≡ i * sectors_per_page = omega arith in
        let wrote =
          write_from-sector B keeps sectors_per_page 0 (i * sectors_per_page) kpage s.memory s.world
            t o (omega (arith, r.fits, h)) l in
        rw no_wrap (wrote ∙ rw start refl)

    taken_bits :
        (i j : ℕ) (b : Bitmap)
        → Filled i 1 false s.freemap b
        → b.bits j ≡ (if j == i then false else s.freemap.bits j)
    taken_bits i j b f = ground (arith, f.each j)

    -- The page that has been written.
    taken_new-IsSlot :
        (i : ℕ) (b : Bitmap)
        → i < s.freemap.bit_cnt
        → Filled i 1 false s.freemap b
        → IsSlot (some λ o. s.memory (kpage + o)) i (written i b)
    unfolding written
    taken_new-IsSlot i b h f = (
      taken_bits i i b f ∙ rw ((==_iff i i).1 refl) refl,
      λ o l.
          let t = i * sectors_per_page + o / sector_size in
          let inside : is_within (i * sectors_per_page) sectors_per_page t ≡ true = ground arith in
          let byte : kpage + (t - i * sectors_per_page) * sector_size + o % sector_size
              ≡ kpage + o =
            omega arith in
          written-sector i t (o % sector_size) b h (omega arith) ∙ rw inside (ap s.memory byte),
    )

    -- The others.
    taken_other-IsSlot :
        (i j : ℕ) (b : Bitmap)
        → i < s.freemap.bit_cnt
        → j < s.freemap.bit_cnt
        → (j == i) ≡ false
        → Filled i 1 false s.freemap b
        → IsSlot (table j) j (written i b)
    unfolding written
    taken_other-IsSlot i j b h k ne f =
        IsSlot-same (table j) j s (written i b) (taken_bits i j b f ∙ rw ne refl)
          (λ o l.
            let t = j * sectors_per_page + o / sector_size in
            let outside : is_within (i * sectors_per_page) sectors_per_page t ≡ false =
              ground arith in
            written-sector i t (o % sector_size) b h (omega arith) ∙ rw outside refl)
          (r.slot j k)

    taken-IsSlot :
        (i j : ℕ) (b : Bitmap)
        → i < s.freemap.bit_cnt
        → j < s.freemap.bit_cnt
        → Filled i 1 false s.freemap b
        → IsSlot (put i (some λ o. s.memory (kpage + o)) table j) j (written i b)
    taken-IsSlot i j b h k f = elim (Bool-cases (j == i)) [
      | inl e ↦
          let here : j ≡ i = (==_iff j i).0 e in
          rw e (
            subst (λ x. IsSlot (some λ o. s.memory (kpage + o)) x (written i b)) (sym here)
              (taken_new-IsSlot i b h f))
      | inr e ↦ rw e (taken_other-IsSlot i j b h k e f)
    ]

    store_page-Out :
        (out : Option ℕ × Bitmap)
        → Flipped 0 1 true s.freemap out
        → Returns (Out kpage table s) (store_page B kpage out s)
    unfolding written
    store_page-Out (none, b) (none_free, same) = (
      ap (λ x. record s { freemap = x }) same,
      λ k h. used_page k h (none_free k (omega arith) (omega (arith, h))),
    )
    store_page-Out (some i, b) (f, filled) =
        let room : i < s.freemap.bit_cnt = omega (arith, f.inside) in
        record {
          in_range = room;
          was_free =
              free-none (table i) i s (r.slot i room) (f.group i (omega arith) (omega arith));
          first = λ k h. used_page k (omega (arith, room, h)) (f.earlier k (omega arith) h);
          now = record {
            fits = omega (arith, filled.same_cnt, r.fits);
            slot = λ j h. taken-IsSlot i j b room (omega (arith, filled.same_cnt, h)) filled;
          };
          same_memory = refl;
        }

    -- On a device that keeps its sectors, and a partition that holds a table of pages, `swap_out` ends
    -- with no `ASSERT` failed. It puts the page at `kpage` into the first free slot of the table, returns
    -- the slot, and changes no other slot and nothing in memory; without a free slot it returns
    -- `BITMAP_ERROR` and changes nothing.
    pub swap_out-Out : Returns (Out kpage table s) (swap_out B kpage s)
    unfolding swap_out
    swap_out-Out =
        Returns-bind (Flipped 0 1 true s.freemap) (Out kpage table s)
          (bitmap_scan_and_flip 0 1 true s.freemap) _
          (bitmap_scan_and_flip-Flipped 0 1 true s.freemap (omega arith) (omega (arith, r.fits))
            (omega arith))
          λ out f. store_page-Out out f
