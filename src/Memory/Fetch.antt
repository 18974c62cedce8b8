-- ===== src/Memory/Fetch.antt =====
-- Back from the swap partition, and its start.
use operating_system_col.Base.{
  ℕ, zero, suc, ◌+◌, ◌-◌, ◌*◌, ◌/◌, ◌%◌, ◌<◌, ◌≡◌, refl, sym, ap, ◌∙◌, inl, inr, Bool, true, false,
  Option, none, some, ◌==◌, if◌then◌else◌, arith, Bool-cases,
}
use operating_system_col.Threads.WellFormed.{Returns, Returns-bind}
use operating_system_col.Syscall.{word}
use operating_system_col.Syscall.Children.{page_size}
use operating_system_col.Memory.{Memory, is_within}
use operating_system_col.Memory.Bitmap.{Bitmap, bitmap_contains, bitmap_mark}
use operating_system_col.Memory.Scan.{Filled, Contained, bitmap_contains-Contained}
use operating_system_col.Memory.Swap.{
  sector_size, sectors_per_page, Block, Swap, read_from, fetch_page, swap_in, swap_free,
}
use operating_system_col.Memory.Sectors.{Keeps, sector, read_from-memory}
use operating_system_col.Memory.Bitmap.{bitmap_create}
use operating_system_col.Memory.Scan.{bitmap_set_multiple-Filled}
use operating_system_col.Memory.Swap.{swap_init}
use operating_system_col.Memory.Slots.{Page, put, IsStored, IsSlot, Represents, IsSlot-same}

module _ (B : Block) (keeps : Keeps B) where
  -- What `swap_in` does with a slot that the table has empty, or with a page in it.
  abbrev pub In : ℕ → (ℕ → Option Page) → Swap B → Option Page → Bool × Swap B → Type 0
  In kpage table s none (ok, s') = (ok ≡ false) × (s' ≡ s)
  In kpage table s (some page) (ok, s') =
      (ok ≡ true)
      × ((a : ℕ)
          → s'.memory a ≡ (if is_within kpage page_size a then page (a - kpage) else s.memory a))
      × Represents B keeps table s'

  -- Reading sectors changes none.
  read_from-sector :
      (n i base kpage : ℕ) (m : Memory) (w : B.World) (t o : ℕ)
      → o < sector_size
      → sector B keeps t (read_from B n i base kpage m w).1 o ≡ sector B keeps t w o
  unfolding read_from
  read_from-sector zero i base kpage m w t o l = refl
  read_from-sector (suc n) i base kpage m w t o l =
      read_from-sector n (suc i) base kpage _ _ t o l ∙ keeps.read_read t _ w o l

  module _ (kpage : ℕ) (table : ℕ → Option Page) (s : Swap B) (r : Represents B keeps table s)
      (i : ℕ) (room : i < s.freemap.bit_cnt) where
    fetched_memory :
        (page : Page) (a : ℕ)
        → IsStored B keeps i page s.world
        → (read_from B sectors_per_page 0 (i * sectors_per_page % word) kpage s.memory s.world).0 a
          ≡ (if is_within kpage page_size a then page (a - kpage) else s.memory a)
    fetched_memory page a stored =
        let no_wrap : i * sectors_per_page % word ≡ i * sectors_per_page =
          omega (arith, r.fits, room) in
        let read =
          read_from-memory B keeps sectors_per_page 0 (i * sectors_per_page) kpage s.memory s.world
            a (omega (arith, r.fits, room)) in
        let start : kpage + 0 ≡ kpage = omega arith in
        elim (Bool-cases (is_within kpage page_size a)) [
          | inl e ↦ rw (no_wrap, e) (read ∙ rw (start, e) (stored (a - kpage) (ground arith)))
          | inr e ↦ rw (no_wrap, e) (read ∙ rw (start, e) refl)
        ]

    fetch_page-In :
        (v : Option Page) (stored : Bool)
        → table i ≡ v
        → IsSlot B keeps v i s
        → Contained i 1 false s.freemap stored
        → In kpage table s v (fetch_page B i kpage stored s)
    fetch_page-In none true e p (j, l, u, q) =
        let here : j ≡ i = omega (arith, l, u) in
        let unset : s.freemap.bits i ≡ false = ap s.freemap.bits (sym here) ∙ q in cc (p, unset)
    fetch_page-In none false e p c = (refl, refl)
    fetch_page-In (some page) false e p c =
        let set : s.freemap.bits i ≡ true = c i (omega arith) (omega arith) in cc (p.0, set)
    fetch_page-In (some page) true e p c = (
      refl,
      λ a. fetched_memory page a p.1,
      record {
        fits = r.fits;
        slot = λ j h.
            IsSlot-same B keeps (table j) j s (fetch_page B i kpage true s).1 refl
              (λ o l. read_from-sector _ _ _ _ _ _ _ _ (omega arith)) (r.slot j h);
      },
    )

    -- On a device that keeps its sectors, `swap_in` of a slot of a partition that holds a table of pages
    -- ends with no `ASSERT` failed. If the table has a page there,
    -- it returns true, and memory holds the page at `kpage` and is otherwise as before, as is the
    -- table; if the slot is free it returns false and changes nothing.
    pub swap_in-In : Returns (In kpage table s (table i)) (swap_in B i kpage s)
    unfolding swap_in
    swap_in-In =
        Returns-bind (Contained i 1 false s.freemap) (In kpage table s (table i))
          (bitmap_contains i 1 false s.freemap) _
          (bitmap_contains-Contained i 1 false s.freemap (omega (arith, r.fits))
            (omega (arith, room)))
          λ stored c. fetch_page-In (table i) stored refl (r.slot i room) c

    swap_free-IsSlot :
        (j : ℕ) → j < s.freemap.bit_cnt → IsSlot B keeps (put i none table j) j (swap_free B i s)
    unfolding swap_free bitmap_mark
    swap_free-IsSlot j h = elim (Bool-cases (j == i)) [
      | inl e ↦ rw (e, IsSlot) (rw e refl)
      | inr e ↦ rw e (
          IsSlot-same B keeps (table j) j s (swap_free B i s) (rw e refl) (λ o l. refl)
            (r.slot j h))
    ]

    -- `swap_free` takes the page out of the table, and changes no other slot.
    pub swap_free-Represents : Represents B keeps (put i none table) (swap_free B i s)
    unfolding swap_free bitmap_mark
    swap_free-Represents = record { fits = r.fits; slot = swap_free-IsSlot }

  -- After `swap_init`, all slots are free.
  pub swap_init-Represents :
      (garbage : ℕ → Bool) (memory : Memory) (w : B.World)
      → B.block_size w < word
      → Returns (Represents B keeps λ i. none) (swap_init B garbage memory w)
  unfolding swap_init bitmap_create
  swap_init-Represents garbage memory w small =
      let n = B.block_size w / sectors_per_page in
      let b0 : Bitmap = record { bit_cnt = n; bits = garbage } in
      Returns-bind (Filled 0 n false b0) (Represents B keeps λ i. none) _ _
        (bitmap_set_multiple-Filled 0 n false b0 (omega (arith, small)) (omega arith))
        λ b f.
          Returns-bind (Filled 0 b.bit_cnt true b) (Represents B keeps λ i. none) _ _
            (bitmap_set_multiple-Filled 0 b.bit_cnt true b (omega (arith, f.same_cnt, small))
              (omega arith))
            λ b' f'. record {
              fits = omega (arith, f.same_cnt, f'.same_cnt, small);
              slot = λ i h. ground (arith, f'.each i, f'.same_cnt);
            }
