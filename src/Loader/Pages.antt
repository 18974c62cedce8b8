-- ===== src/Loader/Pages.antt =====
-- `install_page`, `load_segment` and `lazy_load_segment` of userprog/process.c. A page of memory is the
-- list of its bytes.
use operating_system_col.Base.{
  ℕ, zero, suc, ◌+◌, ◌-◌, ◌/◌, ◌%◌, Bool, true, false, not, ◌||◌, List, [], ◌∷◌, ◌++◌, length, ltb,
  ◌==◌, if◌then◌else◌,
}
use operating_system_col.Threads.{Run, done, panic, out_of_fuel, ◌>>=◌, assert}
use operating_system_col.Syscall.{Machine, word}
use operating_system_col.Syscall.Children.{page_size}

-- `struct sup_page`, with the address of its page and whether its location is DISK, else MEMORY. No
-- page has another location.
pub record SupPage : Type 0 where
  pub on_disk : Bool
  pub writable : Bool
  pub upage : ℕ
  pub frame_no : ℕ
  pub offset : ℕ
  pub read_bytes : ℕ

abbrev pub new_file_sup_page : ℕ → ℕ → ℕ → Bool → SupPage
new_file_sup_page offs rd_b upage wr = record {
  on_disk = true;
  writable = wr;
  upage = upage;
  frame_no = 0;
  offset = offs;
  read_bytes = rd_b;
}

abbrev pub new_zero_sup_page : ℕ → SupPage
new_zero_sup_page upage = record {
  on_disk = false;
  writable = true;
  upage = upage;
  frame_no = 0;
  offset = 0;
  read_bytes = 0;
}

-- `page_read_bytes`
abbrev pub page_read : ℕ → ℕ
page_read read_bytes = if ltb read_bytes page_size then read_bytes else page_size

abbrev pub zeros : ℕ → List ℕ
zeros zero = []
zeros (suc n) = 0 ∷ zeros n

-- Subtraction of words.
abbrev pub minus : ℕ → ℕ → ℕ
minus a b = (a + word - b) % word

-- The three `ASSERT`s at the start of both loaders.
abbrev pub asserts : ℕ → ℕ → ℕ → ℕ → Run (Unit {0})
asserts ofs upage read_bytes zero_bytes =
    assert ((read_bytes + zero_bytes) % word % page_size == 0) >>= λ _.
    assert (upage % page_size == 0) >>= λ _. assert (ofs % page_size == 0)

module _ (M : Machine) where
  unfoldable pub install_page : ℕ → List ℕ → Bool → M.World → Bool × M.World
  install_page upage kpage writable w =
      if M.pagedir_get_page upage w == 0
      then M.pagedir_set_page upage kpage writable w
      else (false, w)

  -- One page: whether it is there, and the world.
  abbrev pub load_one : M.File → ℕ → ℕ → Bool → M.World → Bool × M.World
  load_one file upage page_read_bytes writable w =
      let (got, w) = M.palloc_get_page w in
      let (bytes, w1) = M.file_read file page_read_bytes w in
      let kpage = bytes ++ zeros (page_size - page_read_bytes) in
      let (installed, w2) = install_page upage kpage writable w1 in
      if not got
      then (false, w)
      else if not (length bytes == page_read_bytes)
      then (false, M.palloc_free_page w1)
      else if installed
      then (true, w2)
      else (false, M.palloc_free_page w2)

  abbrev pub load_pages : ℕ → M.File → ℕ → ℕ → ℕ → Bool → M.World → Run (Bool × M.World)
  load_pages zero file upage read_bytes zero_bytes writable w = out_of_fuel
  load_pages (suc fuel) file upage read_bytes zero_bytes writable w =
      elim (ltb 0 read_bytes || ltb 0 zero_bytes) [
        | false ↦ done (true, w)
        | true ↦
            let here = page_read read_bytes in
            let (ok, w) = load_one file upage here writable w in
            elim ok [
              | false ↦ done (false, w)
              | true ↦
                  load_pages fuel file ((upage + page_size) % word) (minus read_bytes here)
                    (minus zero_bytes (page_size - here)) writable w
            ]
      ]

  -- The fuel is one more than the pages of the segment.
  unfoldable pub load_segment : M.File → ℕ → ℕ → ℕ → ℕ → Bool → M.World → Run (Bool × M.World)
  load_segment file ofs upage read_bytes zero_bytes writable w =
      asserts ofs upage read_bytes zero_bytes >>= λ _.
      load_pages ((read_bytes + zero_bytes) / page_size + 1) file upage read_bytes zero_bytes
        writable (M.file_seek file ofs w)

  -- The loop of `lazy_load_segment`, which adds to the supplemental page table `spt`.
  abbrev pub lazy_pages :
      ℕ → ℕ → ℕ → ℕ → ℕ → Bool → M.World → List SupPage → Run (Bool × (M.World × List SupPage))
  lazy_pages zero ofs upage read_bytes zero_bytes writable w spt = out_of_fuel
  lazy_pages (suc fuel) ofs upage read_bytes zero_bytes writable w spt =
      elim (ltb 0 read_bytes || ltb 0 zero_bytes) [
        | false ↦ done (true, (w, spt))
        | true ↦
            let here = page_read read_bytes in
            let (allocated, w) = M.malloc w in
            elim allocated [
              | false ↦ panic
              | true ↦
                  lazy_pages fuel ((ofs + here) % word) ((upage + page_size) % word)
                    (minus read_bytes here) (minus zero_bytes (page_size - here)) writable w
                    (spt ++ new_file_sup_page ofs here upage writable ∷ [])
            ]
      ]

  unfoldable pub lazy_load_segment :
      ℕ → ℕ → ℕ → ℕ → Bool → M.World → List SupPage → Run (Bool × (M.World × List SupPage))
  lazy_load_segment ofs upage read_bytes zero_bytes writable w spt =
      asserts ofs upage read_bytes zero_bytes >>= λ _.
      lazy_pages ((read_bytes + zero_bytes) / page_size + 1) ofs upage read_bytes zero_bytes
        writable w spt
