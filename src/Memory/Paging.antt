-- ===== src/Memory/Paging.antt =====
-- vm/frame.c, vm/sup_page.c, and the page faults of userprog/exception.c, of one process at a time.
-- `ft.mutex` is the atomicity of one call. Addresses are words.
use operating_system_col.Base.{
  ℕ, ◌+◌, ◌-◌, ◌*◌, ◌/◌, ◌%◌, ◌^◌, Bool, true, false, not, ◌||◌, Option, none, some, List, [], ◌∷◌,
  ◌++◌, ltb, ◌==◌, if◌then◌else◌,
}
use operating_system_col.Threads.{Run, done, panic, ◌>>=◌, ◌>>◌, assert}
use operating_system_col.Syscall.{word, error}
use operating_system_col.Syscall.Children.{page_size}
use operating_system_col.Syscall.Address.{phys_base, page_of}
use operating_system_col.Loader.Pages.{SupPage, new_zero_sup_page, minus}
use operating_system_col.Memory.{Memory, copy_to}
use operating_system_col.Memory.Pool.{Flags, Pools, palloc_get_page, palloc_free_page}

-- What the code calls: the allocator of small blocks, the page directory of the process, and its
-- executable. `pagedir_get_page` of an address that is not mapped is 0. `file_read_at` gives how many
-- bytes it has read, and the bytes.
pub record Platform : Type 1 where
  pub World : Type 0
  pub malloc : World → Bool × World
  pub pagedir_get_page : ℕ → World → ℕ
  pub pagedir_set_page : ℕ → ℕ → Bool → World → Bool × World
  pub file_read_at : ℕ → ℕ → World → (ℕ × (ℕ → ℕ)) × World

-- `ADDR_TO_PFNO` and `PFNO_TO_ADDR`
abbrev pub addr_to_pfno : ℕ → ℕ
addr_to_pfno a = a / page_size

abbrev pub pfno_to_addr : ℕ → ℕ
pfno_to_addr n = n * page_size % word

-- `struct frame`. A frame number has 20 bits.
pub record Frame : Type 0 where
  pub owner : ℕ
  pub kpage : ℕ
  pub upage : ℕ

abbrev pub frame_bits : ℕ
frame_bits = 2 ^ 20

-- The frame table `ft`, and what a process has of its own.
pub record Paging (P : Platform) : Type 0 where
  pub pools : Pools
  pub allframes : List Frame
  pub frame_count : ℕ
  pub owner : ℕ
  pub sup_page_table : List SupPage
  pub page_fault_cnt : ℕ
  pub world : P.World

-- `find_frame_by_no`, and the list without the frame that it finds.
abbrev pub find_frame_by_no : ℕ → List Frame → Option Frame
find_frame_by_no fn [] = none
find_frame_by_no fn (f ∷ fs) = if f.kpage == fn then some f else find_frame_by_no fn fs

abbrev pub remove_frame : ℕ → List Frame → List Frame
remove_frame fn [] = []
remove_frame fn (f ∷ fs) = if f.kpage == fn then fs else f ∷ remove_frame fn fs

-- `lookup_page`: the first page of the table with the number of the address.
abbrev pub lookup_page : ℕ → List SupPage → Option SupPage
lookup_page upage [] = none
lookup_page upage (spg ∷ rest) =
    if addr_to_pfno spg.upage == addr_to_pfno upage then some spg else lookup_page upage rest

-- The page that `lookup_page` finds, once it is in a frame.
abbrev pub note_loaded : ℕ → ℕ → List SupPage → List SupPage
note_loaded upage fn [] = []
note_loaded upage fn (spg ∷ rest) =
    if addr_to_pfno spg.upage == addr_to_pfno upage
    then record spg { on_disk = false; frame_no = fn } ∷ rest
    else spg ∷ note_loaded upage fn rest

-- The frame of the last page of the table.
abbrev pub set_last_frame : ℕ → List SupPage → List SupPage
set_last_frame fn [] = []
set_last_frame fn (spg ∷ []) = record spg { frame_no = fn } ∷ []
set_last_frame fn (spg ∷ next ∷ rest) = spg ∷ set_last_frame fn (next ∷ rest)

-- What the handler does with the trap: the program goes on, the kernel goes on at another address
-- with a new value in `eax`, or the process is killed.
pub data Answer : Type 0 where
  resumed : Answer
  redirected : ℕ → ℕ → Answer
  killed : Answer

-- `struct intr_frame`, and the register CR2.
pub record Trap : Type 0 where
  pub error_code : ℕ
  pub eip : ℕ
  pub esp : ℕ
  pub eax : ℕ
  pub fault_addr : ℕ

-- The bits of the error code: whether the page was present, and whether it was a user's access.
abbrev pub is_present : Trap → Bool
is_present f = not (f.error_code % 2 == 0)

abbrev pub is_user : Trap → Bool
is_user f = not (f.error_code / 4 % 2 == 0)

abbrev pub is_stack_access : Trap → Bool
is_stack_access f =
    (f.fault_addr == minus f.esp 4)
    || (f.fault_addr == minus f.esp 32)
    || not (ltb f.fault_addr f.esp)

abbrev pub user_page : Bool → Flags
user_page zeroed = record { pal_assert = false; pal_zero = zeroed; pal_user = true }

-- The most that a stack may have.
abbrev pub stack_limit : ℕ
stack_limit = 2048 * page_size

module _ (P : Platform) where
  abbrev pub add_frame : ℕ → ℕ → Paging P → Paging P
  add_frame pa va s =
      let (got, w) = P.malloc s.world in
      let f : Frame = record {
        owner = s.owner;
        kpage = addr_to_pfno pa % frame_bits;
        upage = addr_to_pfno va % frame_bits;
      } in
      let s' = record s { world = w } in
      if got
      then record s' { allframes = s.allframes ++ f ∷ []; frame_count = s.frame_count + 1 }
      else s'

  abbrev pub map_frame : ℕ → Option ℕ × Pools → Paging P → Run (ℕ × Paging P)
  map_frame va (none, pools) s = panic
  map_frame va (some pa, pools) s = done (pa, add_frame pa va (record s { pools = pools }))

  unfoldable pub frame_map : ℕ → Bool → Paging P → Run (ℕ × Paging P)
  frame_map va zeroed s = palloc_get_page (user_page zeroed) s.pools >>= λ out. map_frame va out s

  abbrev pub free_found : ℕ → Option Frame → Paging P → Run (Paging P)
  free_found fn none s = done s
  free_found fn (some f) s = palloc_free_page (pfno_to_addr f.kpage) s.pools >>= λ pools.
      done (record s { pools = pools; allframes = remove_frame fn s.allframes })

  unfoldable pub frame_free : ℕ → Paging P → Run (Paging P)
  frame_free pa s = free_found (addr_to_pfno pa) (find_frame_by_no (addr_to_pfno pa) s.allframes) s

  unfoldable pub install_page : ℕ → ℕ → Bool → Paging P → Bool × Paging P
  install_page upage kpage writable s =
      if P.pagedir_get_page upage s.world == 0
      then (let (ok, w) = P.pagedir_set_page upage kpage writable s.world in
          (ok, record s { world = w }))
      else (false, s)

  -- The frame goes back when the page could not be loaded.
  abbrev pub give_up : ℕ → Paging P → Run (Bool × Paging P)
  give_up kpage s = frame_free kpage s >>= λ s'. done (false, s')

  -- The last steps of `load_page`, when the bytes of the file are there.
  abbrev pub install_loaded : SupPage → ℕ → ℕ → Paging P → Run (Bool × Paging P)
  install_loaded spg va kpage s =
      let (ok, s') = install_page va kpage spg.writable s in
      if ok
      then done (
        true,
        record s' { sup_page_table = note_loaded va (addr_to_pfno kpage) s'.sup_page_table },
      )
      else give_up kpage s'

  abbrev pub set_memory : Memory → P.World → Paging P → Paging P
  set_memory m w s = record s { pools = record s.pools { memory = m }; world = w }

  abbrev pub fill_page : SupPage → ℕ → ℕ → Paging P → Run (Bool × Paging P)
  fill_page spg va kpage s =
      let ((read, bytes), w) = P.file_read_at spg.offset spg.read_bytes s.world in
      let m = copy_to kpage read bytes s.pools.memory in
      if read == spg.read_bytes
      then install_loaded spg va kpage (
          set_memory (copy_to (kpage + spg.read_bytes) (minus page_size spg.read_bytes) (λ o. 0) m)
            w s)
      else give_up kpage (set_memory m w s)

  unfoldable pub load_page : SupPage → ℕ → Paging P → Run (Bool × Paging P)
  load_page spg va s =
      assert spg.on_disk >> (frame_map va false s >>= λ (kpage, s'). fill_page spg va kpage s')

  -- `new_zero_sup_page`, at the end of the table; `none` is NULL.
  abbrev pub add_zero_page : ℕ → Paging P → Bool × Paging P
  add_zero_page ua s =
      let (got, w) = P.malloc s.world in
      (
        got,
        if got
            then record s {
              sup_page_table = s.sup_page_table ++ new_zero_sup_page ua ∷ [];
              world = w;
            }
            else record s { world = w },
      )

  -- `pa` is never NULL here. The new page is the last of the table.
  abbrev pub install_zero : ℕ → Bool → ℕ → Paging P → Bool × Paging P
  install_zero ua false pa s = (false, s)
  install_zero ua true pa s =
      install_page ua pa true
        (record s { sup_page_table = set_last_frame (addr_to_pfno pa) s.sup_page_table })

  unfoldable pub grow_stack : ℕ → Paging P → Run (Bool × Paging P)
  grow_stack va s =
      let ua = page_of va in
      let (got, s1) = add_zero_page ua s in
      if ltb (phys_base - page_size) ua || ltb ua (phys_base - stack_limit)
      then done (false, s)
      else (frame_map ua true s1 >>= λ (pa, s2). done (install_zero ua got pa s2))

  abbrev pub after_grow : Run (Bool × Paging P) → Run (Answer × Paging P)
  after_grow r = r >>= λ (ok, s). done (if ok then resumed else killed, s)

  abbrev pub after_load : Run (Bool × Paging P) → Run (Answer × Paging P)
  after_load r = r >>= λ (ok, s). assert ok >> done (resumed, s)

  abbrev pub fault_page : Trap → Option SupPage → Paging P → Run (Answer × Paging P)
  fault_page f none s =
      if is_stack_access f
      then after_grow (grow_stack (page_of f.fault_addr) s)
      else done (killed, s)
  fault_page f (some spg) s =
      if spg.on_disk then after_load (load_page spg (page_of f.fault_addr) s) else done (killed, s)

  unfoldable pub page_fault : Trap → Paging P → Run (Answer × Paging P)
  page_fault f s0 =
      let s = record s0 { page_fault_cnt = s0.page_fault_cnt + 1 } in
      if not (is_user f)
      then done (redirected f.eax error, s)
      else if f.fault_addr == 0
      then done (killed, s)
      else if is_present f
      then done (killed, s)
      else fault_page f (lookup_page (page_of f.fault_addr) s.sup_page_table) s

  -- `sup_page_table_destroy`
  unfoldable pub sup_page_table_destroy : Paging P → Paging P
  sup_page_table_destroy s = record s { sup_page_table = [] }
