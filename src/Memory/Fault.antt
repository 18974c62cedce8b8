-- ===== src/Memory/Fault.antt =====
-- Page faults on pages of the executable and on the stack.
use operating_system_col.Base.{
  ℕ, ◌+◌, ◌≡◌, ◌≢◌, refl, sym, ap, ◌∙◌, subst, true, false, ◌==◌, if◌then◌else◌, arith,
}
use operating_system_col.Syscall.Address.{page_of}
use operating_system_col.Memory.Paging.{Platform, Paging}
use operating_system_col.Threads.{done, ◌>>◌, assert}
use operating_system_col.Threads.WellFormed.{Returns, Returns-bind}
use operating_system_col.Loader.Pages.{SupPage}
use operating_system_col.Memory.Paging.{
  lookup_page, load_page, Trap, Answer, resumed, killed, is_user, is_present, after_load,
  fault_page, page_fault,
}
use operating_system_col.Memory.View.{Maps, IsPaged}
use operating_system_col.Memory.Frames.{HasRoom}
use operating_system_col.Memory.Load.{
  Executable, NeverFull, Loaded, LoadedAs, IsLoadable, load_page-LoadedAs,
}

-- A user's access to a page that is not present, not through NULL.
pub record IsUserFault (f : Trap) : Type 0 where
  pub user : is_user f ≡ true
  pub absent : is_present f ≡ false
  pub not_null : f.fault_addr ≢ 0

-- The count of faults is one more.
abbrev pub count_fault : (P : Platform) → Paging P → Paging P
count_fault P s = record s { page_fault_cnt = s.page_fault_cnt + 1 }

module _ (P : Platform) (maps : Maps P) (exe : Executable P) (room : NeverFull P) where
  pub page_fault-fault_page :
      (f : Trap) (s : Paging P)
      → IsUserFault f
      → page_fault P f s
        ≡ fault_page P f (lookup_page (page_of f.fault_addr) s.sup_page_table) (count_fault P s)
  unfolding page_fault
  page_fault-fault_page f s u =
      let not_null : (f.fault_addr == 0) ≡ false = ground (arith, u.not_null) in
      rw (u.user, not_null, u.absent) refl

  -- The handler has resumed the program, with the page loaded.
  abbrev pub ResumedLoaded : SupPage → ℕ → Paging P → Answer × Paging P → Type 0
  ResumedLoaded spg va s (answer, s') = (answer ≡ resumed) × Loaded P maps exe room spg va s s'

  uncounted :
      (spg : SupPage) (va : ℕ) (s s' : Paging P)
      → Loaded P maps exe room spg va (count_fault P s) s'
      → Loaded P maps exe room spg va s s'
  uncounted spg va s s' l = record {
    paged = l.paged;
    present = l.present;
    byte = l.byte;
    in_memory = l.in_memory;
    others = l.others;
  }

  -- A user's access, not through NULL, to a page of the table that is still on disk and not mapped, with
  -- a free frame, memory for page tables, and the page's bytes inside the executable: the handler loads
  -- the page and resumes the program. The page then holds the bytes of the file at its offset and zeros
  -- behind them, every other page of the process reads as before, no page frame is mapped twice, and
  -- the table says that this page is in memory and finds every other page as before.
  pub page_fault-ResumedLoaded :
      (f : Trap) (spg : SupPage) (s : Paging P)
      → IsUserFault f
      → IsPaged P s
      → IsLoadable P maps exe room spg (page_of f.fault_addr) s
      → HasRoom s.pools
      → Returns (ResumedLoaded spg (page_of f.fault_addr) s) (page_fault P f s)
  page_fault-ResumedLoaded f spg s u w l free =
      let va = page_of f.fault_addr in
      let c = count_fault P s in
      let loads =
        load_page-LoadedAs P maps exe room spg va c
          (record {
            small = w.small;
            base_pos = w.base_pos;
            mapped = w.mapped;
            separate = w.separate;
          })
          (record {
            aligned = l.aligned;
            absent = l.absent;
            found = l.found;
            on_disk = l.on_disk;
            fits = l.fits;
            in_file = l.in_file;
          })
          free in
      let fetched =
        Returns-bind (LoadedAs P maps exe room spg va c) (ResumedLoaded spg va s)
          (load_page P spg va c) _ loads
          λ (ok, s') (e, loaded).
            subst (λ b. Returns (ResumedLoaded spg va s) (assert b >> done (resumed, s'))) (sym e)
              (refl, uncounted spg va s s' loaded) in
      subst (Returns (ResumedLoaded spg va s))
        (sym (page_fault-fault_page f s u ∙ ap (λ o. fault_page P f o c) l.found))
        (subst
          (λ b.
            Returns (ResumedLoaded spg va s)
              (if b then after_load P (load_page P spg va c) else done (killed, c)))
          (sym l.on_disk) fetched)
