-- ===== src/Memory/Stack.antt =====
-- The stack grows by a page.
use operating_system_col.Base.{
  ℕ, ◌-◌, ◌≡◌, Bool, true, false, not, ◌&&◌, some, [], ◌∷◌, ◌++◌, ltb, ◌==◌, if◌then◌else◌,
}
use operating_system_col.Syscall.Address.{page_of}
use operating_system_col.Memory.Paging.{Platform, Paging}
use operating_system_col.Syscall.Address.{phys_base}
use operating_system_col.Loader.Pages.{new_zero_sup_page}
use operating_system_col.Memory.Paging.{
  addr_to_pfno, set_last_frame, stack_limit, Trap, Answer, resumed, killed,
}
use operating_system_col.Memory.View.{Maps, mapping, user_byte, IsPaged}
use operating_system_col.Memory.Load.{Executable, NeverFull}
use operating_system_col.Memory.Fault.{count_fault}

-- The stack has 8 MB below `PHYS_BASE`.
abbrev pub is_in_stack : ℕ → Bool
is_in_stack a = not (ltb (page_of a) (phys_base - stack_limit)) && ltb a phys_base

module _ (P : Platform) (maps : Maps P) (exe : Executable P) (room : NeverFull P) where
  -- The page at `ua` is a new page of zeros, noted at the end of the table; the rest is as before.
  pub record Grown (ua : ℕ) (s s' : Paging P) : Type 0 where
    pub paged : IsPaged P s'
    pub byte : (a : ℕ) → user_byte P a s' ≡ (if page_of a == ua then some 0 else user_byte P a s)
    pub table :
        s'.sup_page_table
        ≡ s.sup_page_table
          ++ record (new_zero_sup_page ua) { frame_no = addr_to_pfno (mapping P ua s') } ∷ []

  abbrev GrownTo : ℕ → Paging P → Bool × Paging P → Type 0
  GrownTo ua s (ok, s') = (ok ≡ true) × Grown ua s s'

  -- The state in which the page has been noted.
  abbrev noted : ℕ → Paging P → Paging P
  noted ua s = record s {
    sup_page_table = s.sup_page_table ++ new_zero_sup_page ua ∷ [];
    world = (P.malloc s.world).1;
  }

  abbrev grown_state : ℕ → ℕ → Paging P → Paging P
  grown_state ua pa s2 = record s2 {
    sup_page_table = set_last_frame (addr_to_pfno pa) s2.sup_page_table;
    world = (P.pagedir_set_page ua pa true s2.world).1;
  }

  -- How a fault outside the table is answered: the stack grows, or the process is killed.
  abbrev pub Answered : Trap → Paging P → Bool → Answer × Paging P → Type 0
  Answered f s true (answer, s') = (answer ≡ resumed) × Grown (page_of f.fault_addr) s s'
  Answered f s false (answer, s') = (answer ≡ killed) × (s' ≡ count_fault P s)
