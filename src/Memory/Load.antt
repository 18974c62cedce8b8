-- ===== src/Memory/Load.antt =====
-- Demand loading: a page of the executable comes into a frame.
use operating_system_col.Base.{
  ℕ, ◌+◌, ◌-◌, ◌%◌, ◌≤◌, ◌<◌, ◌≡◌, ◌≢◌, refl, sym, ap, ◌∙◌, subst, inl, inr, Bool, true, false,
  some, List, [], ◌∷◌, ltb, ◌==◌, if◌then◌else◌, ==_iff, arith, Bool-cases,
}
use operating_system_col.Syscall.Children.{page_size}
use operating_system_col.Syscall.Address.{page_of}
use operating_system_col.Memory.{Memory, is_within}
use operating_system_col.Memory.Paging.{Platform, Paging}
use operating_system_col.Threads.{◌>>=◌, ◌>>◌, assert}
use operating_system_col.Threads.WellFormed.{Returns, Returns-bind}
use operating_system_col.Loader.Pages.{SupPage, minus}
use operating_system_col.Memory.{copy_to}
use operating_system_col.Memory.Paging.{
  lookup_page, note_loaded, addr_to_pfno, frame_map, install_page, set_memory, fill_page, load_page,
}
use operating_system_col.Memory.View.{
  IsAligned, Maps, mapping, user_byte, IsPaged, Installed, Installed-IsPaged, Installed-user_byte,
}
use operating_system_col.Memory.Frames.{HasRoom, Framed, frame_map-Framed}

-- The bytes of the executable. A read inside the file is complete.
pub record Executable (P : Platform) : Type 0 where
  pub size : ℕ
  pub content : ℕ → ℕ
  pub complete : (ofs n : ℕ) (w : P.World) → ofs + n ≤ size → (P.file_read_at ofs n w).0.0 ≡ n
  pub faithful :
      (ofs n : ℕ) (w : P.World) (o : ℕ)
      → ofs + n ≤ size
      → o < n
      → (P.file_read_at ofs n w).0.1 o ≡ content (ofs + o)

-- Memory for page tables never runs out.
abbrev pub NeverFull : Platform → Type 0
NeverFull P =
    (u k : ℕ) (writable : Bool) (w : P.World) → (P.pagedir_set_page u k writable w).0 ≡ true

abbrev in_frame : ℕ → SupPage → SupPage
in_frame fn spg = record spg { on_disk = false; frame_no = fn }

-- The table once the page that `lookup_page` finds is in a frame.
lookup_page-note_loaded :
    (va fn : ℕ) (spg : SupPage) (table : List SupPage)
    → lookup_page va table ≡ some spg
    → lookup_page va (note_loaded va fn table)
      ≡ some (record spg { on_disk = false; frame_no = fn })
lookup_page-note_loaded va fn spg [] h = cc
lookup_page-note_loaded va fn spg (x ∷ rest) h =
    elim (Bool-cases (addr_to_pfno x.upage == addr_to_pfno va)) [
      | inl e ↦
          let first : some x ≡ some spg = (rw e at h) in
          let found : x ≡ spg = cc (first) in
          rw e (rw e (ap (λ (y : SupPage). some (in_frame fn y)) found))
      | inr e ↦ rw e (rw e (lookup_page-note_loaded va fn spg rest (rw e at h)))
    ]

lookup_page-note_loaded_other :
    (va v fn : ℕ) (table : List SupPage)
    → (addr_to_pfno va == addr_to_pfno v) ≡ false
    → lookup_page v (note_loaded va fn table) ≡ lookup_page v table
lookup_page-note_loaded_other va v fn [] ne = refl
lookup_page-note_loaded_other va v fn (x ∷ rest) ne =
    elim (Bool-cases (addr_to_pfno x.upage == addr_to_pfno va)) [
      | inl e ↦
          let other : (addr_to_pfno x.upage == addr_to_pfno v) ≡ false = ground arith in
          rw (e, other) refl
      | inr e ↦ rw e (
          ap (λ r. if addr_to_pfno x.upage == addr_to_pfno v then some x else r)
            (lookup_page-note_loaded_other va v fn rest ne))
    ]

module _ (P : Platform) (maps : Maps P) (exe : Executable P) (room : NeverFull P) where
  -- The page of the process at `va` has come from the executable: its first bytes are those of the
  -- file at its offset, and the rest are 0. Every other page of the process, and of its table, is as
  -- before.
  pub record Loaded (spg : SupPage) (va : ℕ) (s s' : Paging P) : Type 0 where
    pub paged : IsPaged P s'
    pub present : mapping P va s' ≢ 0
    pub byte :
        (a : ℕ)
        → user_byte P a s' ≡ (
            if page_of a == va
            then some (
                if ltb (a % page_size) spg.read_bytes
                then exe.content (spg.offset + a % page_size)
                else 0)
            else user_byte P a s)
    pub in_memory :
        lookup_page va s'.sup_page_table
        ≡ some (record spg { on_disk = false; frame_no = addr_to_pfno (mapping P va s') })
    pub others :
        (v : ℕ)
        → (addr_to_pfno va == addr_to_pfno v) ≡ false
        → lookup_page v s'.sup_page_table ≡ lookup_page v s.sup_page_table

  -- `load_page` has returned true.
  abbrev pub LoadedAs : SupPage → ℕ → Paging P → Bool × Paging P → Type 0
  LoadedAs spg va s (ok, s') = (ok ≡ true) × Loaded spg va s s'

  -- A page of the table that can be loaded.
  pub record IsLoadable (spg : SupPage) (va : ℕ) (s : Paging P) : Type 0 where
    pub aligned : IsAligned va
    pub absent : mapping P va s ≡ 0
    pub found : lookup_page va s.sup_page_table ≡ some spg
    pub on_disk : spg.on_disk ≡ true
    pub fits : spg.read_bytes ≤ page_size
    pub in_file : spg.offset + spg.read_bytes ≤ exe.size

  pub install_page-ok :
      (u k : ℕ) (writable : Bool) (s : Paging P)
      → mapping P u s ≡ 0
      → install_page P u k writable s
        ≡ (true, record s { world = (P.pagedir_set_page u k writable s.world).1 })
  unfolding install_page
  install_page-ok u k writable s e =
      let free : (P.pagedir_get_page u s.world == 0) ≡ true = ground arith in
      rw (free, room u k writable s.world) refl

  -- The bytes of the frame, in the last two writes of `fill_page`.
  frame_byte :
      (rb pa o : ℕ) (bytes : ℕ → ℕ) (m : Memory)
      → rb ≤ page_size
      → o < page_size
      → copy_to (pa + rb) (minus page_size rb) (λ x. 0) (copy_to pa rb bytes m) (pa + o)
        ≡ (if ltb o rb then bytes o else 0)
  frame_byte rb pa o bytes m l h = let at : pa + o - pa ≡ o = omega arith in rw at (ground arith)

  frame_outside :
      (rb pa a : ℕ) (bytes : ℕ → ℕ) (m : Memory)
      → rb ≤ page_size
      → is_within pa page_size a ≡ false
      → copy_to (pa + rb) (minus page_size rb) (λ x. 0) (copy_to pa rb bytes m) a ≡ m a
  frame_outside rb pa a bytes m l h = ground arith

  module _ (spg : SupPage) (va : ℕ) (s : Paging P) (w : IsPaged P s) (l : IsLoadable spg va s)
      (pa : ℕ) (s1 : Paging P) (f : Framed P maps false s (pa, s1)) where
    -- The state that `load_page` ends in.
    abbrev loaded_state : (ℕ → ℕ) → P.World → Paging P
    loaded_state bytes world = record s1 {
      pools = record s1.pools {
        memory =
            copy_to (pa + spg.read_bytes) (minus page_size spg.read_bytes) (λ o. 0)
              (copy_to pa spg.read_bytes bytes s1.pools.memory);
      };
      world = (P.pagedir_set_page va pa spg.writable world).1;
      sup_page_table = note_loaded va (addr_to_pfno pa) s1.sup_page_table;
    }

    loaded_state-Installed :
        (bytes : ℕ → ℕ) (world : P.World)
        → ((v : ℕ) → P.pagedir_get_page v world ≡ mapping P v s)
        → Installed P va pa s (loaded_state bytes world)
    loaded_state-Installed bytes world gets = record {
      aligned = l.aligned;
      absent = l.absent;
      index = f.given.index;
      in_range = f.given.in_range;
      was_free = f.given.was_free;
      is_page = f.given.is_page;
      filled = f.given.filled;
      same_base = f.given.same_base;
      mappings = λ v al.
          maps.set_get va pa spg.writable world v l.aligned al (room va pa spg.writable world)
          ∙ ap (λ x. if v == va then pa else x) (gets v);
      outside =
          λ a h. frame_outside spg.read_bytes pa a bytes s1.pools.memory l.fits h ∙ f.given.bytes a;
    }

    loaded_state-Loaded :
        (bytes : ℕ → ℕ) (world : P.World)
        → ((v : ℕ) → P.pagedir_get_page v world ≡ mapping P v s)
        → ((o : ℕ) → o < spg.read_bytes → bytes o ≡ exe.content (spg.offset + o))
        → Loaded spg va s (loaded_state bytes world)
    loaded_state-Loaded bytes world gets read =
        let i = loaded_state-Installed bytes world gets in
        let s' = loaded_state bytes world in
        let here : mapping P va s' ≡ pa =
          i.mappings va l.aligned ∙ rw ((==_iff va va).1 refl) refl in
        record {
          paged = Installed-IsPaged P va pa s s' w i;
          present = λ z. absurd (omega (arith, f.given.is_page, w.base_pos, here, z));
          byte = λ a.
              Installed-user_byte P va pa s s' w i a
              ∙ ap (λ x. if page_of a == va then some x else user_byte P a s) (file_byte a);
          in_memory =
              ap (λ t. lookup_page va (note_loaded va (addr_to_pfno pa) t)) f.same_table
              ∙ lookup_page-note_loaded va (addr_to_pfno pa) spg s.sup_page_table l.found
              ∙ ap (λ k. some (in_frame (addr_to_pfno k) spg)) (sym here);
          others = λ v ne.
              lookup_page-note_loaded_other va v (addr_to_pfno pa) s1.sup_page_table ne
              ∙ ap (lookup_page v) f.same_table;
        }
      where
        file_byte :
            (a : ℕ)
            → (loaded_state bytes world).pools.memory (pa + a % page_size) ≡ (
                if ltb (a % page_size) spg.read_bytes
                then exe.content (spg.offset + a % page_size)
                else 0)
        file_byte a = elim (Bool-cases (ltb (a % page_size) spg.read_bytes)) [
          | inl e ↦
              frame_byte spg.read_bytes pa (a % page_size) bytes s1.pools.memory l.fits
                (omega arith)
              ∙ rw e (read (a % page_size) (ground arith))
          | inr e ↦
              frame_byte spg.read_bytes pa (a % page_size) bytes s1.pools.memory l.fits
                (omega arith)
              ∙ rw e refl
        ]

    fill_page-LoadedAs : Returns (LoadedAs spg va s) (fill_page P spg va pa s1)
    fill_page-LoadedAs =
        let got = P.file_read_at spg.offset spg.read_bytes s1.world in
        let all = exe.complete spg.offset spg.read_bytes s1.world l.in_file in
        let full : (spg.read_bytes == spg.read_bytes) ≡ true = ground arith in
        let gets : (v : ℕ) → P.pagedir_get_page v got.1 ≡ mapping P v s =
          λ v. maps.read_get spg.offset spg.read_bytes s1.world v ∙ f.same_mappings v in
        let filled =
          set_memory P
            (copy_to (pa + spg.read_bytes) (minus page_size spg.read_bytes) (λ o. 0)
              (copy_to pa spg.read_bytes got.0.1 s1.pools.memory))
            got.1 s1 in
        rw (all, full)
          (rw (install_page-ok va pa spg.writable filled (gets va ∙ l.absent)) (
            refl,
            loaded_state-Loaded got.0.1 got.1 gets
                λ o h. exe.faithful spg.offset spg.read_bytes s1.world o l.in_file h,
          ))

  pub load_page-LoadedAs :
      (spg : SupPage) (va : ℕ) (s : Paging P)
      → IsPaged P s
      → IsLoadable spg va s
      → HasRoom s.pools
      → Returns (LoadedAs spg va s) (load_page P spg va s)
  unfolding load_page
  load_page-LoadedAs spg va s w l free =
      let rest = frame_map P va false s >>= λ (kpage, s'). fill_page P spg va kpage s' in
      subst (λ b. Returns (LoadedAs spg va s) (assert b >> rest)) (sym l.on_disk)
        (Returns-bind (Framed P maps false s) (LoadedAs spg va s) (frame_map P va false s) _
          (frame_map-Framed P maps va false s w.small free)
          λ (pa, s1) f. fill_page-LoadedAs spg va s w l pa s1 f)
