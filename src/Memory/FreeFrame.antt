-- ===== src/Memory/FreeFrame.antt =====
-- A frame that is given back.
use operating_system_col.Base.{
  ℕ, ◌+◌, ◌-◌, ◌*◌, ◌/◌, ◌%◌, ◌≤◌, ◌<◌, ◌≡◌, refl, sym, ap, ◌∙◌, subst, inl, inr, Bool, true, false,
  Option, none, some, List, [], ◌∷◌, ◌++◌, ◌==◌, ==_iff, arith, Bool-cases,
}
use operating_system_col.Syscall.{word}
use operating_system_col.Syscall.Children.{page_size}
use operating_system_col.Memory.{is_within}
use operating_system_col.Memory.Bitmap.{Bitmap}
use operating_system_col.Memory.Scan.{Filled}
use operating_system_col.Memory.Pool.{Pools}
use operating_system_col.Memory.Paging.{Platform, Paging}
use operating_system_col.Threads.{Run, done, panic, out_of_fuel, ◌>>=◌}
use operating_system_col.Threads.WellFormed.{Returns, Returns-bind}
use operating_system_col.Memory.Bitmap.{bitmap_contains, bitmap_all, bitmap_set_multiple, negate}
use operating_system_col.Memory.Scan.{
  Contained, bitmap_contains-Contained, bitmap_set_multiple-Filled,
}
use operating_system_col.Memory.Pool.{Pool, page_from_pool, palloc_get_page, palloc_free_page}
use operating_system_col.Memory.Paging.{
  Frame, find_frame_by_no, remove_frame, addr_to_pfno, pfno_to_addr, frame_bits, user_page,
  add_frame, map_frame, frame_map, free_found, frame_free,
}
use operating_system_col.Memory.Frames.{Given, HasRoom, Handed, palloc_get_page-Handed}

-- The pools lie one behind the other in memory, which has 2 ^ 32 bytes.
pub record IsLaidOut (p : Pools) : Type 0 where
  pub base_pos : 0 < p.kernel_pool.base
  pub apart : p.kernel_pool.base + p.kernel_pool.used_map.bit_cnt ≤ p.user_pool.base
  pub fits : (p.user_pool.base + p.user_pool.used_map.bit_cnt) * page_size ≤ word

find_frame_by_no-append :
    (fn : ℕ) (fs : List Frame) (f : Frame)
    → find_frame_by_no fn fs ≡ none
    → (f.kpage == fn) ≡ true
    → find_frame_by_no fn (fs ++ f ∷ []) ≡ some f
find_frame_by_no-append fn [] f h e = rw e refl
find_frame_by_no-append fn (x ∷ fs) f h e = elim (Bool-cases (x.kpage == fn)) [
  | inl d ↦ let first : some x ≡ none = (rw d at h) in cc (first)
  | inr d ↦ rw d (find_frame_by_no-append fn fs f (rw d at h) e)
]

remove_frame-append :
    (fn : ℕ) (fs : List Frame) (f : Frame)
    → find_frame_by_no fn fs ≡ none
    → (f.kpage == fn) ≡ true
    → remove_frame fn (fs ++ f ∷ []) ≡ fs
remove_frame-append fn [] f h e = rw e refl
remove_frame-append fn (x ∷ fs) f h e = elim (Bool-cases (x.kpage == fn)) [
  | inl d ↦ let first : some x ≡ none = (rw d at h) in cc (first)
  | inr d ↦ rw d (ap (λ r. x ∷ r) (remove_frame-append fn fs f (rw d at h) e))
]

-- The bit of a page has been cleared.
pub record Freed (i : ℕ) (p p' : Pools) : Type 0 where
  pub filled : Filled i 1 false p.user_pool.used_map p'.user_pool.used_map
  pub same_base : p'.user_pool.base ≡ p.user_pool.base
  pub same_kernel : p'.kernel_pool ≡ p.kernel_pool

all_used :
    (i : ℕ) (b : Bitmap)
    → b.bit_cnt < word
    → i < b.bit_cnt
    → b.bits i ≡ true
    → bitmap_all i 1 b ≡ done true
unfolding bitmap_all
all_used i b small h e =
    found (bitmap_contains i 1 false b)
      (bitmap_contains-Contained i 1 false b small (omega (arith, h)))
  where
    found : (r : Run Bool) → Returns (Contained i 1 false b) r → negate r ≡ done true
    found (done true) (j, l, u, q) =
        let here : j ≡ i = omega (arith, l, u) in
        let clear : b.bits i ≡ false = ap b.bits (sym here) ∙ q in cc (clear, e)
    found (done false) c = refl
    found panic c = absurd c
    found out_of_fuel c = absurd c

palloc_free_page-Freed :
    (i : ℕ) (p : Pools)
    → IsLaidOut p
    → i < p.user_pool.used_map.bit_cnt
    → p.user_pool.used_map.bits i ≡ true
    → Returns (Freed i p) (palloc_free_page ((p.user_pool.base + i) * page_size) p)
unfolding palloc_free_page
palloc_free_page-Freed i p l h e =
    let pages = (p.user_pool.base + i) * page_size in
    let small : p.user_pool.used_map.bit_cnt < word = omega (arith, l.fits, l.base_pos, l.apart) in
    let aligned : (pages % page_size == 0) ≡ true = ground arith in
    let not_null : (pages == 0) ≡ false = ground (arith, l.base_pos, l.apart) in
    let number : pages / page_size ≡ p.user_pool.base + i = omega arith in
    let index : p.user_pool.base + i - p.user_pool.base ≡ i = omega arith in
    let not_kernel : page_from_pool p.kernel_pool pages ≡ false = ground (arith, l.apart) in
    let user : page_from_pool p.user_pool pages ≡ true = ground arith in
    rw
      (
        aligned,
        not_null,
        not_kernel,
        user,
        number,
        index,
        all_used i p.user_pool.used_map small h e,
      )
      (Returns-bind (Filled i 1 false p.user_pool.used_map) (Freed i p)
        (bitmap_set_multiple i 1 false p.user_pool.used_map) _
        (bitmap_set_multiple-Filled i 1 false p.user_pool.used_map small (omega (arith, h)))
        λ b f. record { filled = f; same_base = refl; same_kernel = refl })

module _ (P : Platform) where
  -- No frame of the table has the number of a page that is free.
  abbrev pub NotStale : Paging P → Type 0
  NotStale s =
      (i : ℕ)
      → i < s.pools.user_pool.used_map.bit_cnt
      → s.pools.user_pool.used_map.bits i ≡ false
      → find_frame_by_no (s.pools.user_pool.base + i) s.allframes ≡ none

  -- The pools, the frames and the supplemental page table are as before, and the count of frames is one
  -- more. Of the memory of the page nothing is said.
  pub record Restored (s s' : Paging P) : Type 0 where
    pub same_cnt : s'.pools.user_pool.used_map.bit_cnt ≡ s.pools.user_pool.used_map.bit_cnt
    pub same_bits : (j : ℕ) → s'.pools.user_pool.used_map.bits j ≡ s.pools.user_pool.used_map.bits j
    pub same_base : s'.pools.user_pool.base ≡ s.pools.user_pool.base
    pub same_kernel : s'.pools.kernel_pool ≡ s.pools.kernel_pool
    pub same_frames : s'.allframes ≡ s.allframes
    pub same_table : s'.sup_page_table ≡ s.sup_page_table
    pub counted : s'.frame_count ≡ s.frame_count + 1

  module _ (va : ℕ) (zeroed : Bool) (s : Paging P) (l : IsLaidOut s.pools)
      (allocates : (P.malloc s.world).0 ≡ true) (fresh : NotStale s) where
    same_bit :
        (i j : ℕ) (b0 b1 b2 : Bitmap)
        → b0.bits i ≡ false
        → Filled i 1 true b0 b1
        → Filled i 1 false b1 b2
        → b2.bits j ≡ b0.bits j
    same_bit i j b0 b1 b2 e f g = elim (Bool-cases (j == i)) [
      | inl d ↦
          let here : j ≡ i = (==_iff j i).0 d in
          let inside : is_within i 1 j ≡ true = ground arith in
          g.each j ∙ rw inside (sym e ∙ ap b0.bits (sym here))
      | inr d ↦
          let outside : is_within i 1 j ≡ false = ground arith in
          g.each j ∙ rw outside (f.each j ∙ rw outside refl)
    ]

    freed :
        (pa : ℕ) (pools : Pools)
        → Given zeroed s.pools pa pools
        → Returns (Restored s) (frame_free P pa (add_frame P pa va (record s { pools = pools })))
    unfolding frame_free
    freed pa pools g =
        let s1 = add_frame P pa va (record s { pools = pools }) in
        let number : addr_to_pfno pa ≡ s.pools.user_pool.base + g.index =
          omega (arith, g.is_page) in
        let f : Frame = record {
          owner = s.owner;
          kpage = addr_to_pfno pa % frame_bits;
          upage = addr_to_pfno va % frame_bits;
        } in
        let small : addr_to_pfno pa % frame_bits ≡ addr_to_pfno pa =
          omega (arith, number, l.fits, g.in_range) in
        let own : (f.kpage == addr_to_pfno pa) ≡ true = ground (arith, small) in
        let no_stale : find_frame_by_no (addr_to_pfno pa) s.allframes ≡ none =
          ap (λ n. find_frame_by_no n s.allframes) number ∙ fresh g.index g.in_range g.was_free in
        let same_fn : s1.allframes ≡ s.allframes ++ f ∷ [] = rw allocates refl in
        let found =
          ap (find_frame_by_no (addr_to_pfno pa)) same_fn
          ∙ find_frame_by_no-append (addr_to_pfno pa) s.allframes f no_stale own in
        let address : pfno_to_addr f.kpage ≡ (pools.user_pool.base + g.index) * page_size =
          omega (arith, small, number, l.fits, g.in_range, g.same_base) in
        let laid : IsLaidOut pools = record {
          base_pos = subst (λ (k : Pool). 0 < k.base) (sym g.same_kernel) l.base_pos;
          apart =
              subst (λ (k : Pool). k.base + k.used_map.bit_cnt ≤ pools.user_pool.base)
                (sym g.same_kernel) (omega (arith, l.apart, g.same_base));
          fits = omega (arith, l.fits, g.same_base, g.filled.same_cnt);
        } in
        let frees =
          palloc_free_page-Freed g.index pools laid (omega (arith, g.in_range, g.filled.same_cnt)) (
            g.filled.each g.index
            ∙ (let inside : is_within g.index 1 g.index ≡ true = ground arith in rw inside refl)) in
        let same_pools : s1.pools ≡ pools = rw allocates refl in
        let freed_here =
          subst (λ p. Returns (Freed g.index pools) (palloc_free_page (pfno_to_addr f.kpage) p))
            (sym same_pools)
            (subst (λ a. Returns (Freed g.index pools) (palloc_free_page a pools)) (sym address)
              frees) in
        subst (λ o. Returns (Restored s) (free_found P (addr_to_pfno pa) o s1)) (sym found)
          (Returns-bind (Freed g.index pools) (Restored s)
            (palloc_free_page (pfno_to_addr f.kpage) s1.pools) _ freed_here
            λ p' q. record {
              same_cnt = q.filled.same_cnt ∙ g.filled.same_cnt;
              same_bits = λ j.
                  same_bit g.index j s.pools.user_pool.used_map pools.user_pool.used_map
                    p'.user_pool.used_map g.was_free g.filled q.filled;
              same_base = q.same_base ∙ g.same_base;
              same_kernel = q.same_kernel ∙ g.same_kernel;
              same_frames =
                  ap (remove_frame (addr_to_pfno pa)) same_fn
                  ∙ remove_frame-append (addr_to_pfno pa) s.allframes f no_stale own;
              same_table = rw allocates refl;
              counted = rw allocates refl;
            })

    map_free :
        (out : Option ℕ × Pools)
        → HasRoom s.pools
        → Handed zeroed s.pools out
        → Returns (Restored s) (map_frame P va out s >>= λ (pa, s1). frame_free P pa s1)
    map_free (none, pools) room h = absurd (h.1 room)
    map_free (some pa, pools) room g = freed pa pools g

    -- With pools that lie one behind the other, a free page, memory for the entry, and no frame of the
    -- table at a free page, `frame_free` of the page that `frame_map` has just given gives everything
    -- back: the pools, the frames and the supplemental page table are as before, whether the page was
    -- zeroed or not. But the count of the frame table has grown by one.
    pub frame_free-frame_map :
        HasRoom s.pools
        → Returns (Restored s) (frame_map P va zeroed s >>= λ (pa, s1). frame_free P pa s1)
    unfolding frame_map
    frame_free-frame_map room =
        let small : s.pools.user_pool.used_map.bit_cnt < word =
          omega (arith, l.fits, l.base_pos, l.apart) in
        bind_assoc (palloc_get_page (user_page zeroed) s.pools)
          (palloc_get_page-Handed zeroed s.pools small) room
      where
        bind_assoc :
            (r : Run (Option ℕ × Pools))
            → Returns (Handed zeroed s.pools) r
            → HasRoom s.pools
            → Returns
                (Restored s)
                ((r >>= λ out. map_frame P va out s) >>= λ (pa, s1). frame_free P pa s1)
        bind_assoc (done out) h room = map_free out room h
        bind_assoc panic h room = absurd h
        bind_assoc out_of_fuel h room = absurd h
