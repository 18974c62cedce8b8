-- ===== src/Memory/Frames.antt =====
-- A frame for a page.
use operating_system_col.Base.{
  ℕ, ◌+◌, ◌*◌, ◌<◌, ◌≡◌, refl, sym, ap, ◌∙◌, inl, inr, Bool, true, false, ◌&&◌, Option, none, some,
  if◌then◌else◌, arith, Bool-cases,
}
use operating_system_col.Syscall.{word}
use operating_system_col.Syscall.Children.{page_size}
use operating_system_col.Memory.{Memory, is_within}
use operating_system_col.Memory.Bitmap.{Bitmap}
use operating_system_col.Memory.Scan.{Filled}
use operating_system_col.Memory.Pool.{Pools}
use operating_system_col.Memory.Paging.{Platform, Paging}
use operating_system_col.Threads.WellFormed.{Returns, Returns-bind}
use operating_system_col.Memory.{copy_to}
use operating_system_col.Memory.Bitmap.{bitmap_scan_and_flip}
use operating_system_col.Memory.Scan.{Flipped, Somewhere, bitmap_scan_and_flip-Flipped}
use operating_system_col.Memory.Pool.{hand_out, palloc_get_page}
use operating_system_col.Memory.Paging.{user_page, add_frame, map_frame, frame_map}
use operating_system_col.Memory.View.{Maps, mapping}

-- The free page that the allocator has handed out.
pub record Given (zeroed : Bool) (p : Pools) (pa : ℕ) (p' : Pools) : Type 0 where
  pub index : ℕ
  pub in_range : index < p.user_pool.used_map.bit_cnt
  pub was_free : p.user_pool.used_map.bits index ≡ false
  pub is_page : pa ≡ (p.user_pool.base + index) * page_size
  pub filled : Filled index 1 true p.user_pool.used_map p'.user_pool.used_map
  pub same_base : p'.user_pool.base ≡ p.user_pool.base
  pub same_kernel : p'.kernel_pool ≡ p.kernel_pool
  pub bytes : (a : ℕ) → p'.memory a ≡ (if zeroed && is_within pa page_size a then 0 else p.memory a)

abbrev pub HasRoom : Pools → Type 0
HasRoom p = Somewhere 0 p.user_pool.used_map.bit_cnt false p.user_pool.used_map

abbrev pub Handed : Bool → Pools → Option ℕ × Pools → Type 0
Handed zeroed p (some pa, p') = Given zeroed p pa p'
Handed zeroed p (none, p') = (p' ≡ p) × (HasRoom p → ⊥)

zeroed_bytes :
    (zeroed : Bool) (pa : ℕ) (m : Memory) (a : ℕ)
    → (if zeroed then copy_to pa page_size (λ o. 0) m else m) a
      ≡ (if zeroed && is_within pa page_size a then 0 else m a)
zeroed_bytes true pa m a = refl
zeroed_bytes false pa m a = refl

hand_out-Handed :
    (zeroed : Bool) (p : Pools) (out : Option ℕ × Bitmap)
    → Flipped 0 1 false p.user_pool.used_map out
    → Returns (Handed zeroed p) (hand_out (user_page zeroed) 1 out p)
hand_out-Handed zeroed p (none, b) (f, same) = (
  ap (λ x. record p { user_pool = record p.user_pool { used_map = x } }) same,
  λ (i, l, h, e).
      let (j, u, v, q) = f i (omega arith) (omega (arith, h)) in
      let here : j ≡ i = omega (arith, u, v) in
      let taken : p.user_pool.used_map.bits i ≡ true =
        ap p.user_pool.used_map.bits (sym here) ∙ q in
      cc (e, taken),
)
hand_out-Handed true p (some i, b) (f, filled) = record {
  index = i;
  in_range = omega (arith, f.inside);
  was_free = f.group i (omega arith) (omega arith);
  is_page = refl;
  filled = filled;
  same_base = refl;
  same_kernel = refl;
  bytes = λ a. refl;
}
hand_out-Handed false p (some i, b) (f, filled) = record {
  index = i;
  in_range = omega (arith, f.inside);
  was_free = f.group i (omega arith) (omega arith);
  is_page = refl;
  filled = filled;
  same_base = refl;
  same_kernel = refl;
  bytes = λ a. refl;
}

-- `palloc_get_page` from the user pool ends with no `ASSERT` failed. It hands out a page that was
-- free, marks that page only, and zeroes it if asked to; it returns NULL only if no page is free.
pub palloc_get_page-Handed :
    (zeroed : Bool) (p : Pools)
    → p.user_pool.used_map.bit_cnt < word
    → Returns (Handed zeroed p) (palloc_get_page (user_page zeroed) p)
unfolding palloc_get_page
palloc_get_page-Handed zeroed p small =
    Returns-bind (Flipped 0 1 false p.user_pool.used_map) (Handed zeroed p)
      (bitmap_scan_and_flip 0 1 false p.user_pool.used_map) _
      (bitmap_scan_and_flip-Flipped 0 1 false p.user_pool.used_map (omega arith) small
        (omega arith))
      λ out f. hand_out-Handed zeroed p out f

module _ (P : Platform) (maps : Maps P) where
  -- The state after `frame_map`.
  pub record Framed (zeroed : Bool) (s : Paging P) (out : ℕ × Paging P) : Type 0 where
    pub given : Given zeroed s.pools out.0 out.1.pools
    pub same_table : out.1.sup_page_table ≡ s.sup_page_table
    pub same_mappings : (v : ℕ) → mapping P v out.1 ≡ mapping P v s

  add_frame-Framed :
      (zeroed : Bool) (va pa : ℕ) (s : Paging P) (pools : Pools)
      → Given zeroed s.pools pa pools
      → Framed zeroed s (pa, add_frame P pa va (record s { pools = pools }))
  add_frame-Framed zeroed va pa s pools g = elim (Bool-cases (P.malloc s.world).0) [
    | inl e ↦ record {
      given = rw e g;
      same_table = rw e refl;
      same_mappings = λ v. rw e (maps.malloc_get s.world v);
    }
    | inr e ↦ record {
      given = rw e g;
      same_table = rw e refl;
      same_mappings = λ v. rw e (maps.malloc_get s.world v);
    }
  ]

  -- With a free page in the user pool, `frame_map` does not panic.
  pub frame_map-Framed :
      (va : ℕ) (zeroed : Bool) (s : Paging P)
      → s.pools.user_pool.used_map.bit_cnt < word
      → HasRoom s.pools
      → Returns (Framed zeroed s) (frame_map P va zeroed s)
  unfolding frame_map
  frame_map-Framed va zeroed s small room =
      Returns-bind (Handed zeroed s.pools) (Framed zeroed s)
        (palloc_get_page (user_page zeroed) s.pools) _ (palloc_get_page-Handed zeroed s.pools small)
        λ out h. given out h
    where
      given :
          (out : Option ℕ × Pools)
          → Handed zeroed s.pools out
          → Returns (Framed zeroed s) (map_frame P va out s)
      given (none, pools) h = absurd (h.1 room)
      given (some pa, pools) g = add_frame-Framed zeroed va pa s pools g
