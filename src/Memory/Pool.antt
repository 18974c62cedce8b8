-- ===== src/Memory/Pool.antt =====
-- threads/palloc.c: the pools of pages. The lock of a pool is the atomicity of one call. The addresses
-- of a pool do not wrap around.
use operating_system_col.Base.{
  ℕ, ◌+◌, ◌-◌, ◌*◌, ◌/◌, ◌%◌, Bool, true, false, not, Option, none, some, ltb, ◌==◌, ◌&&◌, ◌||◌,
  if◌then◌else◌,
}
use operating_system_col.Threads.{Run, done, panic, ◌>>=◌, ◌>>◌, assert}
use operating_system_col.Syscall.Children.{page_size}
use operating_system_col.Memory.{Memory, copy_to}
use operating_system_col.Memory.Bitmap.{
  Bitmap, bitmap_scan_and_flip, bitmap_all, bitmap_set_multiple,
}

-- `enum palloc_flags`
pub record Flags : Type 0 where
  pub pal_assert : Bool
  pub pal_zero : Bool
  pub pal_user : Bool

-- `struct pool`, with the number of the page at its base.
pub record Pool : Type 0 where
  pub base : ℕ
  pub used_map : Bitmap

-- Both pools, and the memory of the kernel.
pub record Pools : Type 0 where
  pub kernel_pool : Pool
  pub user_pool : Pool
  pub memory : Memory

abbrev pub set_used : Bool → Bitmap → Pools → Pools
set_used true b p = record p { user_pool = record p.user_pool { used_map = b } }
set_used false b p = record p { kernel_pool = record p.kernel_pool { used_map = b } }

abbrev pub pool_of : Bool → Pools → Pool
pool_of true p = p.user_pool
pool_of false p = p.kernel_pool

-- `none` is NULL.
abbrev pub hand_out : Flags → ℕ → Option ℕ × Bitmap → Pools → Run (Option ℕ × Pools)
hand_out flags page_cnt (none, b) p =
    assert (not flags.pal_assert) >> done (none, set_used flags.pal_user b p)
hand_out flags page_cnt (some page_idx, b) p =
    let pages = ((pool_of flags.pal_user p).base + page_idx) * page_size in
    let p' = set_used flags.pal_user b p in
    done (
      some pages,
      if flags.pal_zero
          then record p' { memory = copy_to pages (page_size * page_cnt) (λ o. 0) p'.memory }
          else p',
    )

unfoldable pub palloc_get_multiple : Flags → ℕ → Pools → Run (Option ℕ × Pools)
palloc_get_multiple flags page_cnt p =
    if page_cnt == 0
    then done (none, p)
    else (bitmap_scan_and_flip 0 page_cnt false (pool_of flags.pal_user p).used_map >>= λ found.
        hand_out flags page_cnt found p)

unfoldable pub palloc_get_page : Flags → Pools → Run (Option ℕ × Pools)
unfolding palloc_get_multiple
palloc_get_page flags p = palloc_get_multiple flags 1 p

abbrev pub page_from_pool : Pool → ℕ → Bool
page_from_pool pool page =
    let page_no = page / page_size in
    not (ltb page_no pool.base) && ltb page_no (pool.base + pool.used_map.bit_cnt)

-- The pages of one pool go back.
abbrev pub give_back : Bool → ℕ → ℕ → Pools → Run Pools
give_back user pages page_cnt p =
    let pool = pool_of user p in
    let page_idx = pages / page_size - pool.base in
    bitmap_all page_idx page_cnt pool.used_map >>= λ used.
    assert used
    >> (bitmap_set_multiple page_idx page_cnt false pool.used_map >>= λ b. done (
        set_used user b
          (record p { memory = copy_to pages (page_size * page_cnt) (λ o. 204) p.memory })))

unfoldable pub palloc_free_multiple : ℕ → ℕ → Pools → Run Pools
palloc_free_multiple pages page_cnt p =
    assert (pages % page_size == 0)
    >> (if pages == 0 || page_cnt == 0
        then done p
        else if page_from_pool p.kernel_pool pages
        then give_back false pages page_cnt p
        else if page_from_pool p.user_pool pages
        then give_back true pages page_cnt p
        else panic)

unfoldable pub palloc_free_page : ℕ → Pools → Run Pools
unfolding palloc_free_multiple
palloc_free_page page p = palloc_free_multiple page 1 p
