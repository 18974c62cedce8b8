-- ===== src/Memory/Swap.antt =====
-- vm/swap.c: pages of memory on the swap partition. `swap_lock` is the atomicity of one call.
use operating_system_col.Base.{
  ℕ, zero, suc, ◌+◌, ◌*◌, ◌/◌, ◌%◌, Bool, true, false, Option, none, some,
}
use operating_system_col.Threads.{Run, done, ◌>>=◌}
use operating_system_col.Syscall.{word}
use operating_system_col.Syscall.Children.{page_size}
use operating_system_col.Memory.{Memory, copy_to}
use operating_system_col.Memory.Bitmap.{
  Bitmap, bitmap_create, bitmap_set_multiple, bitmap_scan_and_flip, bitmap_contains, bitmap_mark,
}

-- `BLOCK_SECTOR_SIZE`
abbrev pub sector_size : ℕ
sector_size = 512

abbrev pub sectors_per_page : ℕ
sectors_per_page = page_size / sector_size

-- The block device under the swap partition. A sector is its bytes by offset.
pub record Block : Type 1 where
  pub World : Type 0
  pub block_size : World → ℕ
  pub block_read : ℕ → World → (ℕ → ℕ) × World
  pub block_write : ℕ → (ℕ → ℕ) → World → World

pub record Swap (B : Block) : Type 0 where
  pub freemap : Bitmap
  pub memory : Memory
  pub world : B.World

module _ (B : Block) where
  -- `swap_init` with a swap partition. A bit that is set is a page that is free.
  unfoldable pub swap_init : (ℕ → Bool) → Memory → B.World → Run (Swap B)
  swap_init garbage memory w =
      let npgswp = B.block_size w / sectors_per_page in
      bitmap_create npgswp garbage >>= λ b. bitmap_set_multiple 0 b.bit_cnt true b >>= λ b'.
      done (record { freemap = b'; memory = memory; world = w })

  -- The loop of `swap_out`, with the sectors that are left and the next one.
  unfoldable pub write_from : ℕ → ℕ → ℕ → ℕ → Memory → B.World → B.World
  write_from zero i swap_offset kpage m w = w
  write_from (suc n) i swap_offset kpage m w =
      write_from n (suc i) swap_offset kpage m
        (B.block_write ((swap_offset + i) % word) (λ o. m (kpage + i * sector_size + o)) w)

  -- And that of `swap_in`.
  unfoldable pub read_from : ℕ → ℕ → ℕ → ℕ → Memory → B.World → Memory × B.World
  read_from zero i swap_offset kpage m w = (m, w)
  read_from (suc n) i swap_offset kpage m w =
      let (bytes, w') = B.block_read ((swap_offset + i) % word) w in
      read_from n (suc i) swap_offset kpage (copy_to (kpage + i * sector_size) sector_size bytes m)
        w'

  abbrev pub store_page : ℕ → Option ℕ × Bitmap → Swap B → Run (Option ℕ × Swap B)
  store_page kpage (none, b) s = done (none, record s { freemap = b })
  store_page kpage (some index, b) s = done (
    some index,
    record s {
      freemap = b;
      world =
          write_from sectors_per_page 0 (index * sectors_per_page % word) kpage s.memory s.world;
    },
  )

  unfoldable pub swap_out : ℕ → Swap B → Run (Option ℕ × Swap B)
  swap_out kpage s = bitmap_scan_and_flip 0 1 true s.freemap >>= λ found. store_page kpage found s

  abbrev pub fetch_page : ℕ → ℕ → Bool → Swap B → Bool × Swap B
  fetch_page page_index kpage false s = (false, s)
  fetch_page page_index kpage true s =
      let (m, w) =
        read_from sectors_per_page 0 (page_index * sectors_per_page % word) kpage s.memory
          s.world in
      (true, record s { memory = m; world = w })

  unfoldable pub swap_in : ℕ → ℕ → Swap B → Run (Bool × Swap B)
  swap_in page_index kpage s = bitmap_contains page_index 1 false s.freemap >>= λ stored.
      done (fetch_page page_index kpage stored s)

  unfoldable pub swap_free : ℕ → Swap B → Swap B
  swap_free page_index s = record s { freemap = bitmap_mark page_index s.freemap }
