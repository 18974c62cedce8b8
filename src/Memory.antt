-- ===== src/Memory.antt =====
-- Memory in G/A4/Pintos: the bits that allocators go by, the pool of user pages, the swap partition,
-- and the pages of a process.
pub mod Bitmap
pub mod Scan
pub mod Swap
pub mod Sectors
pub mod Slots
pub mod Fetch
pub mod Pool
pub mod Paging
pub mod View
pub mod Frames
pub mod Load
pub mod Fault
pub mod Segment
pub mod Stack
pub mod FreeFrame
pub mod Tests
use operating_system_col.Base.{ℕ, ◌+◌, ◌-◌, ◌*◌, Bool, ltb, ◌&&◌, not, if◌then◌else◌}

-- The bytes at the addresses of the kernel.
abbrev pub Memory : Type 0
Memory = ℕ → ℕ

-- The addresses from `start` to `start + n - 1`.
abbrev pub is_within : ℕ → ℕ → ℕ → Bool
is_within start n a = not (ltb a start) && ltb a (start + n)

-- `n` bytes copied to `start`, or set to one value by `memset`.
abbrev pub copy_to : ℕ → ℕ → (ℕ → ℕ) → Memory → Memory
copy_to start n bytes m = λ a. if is_within start n a then bytes (a - start) else m a
