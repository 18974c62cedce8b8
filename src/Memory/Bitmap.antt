-- ===== src/Memory/Bitmap.antt =====
-- lib/kernel/bitmap.c, on the sequence of the bits. A bit past an array of words is not modelled: the
-- functions that meet one fail an `ASSERT` before. Indices are words.
use operating_system_col.Base.{
  ℕ, zero, suc, ◌+◌, ◌-◌, ◌%◌, Bool, true, false, not, Option, none, some, ltb, leb, ◌==◌,
  if◌then◌else◌,
}
use operating_system_col.Threads.{Run, done, ◌>>=◌, ◌>>◌, assert}
use operating_system_col.Syscall.{word}

-- `struct bitmap`
pub record Bitmap : Type 0 where
  pub bit_cnt : ℕ
  pub bits : ℕ → Bool

-- Equality of truth values.
abbrev pub is : Bool → Bool → Bool
is true b = b
is false b = not b

abbrev pub write_bit : ℕ → Bool → Bitmap → Bitmap
write_bit idx v b = record b { bits = λ j. if j == idx then v else b.bits j }

unfoldable pub bitmap_mark : ℕ → Bitmap → Bitmap
bitmap_mark idx b = write_bit idx true b

unfoldable pub bitmap_reset : ℕ → Bitmap → Bitmap
bitmap_reset idx b = write_bit idx false b

unfoldable pub bitmap_set : ℕ → Bool → Bitmap → Run Bitmap
unfolding bitmap_mark bitmap_reset
bitmap_set idx value b =
    assert (ltb idx b.bit_cnt) >> done (if value then bitmap_mark idx b else bitmap_reset idx b)

abbrev pub bitmap_test : ℕ → Bitmap → Run Bool
bitmap_test idx b = assert (ltb idx b.bit_cnt) >> done (b.bits idx)

-- The `ASSERT`s of the functions on several bits. The sum of two words wraps around.
abbrev pub check_range : ℕ → ℕ → Bitmap → Run (Unit {0})
check_range start cnt b =
    assert (leb start b.bit_cnt) >> assert (leb ((start + cnt) % word) b.bit_cnt)

-- The loops, with the bits that are left and the next index.
unfoldable pub set_from : ℕ → ℕ → Bool → Bitmap → Run Bitmap
set_from zero idx value b = done b
set_from (suc n) idx value b = bitmap_set idx value b >>= set_from n (suc idx) value

unfoldable pub bitmap_set_multiple : ℕ → ℕ → Bool → Bitmap → Run Bitmap
bitmap_set_multiple start cnt value b = check_range start cnt b >> set_from cnt start value b

unfoldable pub count_from : ℕ → ℕ → Bool → ℕ → Bitmap → Run ℕ
count_from zero idx value value_cnt b = done value_cnt
count_from (suc n) idx value value_cnt b = bitmap_test idx b >>= λ bit.
    count_from n (suc idx) value (if is bit value then value_cnt + 1 else value_cnt) b

unfoldable pub bitmap_count : ℕ → ℕ → Bool → Bitmap → Run ℕ
bitmap_count start cnt value b = check_range start cnt b >> count_from cnt start value 0 b

unfoldable pub contains_from : ℕ → ℕ → Bool → Bitmap → Run Bool
contains_from zero idx value b = done false
contains_from (suc n) idx value b = bitmap_test idx b >>= λ bit. elim (is bit value) [
  | true ↦ done true
  | false ↦ contains_from n (suc idx) value b
]

unfoldable pub bitmap_contains : ℕ → ℕ → Bool → Bitmap → Run Bool
bitmap_contains start cnt value b = check_range start cnt b >> contains_from cnt start value b

abbrev pub negate : Run Bool → Run Bool
negate r = r >>= λ found. done (not found)

unfoldable pub bitmap_any : ℕ → ℕ → Bitmap → Run Bool
bitmap_any start cnt b = bitmap_contains start cnt true b

unfoldable pub bitmap_none : ℕ → ℕ → Bitmap → Run Bool
bitmap_none start cnt b = negate (bitmap_contains start cnt true b)

unfoldable pub bitmap_all : ℕ → ℕ → Bitmap → Run Bool
bitmap_all start cnt b = negate (bitmap_contains start cnt false b)

-- The loop of `bitmap_scan`, with the starts that are left and the next one. `none` is
-- `BITMAP_ERROR`.
unfoldable pub scan_from : ℕ → ℕ → ℕ → Bool → Bitmap → Run (Option ℕ)
scan_from zero i cnt value b = done none
scan_from (suc n) i cnt value b = bitmap_contains i cnt (not value) b >>= λ other. elim other [
  | false ↦ done (some i)
  | true ↦ scan_from n (suc i) cnt value b
]

-- The starts are those from `start` to `bit_cnt - cnt`.
unfoldable pub bitmap_scan : ℕ → ℕ → Bool → Bitmap → Run (Option ℕ)
bitmap_scan start cnt value b =
    assert (leb start b.bit_cnt)
    >> (if leb cnt b.bit_cnt
        then scan_from (b.bit_cnt - cnt + 1 - start) start cnt value b
        else done none)

abbrev pub flip_found : Option ℕ → ℕ → Bool → Bitmap → Run (Option ℕ × Bitmap)
flip_found none cnt value b = done (none, b)
flip_found (some idx) cnt value b =
    bitmap_set_multiple idx cnt (not value) b >>= λ b'. done (some idx, b')

unfoldable pub bitmap_scan_and_flip : ℕ → ℕ → Bool → Bitmap → Run (Option ℕ × Bitmap)
bitmap_scan_and_flip start cnt value b =
    bitmap_scan start cnt value b >>= λ idx. flip_found idx cnt value b

-- `bitmap_create`, in the memory that `malloc` has given.
unfoldable pub bitmap_create : ℕ → (ℕ → Bool) → Run Bitmap
bitmap_create bit_cnt garbage =
    bitmap_set_multiple 0 bit_cnt false (record { bit_cnt = bit_cnt; bits = garbage })
