-- ===== src/Memory/Sectors.antt =====
-- The loops of vm/swap.c over the sectors of a page.
use operating_system_col.Base.{
  ℕ, zero, suc, ◌+◌, ◌-◌, ◌*◌, ◌/◌, ◌%◌, ◌≤◌, ◌<◌, ◌≡◌, refl, ap, ◌∙◌, inl, inr, true, false, ◌==◌,
  if◌then◌else◌, arith, Bool-cases,
}
use operating_system_col.Syscall.{word}
use operating_system_col.Memory.{Memory, is_within, copy_to}
use operating_system_col.Memory.Swap.{sector_size, Block, write_from, read_from}

-- A block device keeps what is written: a sector reads as it was last written, and reading changes
-- no sector.
pub record Keeps (B : Block) : Type 0 where
  pub read_write :
      (i j : ℕ) (bytes : ℕ → ℕ) (w : B.World) (o : ℕ)
      → o < sector_size
      → (B.block_read i (B.block_write j bytes w)).0 o
        ≡ (if i == j then bytes o else (B.block_read i w).0 o)
  pub read_read :
      (i j : ℕ) (w : B.World) (o : ℕ)
      → o < sector_size
      → (B.block_read i (B.block_read j w).1).0 o ≡ (B.block_read i w).0 o

module _ (B : Block) (keeps : Keeps B) where
  abbrev pub sector : ℕ → B.World → ℕ → ℕ
  sector t w = (B.block_read t w).0

  -- What is on the device after the loop of `swap_out`.
  pub write_from-sector :
      (n i base kpage : ℕ) (m : Memory) (w : B.World) (t o : ℕ)
      → base + i + n ≤ word
      → o < sector_size
      → sector t (write_from B n i base kpage m w) o ≡ (
          if is_within (base + i) n t
          then m (kpage + (t - base) * sector_size + o)
          else sector t w o)
  unfolding write_from
  write_from-sector zero i base kpage m w t o h l = ground arith
  write_from-sector (suc n) i base kpage m w t o h l =
      let no_wrap : (base + i) % word ≡ base + i = omega (arith, h) in
      let bytes : ℕ → ℕ = λ x. m (kpage + i * sector_size + x) in
      let next =
        write_from-sector n (suc i) base kpage m (B.block_write ((base + i) % word) bytes w) t o
          (omega (arith, h)) l in
      let written = keeps.read_write t ((base + i) % word) bytes w o l in
      elim (Bool-cases (t == base + i)) [
        | inl e ↦
            let here : t ≡ base + i = ground arith in
            let at : t - base ≡ i = omega (arith, here) in
            let before : is_within (base + suc i) n t ≡ false = ground arith in
            let inside : is_within (base + i) (suc n) t ≡ true = ground arith in
            next ∙ rw (before, inside, at) (written ∙ rw (no_wrap, e) refl)
        | inr e ↦
            let same : is_within (base + i) (suc n) t ≡ is_within (base + suc i) n t =
              ground arith in
            next
            ∙ rw (same) (
                ap
                  (λ x.
                    if is_within (base + suc i) n t
                    then m (kpage + (t - base) * sector_size + o)
                    else x)
                  (written ∙ rw (no_wrap, e) refl))
      ]

  -- What is in memory after the loop of `swap_in`.
  pub read_from-memory :
      (n i base kpage : ℕ) (m : Memory) (w : B.World) (a : ℕ)
      → base + i + n ≤ word
      → (read_from B n i base kpage m w).0 a ≡ (
          if is_within (kpage + i * sector_size) (n * sector_size) a
          then sector (base + (a - kpage) / sector_size) w ((a - kpage) % sector_size)
          else m a)
  unfolding read_from
  read_from-memory zero i base kpage m w a h = ground arith
  read_from-memory (suc n) i base kpage m w a h =
      let no_wrap : (base + i) % word ≡ base + i = omega (arith, h) in
      let t = base + (a - kpage) / sector_size in
      let o = (a - kpage) % sector_size in
      let w' = (B.block_read ((base + i) % word) w).1 in
      let m' = copy_to (kpage + i * sector_size) sector_size (sector ((base + i) % word) w) m in
      let next = read_from-memory n (suc i) base kpage m' w' a (omega (arith, h)) in
      let kept = keeps.read_read t ((base + i) % word) w o (omega arith) in
      let here = is_within (kpage + i * sector_size) sector_size a in
      let rest = is_within (kpage + suc i * sector_size) (n * sector_size) a in
      elim (Bool-cases here) [
        | inl e ↦
            let after : rest ≡ false = ground arith in
            let all : is_within (kpage + i * sector_size) (suc n * sector_size) a ≡ true =
              ground arith in
            let at : t ≡ base + i = ground arith in
            let offset : o ≡ a - (kpage + i * sector_size) = ground arith in
            next ∙ rw (after, e, all, at, offset, no_wrap) refl
        | inr e ↦
            let same : is_within (kpage + i * sector_size) (suc n * sector_size) a ≡ rest =
              ground arith in
            next ∙ rw (e, same) (ap (λ x. if rest then x else m a) kept)
      ]
