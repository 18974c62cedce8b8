-- ===== src/Loader.antt =====
-- The program headers of userprog/process.c of G/A4/Pintos: which segments are loaded, and where.
-- Words of 32 bits are natural numbers below 2 ^ 32.
pub mod Fits
pub mod Pages
pub mod Lazy
pub mod Arguments
pub mod Layout
pub mod Frame
pub mod Main
pub mod Program
pub mod Safe
pub mod Tokens
pub mod Tests
use operating_system_col.Base.{
  ℕ, ◌+◌, ◌-◌, ◌*◌, ◌/◌, ◌%◌, Bool, true, false, not, ◌&&◌, ◌||◌, ltb, ◌==◌, if◌then◌else◌,
}
use operating_system_col.Syscall.{word}
use operating_system_col.Syscall.Children.{page_size}
use operating_system_col.Syscall.Address.{phys_base, page_of}

-- `struct Elf32_Phdr`
pub record ProgramHeader : Type 0 where
  pub p_type : ℕ
  pub p_offset : ℕ
  pub p_vaddr : ℕ
  pub p_paddr : ℕ
  pub p_filesz : ℕ
  pub p_memsz : ℕ
  pub p_flags : ℕ
  pub p_align : ℕ

-- `file_length` is the length of the file.
unfoldable pub validate_segment : ProgramHeader → ℕ → Bool
validate_segment phdr file_length =
    if not (phdr.p_offset % page_size == phdr.p_vaddr % page_size)
    then false
    else if ltb file_length phdr.p_offset
    then false
    else if ltb phdr.p_memsz phdr.p_filesz
    then false
    else if phdr.p_memsz == 0
    then false
    else if not (ltb phdr.p_vaddr phys_base)
    then false
    else if not (ltb ((phdr.p_vaddr + phdr.p_memsz) % word) phys_base)
    then false
    else if ltb ((phdr.p_vaddr + phdr.p_memsz) % word) phdr.p_vaddr
    then false
    else if ltb phdr.p_vaddr page_size
    then false
    else true

-- `ROUND_UP(x, PGSIZE)` on words
abbrev pub round_up : ℕ → ℕ
round_up x = (x + (page_size - 1)) % word / page_size * page_size

-- What `load` computes for a segment.
pub record Segment : Type 0 where
  pub writable : Bool
  pub file_page : ℕ
  pub mem_page : ℕ
  pub read_bytes : ℕ
  pub zero_bytes : ℕ

abbrev pub page_offset : ProgramHeader → ℕ
page_offset phdr = phdr.p_vaddr % page_size

abbrev pub segment_read : ProgramHeader → ℕ
segment_read phdr = if ltb 0 phdr.p_filesz then (page_offset phdr + phdr.p_filesz) % word else 0

abbrev pub segment_zero : ProgramHeader → ℕ
segment_zero phdr =
    let end = round_up ((page_offset phdr + phdr.p_memsz) % word) in
    if ltb 0 phdr.p_filesz then (end + word - segment_read phdr) % word else end

unfoldable pub segment_of : ProgramHeader → Segment
segment_of phdr = record {
  writable = not (phdr.p_flags / 2 % 2 == 0);
  file_page = page_of phdr.p_offset;
  mem_page = page_of phdr.p_vaddr;
  read_bytes = segment_read phdr;
  zero_bytes = segment_zero phdr;
}
