-- ===== src/Loader/Program.antt =====
-- `load` of userprog/process.c: the headers of an ELF file, their segments, and the stack.
use operating_system_col.Base.{
  ℕ, zero, suc, ◌+◌, ◌*◌, ◌%◌, Bool, true, false, not, ◌||◌, Option, none, some, List, [], ◌∷◌,
  length, ltb, ◌==◌, if◌then◌else◌,
}
use operating_system_col.Threads.{Run, done, deref, ◌>>=◌}
use operating_system_col.Syscall.{Machine, word, is_negative}
use operating_system_col.Loader.{ProgramHeader, validate_segment, segment_of}
use operating_system_col.Loader.Pages.{SupPage, lazy_load_segment}
use operating_system_col.Loader.Arguments.{Stack, tokens_from, setup_stack}

-- The byte, the half word and the word at an offset of a structure, the lowest byte first.
abbrev pub byte_at : List ℕ → ℕ → ℕ
byte_at [] i = 0
byte_at (b ∷ bytes) zero = b % 256
byte_at (b ∷ bytes) (suc i) = byte_at bytes i

abbrev pub half_at : List ℕ → ℕ → ℕ
half_at bytes i = byte_at bytes i + 256 * byte_at bytes (i + 1)

abbrev pub word_of : List ℕ → ℕ → ℕ
word_of bytes i = half_at bytes i + 65536 * half_at bytes (i + 2)

-- `struct Elf32_Ehdr`
pub record ElfHeader : Type 0 where
  pub e_ident : List ℕ
  pub e_type : ℕ
  pub e_machine : ℕ
  pub e_version : ℕ
  pub e_entry : ℕ
  pub e_phoff : ℕ
  pub e_phentsize : ℕ
  pub e_phnum : ℕ

abbrev pub elf_header : List ℕ → ElfHeader
elf_header b = record {
  e_ident =
      byte_at b 0
      ∷ byte_at b 1
      ∷ byte_at b 2
      ∷ byte_at b 3
      ∷ byte_at b 4
      ∷ byte_at b 5
      ∷ byte_at b 6
      ∷ [];
  e_type = half_at b 16;
  e_machine = half_at b 18;
  e_version = word_of b 20;
  e_entry = word_of b 24;
  e_phoff = word_of b 28;
  e_phentsize = half_at b 42;
  e_phnum = half_at b 44;
}

abbrev pub program_header : List ℕ → ProgramHeader
program_header b = record {
  p_type = word_of b 0;
  p_offset = word_of b 4;
  p_vaddr = word_of b 8;
  p_paddr = word_of b 12;
  p_filesz = word_of b 16;
  p_memsz = word_of b 20;
  p_flags = word_of b 24;
  p_align = word_of b 28;
}

abbrev same_bytes : List ℕ → List ℕ → Bool
same_bytes [] [] = true
same_bytes (a ∷ l) (b ∷ m) = let rest = same_bytes l m in if a == b then rest else false
same_bytes _ _ = false

-- The tests of the executable header; the magic is "\177ELF\1\1\1".
unfoldable pub bad_header : List ℕ → Bool
bad_header bytes =
    let ehdr = elf_header bytes in
    not (length bytes == 52)
    || not (same_bytes ehdr.e_ident (127 ∷ 69 ∷ 76 ∷ 70 ∷ 1 ∷ 1 ∷ 1 ∷ []))
    || not (ehdr.e_type == 2)
    || not (ehdr.e_machine == 3)
    || not (ehdr.e_version == 1)
    || not (ehdr.e_phentsize == 32)
    || ltb 1024 ehdr.e_phnum

-- The cases of the `switch` on `p_type`.
pub data Kind : Type 0 where
  ignored refused loadable : Kind

abbrev pub kind_of : ℕ → Kind
kind_of p_type =
    if p_type == 2 || p_type == 3 || p_type == 5
    then refused
    else if p_type == 1
    then loadable
    else ignored

-- What `load` leaves for the new process.
pub record Image : Type 0 where
  pub eip : ℕ
  pub stack : Stack

abbrev pub first_token : List (List ℕ) → Option (List ℕ)
first_token [] = none
first_token (t ∷ ts) = some t

module _ (M : Machine) where
  abbrev pub load_one_segment :
      M.File → ProgramHeader → M.World → List SupPage → Run (Bool × (M.World × List SupPage))
  load_one_segment file phdr w spt = elim (validate_segment phdr (M.file_length file w)) [
    | false ↦ done (false, (w, spt))
    | true ↦
        let s = segment_of phdr in
        lazy_load_segment M s.file_page s.mem_page s.read_bytes s.zero_bytes s.writable w spt
  ]

  abbrev pub load_kind :
      Kind → M.File → ProgramHeader → M.World → List SupPage → Run (Bool × (M.World × List SupPage))
  load_kind ignored file phdr w spt = done (true, (w, spt))
  load_kind refused file phdr w spt = done (false, (w, spt))
  load_kind loadable file phdr w spt = load_one_segment file phdr w spt

  -- The loop over the program headers, of which `count` are left.
  abbrev pub load_headers :
      ℕ → ℕ → M.File → M.World → List SupPage → Run (Bool × (M.World × List SupPage))
  load_headers zero file_ofs file w spt = done (true, (w, spt))
  load_headers (suc count) file_ofs file w spt =
      let (bytes, w1) = M.file_read file 32 (M.file_seek file file_ofs w) in
      let phdr = program_header bytes in
      elim (is_negative file_ofs || ltb (M.file_length file w) file_ofs) [
        | true ↦ done (false, (w, spt))
        | false ↦ elim (length bytes == 32) [
          | false ↦ done (false, (w1, spt))
          | true ↦ load_kind (kind_of phdr.p_type) file phdr w1 spt >>= λ out. elim out.0 [
            | false ↦ done out
            | true ↦ load_headers count ((file_ofs + 32) % word) file out.1.0 out.1.1
          ]
        ]
      ]

  -- The end of `load`: the stack and the start address.
  abbrev pub finish_load :
      ℕ
      → (ℕ → ℕ)
      → List ℕ
      → ℕ
      → Bool × (M.World × List SupPage)
      → Run (Option Image × (M.World × List SupPage))
  finish_load kpage after file_name e_entry (false, (w, spt)) = done (none, (w, spt))
  finish_load kpage after file_name e_entry (true, (w, spt)) =
      setup_stack M kpage after file_name w spt >>= λ out.
      done (some (record { eip = e_entry; stack = out.1.0 }), out.1.1)

  abbrev pub load_file :
      ℕ
      → (ℕ → ℕ)
      → List ℕ
      → Option M.File
      → M.World
      → List SupPage
      → Run (Option Image × (M.World × List SupPage))
  load_file kpage after file_name none w spt = done (none, (w, spt))
  load_file kpage after file_name (some file) w spt =
      let (bytes, w1) = M.file_read file 52 w in
      let ehdr = elf_header bytes in
      elim (bad_header bytes) [
        | true ↦ done (none, (w1, spt))
        | false ↦ load_headers ehdr.e_phnum ehdr.e_phoff file w1 spt >>= λ out.
            finish_load kpage after file_name ehdr.e_entry out
      ]

  -- `load` up to `done:`; `none` is failure. `pagedir_create` has returned `pd` or NULL.
  -- A command line without a token makes `filesys_open` read through NULL.
  unfoldable pub load :
      ℕ
      → (ℕ → ℕ)
      → List ℕ
      → Option ℕ
      → M.World
      → List SupPage
      → Run (Option Image × (M.World × List SupPage))
  load kpage after file_name none w spt = done (none, (w, spt))
  load kpage after file_name (some pd) w spt =
      let w = M.pagedir_activate (some pd) w in
      deref (first_token (tokens_from [] file_name)) >>= λ split.
      let (file, w) = M.filesys_open split w in load_file kpage after file_name file w spt
