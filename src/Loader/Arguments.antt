-- ===== src/Loader/Arguments.antt =====
-- `setup_stack` of userprog/process.c: the arguments of a program on its first stack page.
use operating_system_col.Base.{
  ℕ, zero, suc, ◌+◌, ◌-◌, ◌/◌, ◌%◌, Bool, true, false, not, ◌||◌, List, [], ◌∷◌, ◌++◌, length, ltb,
  ◌==◌, if◌then◌else◌,
}
use operating_system_col.Threads.{Run, done, panic}
use operating_system_col.Syscall.{Machine, word}
use operating_system_col.Syscall.Children.{page_size}
use operating_system_col.Syscall.Address.{phys_base}
use operating_system_col.Loader.Pages.{SupPage, new_zero_sup_page, install_page, zeros}

abbrev pub emit : List ℕ → List (List ℕ) → List (List ℕ)
emit [] rest = rest
emit (c ∷ cs) rest = (c ∷ cs) ∷ rest

-- The tokens that repeated calls of `strtok_r` with the delimiter " " give, of which `token` is begun.
abbrev pub tokens_from : List ℕ → List ℕ → List (List ℕ)
tokens_from token [] = emit token []
tokens_from token (c ∷ s) = elim (c == 32) [
  | true ↦ emit token (tokens_from [] s)
  | false ↦ tokens_from (token ++ c ∷ []) s
]

-- The user's stack: `*esp`, and the bytes from there up to `PHYS_BASE`.
pub record Stack : Type 0 where
  pub esp : ℕ
  pub bytes : List ℕ

-- `*esp -= n` and `memcpy` of `n` bytes to `*esp`.
abbrev pub push : List ℕ → Stack → Stack
push b s = record { esp = (s.esp + word - length b) % word; bytes = b ++ s.bytes }

-- The bytes of a word, the lowest first.
abbrev pub word_bytes : ℕ → List ℕ
word_bytes n = n % 256 ∷ n / 256 % 256 ∷ n / 65536 % 256 ∷ n / 16777216 % 256 ∷ []

-- The loop that copies the arguments, from the last to the first, and notes their addresses in `argv`.
abbrev pub copy_tokens : List (List ℕ) → Stack → List ℕ × Stack
copy_tokens [] s = ([], s)
copy_tokens (token ∷ tokens) s =
    let (argv, s) = copy_tokens tokens s in let s = push (token ++ 0 ∷ []) s in (s.esp ∷ argv, s)

abbrev pub copy_after : ℕ → (ℕ → ℕ) → List ℕ
copy_after zero after = []
copy_after (suc n) after = after n ∷ copy_after n after

-- `memcpy(*esp, &zero, n)`, where `zero` is one byte and `after` are those that follow it in memory.
abbrev pub padding : ℕ → (ℕ → ℕ) → List ℕ
padding zero after = []
padding (suc n) after = 0 ∷ copy_after n after

abbrev pub align : (ℕ → ℕ) → Stack → Stack
align after s =
    let i = (phys_base - s.esp) % 4 in if i == 0 then s else push (padding (4 - i) after) s

-- The loop that pushes the pointers to the arguments, from the last to the first.
abbrev pub push_pointers : List ℕ → Stack → Stack
push_pointers [] s = s
push_pointers (p ∷ argv) s = push (word_bytes p) (push_pointers argv s)

-- NULL, the pointers, `argv`, `argc` and the return address.
abbrev pub push_frame : List ℕ → Stack → Stack
push_frame argv s =
    let s = push_pointers argv (push (word_bytes 0) s) in
    let s = push (word_bytes s.esp) s in push (word_bytes 0) (push (word_bytes (length argv)) s)

-- `setup_stack` from its `strtok_r` on.
unfoldable pub push_arguments : (ℕ → ℕ) → List (List ℕ) → Stack → Stack
push_arguments after tokens s =
    let (argv, s) = copy_tokens tokens s in push_frame argv (align after s)

-- `MAX_ARGS`
abbrev pub max_args : ℕ
max_args = 32

module _ (M : Machine) where
  -- `kpage` is the address of the frame that the page gets, and `after` are the bytes behind `zero`.
  -- Without the page, with more than `MAX_ARGS` arguments or with more bytes than the page has, the
  -- code writes where it may not: it panics here.
  unfoldable pub setup_stack :
      ℕ
      → (ℕ → ℕ)
      → List ℕ
      → M.World
      → List SupPage
      → Run (Bool × (Stack × (M.World × List SupPage)))
  setup_stack kpage after cmd_line w spt =
      let upage = phys_base - page_size in
      let (got, w) = M.palloc_get_page w in
      let (success, w) = install_page M upage (zeros page_size) true w in
      let (allocated, w) = M.malloc w in
      let spg = record (new_zero_sup_page upage) { frame_no = kpage / page_size } in
      let tokens = tokens_from [] cmd_line in
      let s = push_arguments after tokens (record { esp = phys_base; bytes = [] }) in
      if not got || not success || not allocated
      then panic
      else if ltb max_args (length tokens)
      then panic
      else if ltb page_size (length s.bytes)
      then panic
      else done (true, (s, (w, spt ++ spg ∷ [])))
