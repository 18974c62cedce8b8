-- ===== src/Loader/Tests.antt =====
-- A machine that always has memory, a segment of two pages, and a command line.
use operating_system_col.Base.{
  ℕ, ◌+◌, ◌/◌, ◌≡◌, refl, Bool, if◌then◌else◌, ◌==◌, true, false, none, List, [], ◌∷◌, ◌++◌, arith,
}
use operating_system_col.Threads.WellFormed.{Returns}
use operating_system_col.Syscall.{Machine}
use operating_system_col.Syscall.Children.{page_size}
use operating_system_col.Loader.{ProgramHeader, validate_segment, segment_of}
use operating_system_col.Loader.Pages.{lazy_load_segment}
use operating_system_col.Loader.Lazy.{Loadable, pages_from, lazy_load_segment-Noted}
use operating_system_col.Loader.Program.{load_headers}
use operating_system_col.Loader.Safe.{AllUser, load_headers-AllUser}

-- Every file holds one program header, of a segment of 5000 bytes at 0x08048010, 32 of which are in the
-- file.
abbrev header_bytes : List ℕ
header_bytes =
    1 ∷ 0 ∷ 0 ∷ 0 ∷ 16 ∷ 0 ∷ 0 ∷ 0 ∷ 16 ∷ 128 ∷ 4 ∷ 8 ∷ 0 ∷ 0 ∷ 0 ∷ 0 ∷ 32 ∷ 0 ∷ 0 ∷ 0 ∷ 136 ∷ 19
    ∷ 0 ∷ 0 ∷ 6 ∷ 0 ∷ 0 ∷ 0 ∷ 0 ∷ 16 ∷ 0 ∷ 0 ∷ []

abbrev pub machine : Machine
machine = record {
  World = Unit;
  File = Unit;
  Page = Unit;
  filesys_open = λ name w. (none, w);
  filesys_create = λ name n w. (true, w);
  filesys_remove = λ name w. (true, w);
  file_read = λ f n w. (header_bytes, w);
  file_write = λ f bytes w. (0, w);
  file_seek = λ f n w. w;
  file_length = λ f w. 48;
  file_close = λ f w. w;
  putbuf = λ bytes w. w;
  input_getc = λ w. (0, w);
  malloc = λ w. (true, w);
  get_user = λ a w. (none, w);
  lookup_page = λ a w. none;
  load_page = λ p a w. (false, w);
  grow_stack = λ a w. (false, w);
  pagedir_get_page = λ a w. 0;
  load_word = λ a w. 0;
  load_string = λ a w. [];
  load_bytes = λ a n w. [];
  store_bytes = λ a bytes w. w;
  printf_exit = λ n w. w;
  pagedir_activate = λ pd w. w;
  pagedir_destroy = λ pd w. w;
  palloc_get_page = λ w. (true, w);
  palloc_free_page = λ w. w;
  pagedir_set_page = λ upage bytes writable w. (true, w);
  thread_create = λ name w. (none, w);
  find_thread = λ n w. true;
  load = λ name w. (true, w);
}

abbrev segment : ProgramHeader
segment = record {
  p_type = 1;
  p_offset = 16;
  p_vaddr = 134512656;
  p_paddr = 0;
  p_filesz = 32;
  p_memsz = 5000;
  p_flags = 6;
  p_align = 4096;
}

validate_segment_two : validate_segment segment 48 ≡ true
unfolding validate_segment
validate_segment_two = refl

abbrev two_pages : Loadable 0 134512640 48 (48 + 8144)
two_pages = record { in_user_space = omega arith; offsets = omega arith; enough = omega arith }

lazy_load_segment-Noted_example :
    Returns
      (λ out.
        (out.0 ≡ true) × (out.1.1 ≡ [] ++ pages_from 0 134512640 48 true (8192 / page_size) 0))
      (lazy_load_segment machine 0 134512640 48 8144 true tt [])
lazy_load_segment-Noted_example =
    lazy_load_segment-Noted machine (λ w. refl) 0 134512640 48 8144 true tt [] two_pages refl refl
      refl

load_headers-AllUser_example : Returns AllUser (load_headers machine 1 48 tt tt [])
load_headers-AllUser_example = load_headers-AllUser machine (λ w. refl) 1 48 tt tt [] tt

-- Both pages of the segment are noted.
load_headers_two :
    Returns
      (λ out. out.1.1 ≡ pages_from 0 134512640 48 true 2 0)
      (load_headers machine 1 48 tt tt [])
unfolding validate_segment segment_of lazy_load_segment
load_headers_two = refl

-- `echo x y`
abbrev arguments : List (List ℕ)
arguments = (101 ∷ 99 ∷ 104 ∷ 111 ∷ []) ∷ (120 ∷ []) ∷ (121 ∷ []) ∷ []

abbrev listed : ℕ → List ℕ → Bool
listed a [] = false
listed a (p ∷ ps) = if p == a then true else listed a ps

-- A machine that remembers which pages are mapped.
abbrev remembering : Machine
remembering = record {
  World = List ℕ;
  File = Unit;
  Page = Unit;
  filesys_open = λ name w. (none, w);
  filesys_create = λ name n w. (true, w);
  filesys_remove = λ name w. (true, w);
  file_read = λ f n w. (header_bytes, w);
  file_write = λ f bytes w. (0, w);
  file_seek = λ f n w. w;
  file_length = λ f w. 48;
  file_close = λ f w. w;
  putbuf = λ bytes w. w;
  input_getc = λ w. (0, w);
  malloc = λ w. (true, w);
  get_user = λ a w. (none, w);
  lookup_page = λ a w. none;
  load_page = λ p a w. (false, w);
  grow_stack = λ a w. (false, w);
  pagedir_get_page = λ a w. if listed a w then 1 else 0;
  load_word = λ a w. 0;
  load_string = λ a w. [];
  load_bytes = λ a n w. [];
  store_bytes = λ a bytes w. w;
  printf_exit = λ n w. w;
  pagedir_activate = λ pd w. w;
  pagedir_destroy = λ pd w. w;
  palloc_get_page = λ w. (true, w);
  palloc_free_page = λ w. w;
  pagedir_set_page = λ upage bytes writable w. (true, upage ∷ w);
  thread_create = λ name w. (none, w);
  find_thread = λ n w. true;
  load = λ name w. (true, w);
}
