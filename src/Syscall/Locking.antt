-- ===== src/Syscall/Locking.antt =====
-- The lock of the file system across the system calls on files.
pub mod Exits
pub mod Calls
use operating_system_col.Base.{
  ℕ, zero, suc, ◌+◌, ◌≡◌, refl, inl, inr, Bool, true, false, Option, none, some, List, [], ◌∷◌,
  ◌++◌, Bool-cases, ◌%◌, ◌==◌, if◌then◌else◌, ltb, length, ◌∙◌, ◌⊎◌,
}
use operating_system_col.Syscall.{
  Machine, FileAux, State, Outcome, returned, ◌>>=◌, word, is_negative,
}
use operating_system_col.Syscall.Files.{
  get_file, insert_file, insert_opened, sys_open, sys_create, sys_remove, write_file, sys_write,
  seek_file, sys_seek, read_file, sys_read, file_size, sys_file_size, close_from, sys_close,
}
use operating_system_col.Syscall.Children.{
  page_size, remove_from, remove_child, finish_wait, wait_down, mark_waiting, wait_marked,
  wait_found, process_wait, search_child, note_exit, destroy_pages, process_exit, thread_exit,
  report_exit, sys_exit, add_child, note_load, start_process, await_load, create_process,
  process_execute, sys_exec,
}
use operating_system_col.Syscall.Address.{
  validate_user_addr_range, demand, require, check_from, check, convert, check_bytes, check_buffer,
  check_chars, check_str,
}
use operating_system_col.Syscall.Handler.{
  check_name, sys_halt, Number, call_halt, call_exit, call_exec, call_wait, call_create,
  call_remove, call_open, call_filesize, call_read, call_write, call_seek, call_close, call_unknown,
  number_of, argument, dispatch, init_lock, syscall_handler,
}
use operating_system_col.Syscall.Ends.{IsUnlocked, Unlocks, Unlocks-bind}

module _ {M : Machine} where
  -- Either branch of a test.
  pub Unlocks-if {ℓ} :
      {A : Type ℓ} (b : Bool) (x y : Outcome M A)
      → Unlocks x
      → Unlocks y
      → Unlocks (if b then x else y)
  Unlocks-if true x y p q = p
  Unlocks-if false x y p q = q

  pub Unlocks-insert_opened :
      (temp : Option M.File) (s : State M) → IsUnlocked s → Unlocks (insert_opened temp s)
  unfolding insert_file
  Unlocks-insert_opened none s u = u
  Unlocks-insert_opened (some f) s u = Unlocks-if (M.malloc s.world).0 _ _ u u

  pub Unlocks-sys_open : (name : List ℕ) (s : State M) → IsUnlocked s → Unlocks (sys_open name s)
  unfolding sys_open
  Unlocks-sys_open name s u = rw u (Unlocks-insert_opened (M.filesys_open name s.world).0 _ refl)

  pub Unlocks-sys_create :
      (name : List ℕ) (n : ℕ) (s : State M) → IsUnlocked s → Unlocks (sys_create name n s)
  unfolding sys_create
  Unlocks-sys_create name n s u = rw u refl

  pub Unlocks-sys_remove :
      (name : List ℕ) (s : State M) → IsUnlocked s → Unlocks (sys_remove name s)
  unfolding sys_remove
  Unlocks-sys_remove name s u = rw u refl

  Unlocks-write_file :
      (f : Option M.File) (buffer size : ℕ) (s : State M)
      → IsUnlocked s
      → Unlocks (write_file f buffer size s)
  Unlocks-write_file none buffer size s u = u
  Unlocks-write_file (some f) buffer size s u = rw u refl

  pub Unlocks-sys_write :
      (fd buffer size : ℕ) (s : State M) → IsUnlocked s → Unlocks (sys_write fd buffer size s)
  unfolding sys_write
  Unlocks-sys_write fd buffer size s u =
      Unlocks-if (ltb 0 size) _ _
        (Unlocks-if (fd == 1) _ _ u (Unlocks-write_file (get_file fd s) buffer size s u)) u

  Unlocks-seek_file :
      (f : Option M.File) (position : ℕ) (s : State M)
      → IsUnlocked s
      → Unlocks (seek_file f position s)
  Unlocks-seek_file none position s u = u
  Unlocks-seek_file (some f) position s u = rw u refl

  pub Unlocks-sys_seek :
      (fd position : ℕ) (s : State M) → IsUnlocked s → Unlocks (sys_seek fd position s)
  unfolding sys_seek
  Unlocks-sys_seek fd position s u = Unlocks-seek_file (get_file fd s) position s u

  Unlocks-read_file :
      (f : Option M.File) (buffer size : ℕ) (s : State M)
      → s.has_file_lock ≡ true
      → Unlocks (read_file f buffer size s)
  Unlocks-read_file none buffer size s u = rw u refl
  Unlocks-read_file (some f) buffer size s u = rw u refl

  pub Unlocks-sys_read :
      (fd buffer size : ℕ) (s : State M) → IsUnlocked s → Unlocks (sys_read fd buffer size s)
  unfolding sys_read
  Unlocks-sys_read fd buffer size s u =
      Unlocks-if (ltb 0 size) _ _
        (Unlocks-if (fd == 0) _ _ u (rw u (Unlocks-read_file (get_file fd s) buffer size _ refl))) u

  Unlocks-file_size : (f : Option M.File) (s : State M) → IsUnlocked s → Unlocks (file_size f s)
  Unlocks-file_size none s u = u
  Unlocks-file_size (some f) s u = rw u refl

  pub Unlocks-sys_file_size : (fd : ℕ) (s : State M) → IsUnlocked s → Unlocks (sys_file_size fd s)
  unfolding sys_file_size
  Unlocks-sys_file_size fd s u = Unlocks-file_size (get_file fd s) s u

  Unlocks-close_from :
      (fd : ℕ) (all : Bool) (seen rest : List (FileAux M)) (s : State M)
      → IsUnlocked s
      → Unlocks (close_from fd all seen rest s)
  Unlocks-close_from fd all seen [] s u = u
  Unlocks-close_from fd all seen (fa ∷ rest) s u = Unlocks-if all _ _ (rw u tt) (
      Unlocks-if (fa.fd == fd) _ _ (rw u refl)
        (Unlocks-close_from fd all (seen ++ fa ∷ []) rest s u))

  pub Unlocks-sys_close :
      (fd : ℕ) (all : Bool) (s : State M) → IsUnlocked s → Unlocks (sys_close fd all s)
  unfolding sys_close
  Unlocks-sys_close fd all s u = Unlocks-close_from fd all [] s.running.file_list s u
