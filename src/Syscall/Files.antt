-- ===== src/Syscall/Files.antt =====
-- The table of open files and the system calls on files, of userprog/syscall.c.
use operating_system_col.Base.{
  ℕ, zero, suc, ◌+◌, ◌%◌, Bool, true, false, Option, none, some, List, [], ◌∷◌, ◌++◌, length, ◌==◌,
  ltb, if◌then◌else◌,
}
use operating_system_col.Syscall.{
  Machine, FileAux, State, Outcome, returned, panic, undefined, ◌>>=◌, word, error,
}

-- `local_buff[i] = input_getc()`, for `count` bytes from `local_buff` on.
abbrev pub read_keys : (M : Machine) → ℕ → ℕ → M.World → M.World
read_keys M zero local_buff w = w
read_keys M (suc count) local_buff w =
    let (key, w) = M.input_getc w in
    read_keys M count (local_buff + 1) (M.store_bytes local_buff (key ∷ []) w)

module _ {M : Machine} where
  -- `lock_acquire(&file_lock)`, with its `ASSERT` that the thread does not hold the lock.
  abbrev pub take_file_lock : State M → Outcome M (Unit {0})
  take_file_lock s =
      if s.has_file_lock then panic else returned tt (record s { has_file_lock = true })

  -- `lock_release(&file_lock)`, with its `ASSERT` that the thread holds the lock.
  abbrev pub give_file_lock : State M → Outcome M (Unit {0})
  give_file_lock s =
      if s.has_file_lock then returned tt (record s { has_file_lock = false }) else panic

  abbrev pub set_world : M.World → State M → State M
  set_world w s = record s { world = w }

  abbrev pub set_files : List (FileAux M) → State M → State M
  set_files l s = record s { running = record s.running { file_list = l } }

  abbrev pub find_file : ℕ → List (FileAux M) → Option M.File
  find_file fd [] = none
  find_file fd (fa ∷ l) = if fa.fd == fd then some fa.file else find_file fd l

  abbrev pub get_file : ℕ → State M → Option M.File
  get_file fd s = find_file fd s.running.file_list

  unfoldable pub insert_file : M.File → State M → Outcome M ℕ
  insert_file f s =
      let (allocated, w) = M.malloc s.world in
      if allocated
      then returned s.running.fd (record s {
        world = w;
        running = record s.running {
          fd = (s.running.fd + 1) % word;
          file_list = s.running.file_list ++ record { file = f; fd = s.running.fd } ∷ [];
        };
      })
      else returned error (set_world w s)

  abbrev pub insert_opened : Option M.File → State M → Outcome M ℕ
  insert_opened none s = returned error s
  insert_opened (some f) s = insert_file f s

  unfoldable pub sys_open : List ℕ → State M → Outcome M ℕ
  sys_open name s = take_file_lock s >>= λ _ s.
      let (temp, w) = M.filesys_open name s.world in
      give_file_lock (set_world w s) >>= λ _ s. insert_opened temp s

  unfoldable pub sys_create : List ℕ → ℕ → State M → Outcome M Bool
  sys_create name initial_size s = take_file_lock s >>= λ _ s.
      let (res, w) = M.filesys_create name initial_size s.world in
      give_file_lock (set_world w s) >>= λ _ s. returned res s

  unfoldable pub sys_remove : List ℕ → State M → Outcome M Bool
  sys_remove name s = take_file_lock s >>= λ _ s.
      let (res, w) = M.filesys_remove name s.world in
      give_file_lock (set_world w s) >>= λ _ s. returned res s

  abbrev pub write_file : Option M.File → ℕ → ℕ → State M → Outcome M ℕ
  write_file none buffer size s = returned error s
  write_file (some f) buffer size s = take_file_lock s >>= λ _ s.
      let (written, w) = M.file_write f (M.load_bytes buffer size s.world) s.world in
      give_file_lock (set_world w s) >>= λ _ s. returned written s

  unfoldable pub sys_write : ℕ → ℕ → ℕ → State M → Outcome M ℕ
  sys_write fd buffer size s =
      if ltb 0 size
      then if fd == 1
        then returned size (set_world (M.putbuf (M.load_bytes buffer size s.world) s.world) s)
        else write_file (get_file fd s) buffer size s
      else returned size s

  abbrev pub seek_file : Option M.File → ℕ → State M → Outcome M (Unit {0})
  seek_file none position s = returned tt s
  seek_file (some f) position s =
      take_file_lock s >>= λ _ s. give_file_lock (set_world (M.file_seek f position s.world) s)

  unfoldable pub sys_seek : ℕ → ℕ → State M → Outcome M (Unit {0})
  sys_seek fd position s = seek_file (get_file fd s) position s

  abbrev pub read_file : Option M.File → ℕ → ℕ → State M → Outcome M ℕ
  read_file none buffer size s = give_file_lock s >>= λ _ s. returned error s
  read_file (some f) buffer size s =
      let (bytes, w) = M.file_read f size s.world in
      give_file_lock (set_world (M.store_bytes buffer bytes w) s) >>= λ _ s.
      returned (length bytes) s

  unfoldable pub sys_read : ℕ → ℕ → ℕ → State M → Outcome M ℕ
  sys_read fd buffer size s =
      if ltb 0 size
      then if fd == 0
        then returned size (set_world (read_keys M size buffer s.world) s)
        else (take_file_lock s >>= λ _ s. read_file (get_file fd s) buffer size s)
      else returned size s

  abbrev pub file_size : Option M.File → State M → Outcome M ℕ
  file_size none s = returned error s
  file_size (some f) s = take_file_lock s >>= λ _ s.
      let size = M.file_length f s.world in give_file_lock s >>= λ _ s. returned size s

  unfoldable pub sys_file_size : ℕ → State M → Outcome M ℕ
  sys_file_size fd s = file_size (get_file fd s) s

  -- `file_close` under the lock.
  abbrev pub close_file : M.File → State M → Outcome M (Unit {0})
  close_file f s = take_file_lock s >>= λ _ s. give_file_lock (set_world (M.file_close f s.world) s)

  -- `head = list_next(head)`, and then the loop goes on: C leaves it undefined to read an entry that
  -- has been freed.
  abbrev pub list_next : Bool → Outcome M (Unit {0}) → Outcome M (Unit {0})
  list_next freed go_on = if freed then undefined else go_on

  -- The loop of `sys_close`, at the entries `rest` with `seen` before them. With `close_all` the entry
  -- is taken out and freed, and the loop then goes on from it.
  abbrev pub close_from :
      ℕ → Bool → List (FileAux M) → List (FileAux M) → State M → Outcome M (Unit {0})
  close_from fd close_all seen [] s = returned tt s
  close_from fd close_all seen (fa ∷ rest) s =
      let later = close_from fd close_all (seen ++ fa ∷ []) rest s in
      if close_all
      then (close_file fa.file s >>= λ _ s.
          list_next true (close_from fd close_all seen rest (set_files (seen ++ rest) s)))
      else if fa.fd == fd
      then (close_file fa.file s >>= λ _ s. returned tt (set_files (seen ++ rest) s))
      else list_next false later

  unfoldable pub sys_close : ℕ → Bool → State M → Outcome M (Unit {0})
  sys_close fd close_all s = close_from fd close_all [] s.running.file_list s
