-- ===== src/Syscall/Children.antt =====
-- Children: `process_execute`, `process_wait`, `process_exit` of userprog/process.c, the system calls
-- on them and `searchChild`, `removeChild` of userprog/syscall.c, and the end of `thread_create`.
use operating_system_col.Base.{
  ℕ, ◌+◌, ◌-◌, ◌^◌, Bool, true, false, Option, none, some, List, [], ◌∷◌, ◌++◌, length, ◌==◌, ltb,
  if◌then◌else◌,
}
use operating_system_col.Syscall.{
  Machine, ChildProcess, State, Outcome, returned, exited, waits, hangs, ◌>>=◌, error, is_negative,
}
use operating_system_col.Syscall.Files.{list_next, sys_close, set_world}

-- `PGSIZE`
abbrev pub page_size : ℕ
page_size = 2 ^ 12

abbrev pub close_execfile : (M : Machine) → Option M.File → M.World → M.World
close_execfile M none w = w
close_execfile M (some f) w = M.file_close f w

module _ {M : Machine} where
  abbrev pub set_child : ℕ → ChildProcess → State M → State M
  set_child c v s = record s { child = λ a. if a == c then v else s.child a }

  abbrev pub set_children : List ℕ → State M → State M
  set_children l s = record s { running = record s.running { children = l } }

  abbrev pub find_child : ℕ → List ℕ → State M → Option ℕ
  find_child tid [] s = none
  find_child tid (c ∷ l) s = if (s.child c).pid == tid then some c else find_child tid l s

  -- `searchChild`
  abbrev pub search_child : ℕ → State M → Option ℕ
  search_child tid s = find_child tid s.running.children s

  -- The loop of `removeChild`, at the children `rest` with `seen` before them. With `all`, the child
  -- is taken out and freed, and the loop then goes on from it.
  abbrev pub remove_from : ℕ → Bool → List ℕ → List ℕ → State M → Outcome M (Unit {0})
  remove_from id all seen [] s = returned tt s
  remove_from id all seen (c ∷ rest) s =
      let later = remove_from id all (seen ++ c ∷ []) rest s in
      if all
      then list_next true (remove_from id all seen rest (set_children (seen ++ rest) s))
      else if (s.child c).pid == id
      then returned tt (set_children (seen ++ rest) s)
      else list_next false later

  unfoldable pub remove_child : ℕ → Bool → State M → Outcome M (Unit {0})
  remove_child id all s = remove_from id all [] s.running.children s

  -- `process_wait` from the read of the status on.
  unfoldable pub finish_wait : ℕ → ℕ → State M → Outcome M ℕ
  finish_wait child_tid c s =
      let status = (s.child c).status in remove_child child_tid false s >>= λ _ s. returned status s

  -- `sema_down(&cp->waitLock)`
  unfoldable pub wait_down : ℕ → State M → Outcome M (Unit {0})
  wait_down c s =
      if ltb 0 (s.child c).wait_lock
      then returned tt
          (set_child c (record (s.child c) { wait_lock = (s.child c).wait_lock - 1 }) s)
      else waits c s

  abbrev pub mark_waiting : ℕ → State M → State M
  mark_waiting c s = set_child c (record (s.child c) { waiting = 1 }) s

  -- `process_wait` after `cp->waiting = 1`.
  abbrev pub wait_marked : ℕ → ℕ → State M → Outcome M ℕ
  wait_marked child_tid c s =
      if (s.child c).exit_status == 0
      then (wait_down c s >>= λ _ s. finish_wait child_tid c s)
      else finish_wait child_tid c s

  abbrev pub wait_for : ℕ → ℕ → State M → Outcome M ℕ
  wait_for child_tid c s =
      if (s.child c).waiting == 1
      then returned error s
      else wait_marked child_tid c (mark_waiting c s)

  abbrev pub wait_found : ℕ → Option ℕ → State M → Outcome M ℕ
  wait_found child_tid none s = returned error s
  wait_found child_tid (some c) s = wait_for child_tid c s

  unfoldable pub process_wait : ℕ → State M → Outcome M ℕ
  process_wait child_tid s = wait_found child_tid (search_child child_tid s) s

  -- `findThread(cur->parent)` and what is done when the parent is still there.
  abbrev pub note_exit : State M → State M
  note_exit s =
      let c = s.running.corresp in
      if M.find_thread s.running.parent s.world
      then set_child c (record (s.child c) { exit_status = 1 }) s
      else s

  abbrev pub destroy_pages : Option ℕ → State M → State M
  destroy_pages none s = s
  destroy_pages (some pd) s = record s {
    running = record s.running { pagedir = none };
    world = M.pagedir_destroy pd (M.pagedir_activate none s.world);
  }

  unfoldable pub process_exit : State M → Outcome M (Unit {0})
  process_exit s = sys_close 0 true s >>= λ _ s. remove_child 0 true s >>= λ _ s.
      let s = note_exit s in
      let s = set_world (close_execfile M s.running.execfile s.world) s in
      returned tt (destroy_pages s.running.pagedir s)

  -- `thread_exit`, as far as the process is concerned.
  unfoldable pub thread_exit {ℓ} : {A : Type ℓ} → State M → Outcome M A
  thread_exit s = process_exit s >>= λ _ s. exited s

  -- `sys_exit` up to `thread_exit`.
  unfoldable pub report_exit : ℕ → State M → State M
  report_exit status s =
      let c = s.running.corresp in
      let old = s.child c in
      let kept = is_negative old.status in
      let new = record old {
        status = if kept then old.status else status;
        wait_lock = old.wait_lock + 1;
      } in
      set_child c new (set_world (M.printf_exit (if kept then error else status) s.world) s)

  unfoldable pub sys_exit {ℓ} : {A : Type ℓ} → ℕ → State M → Outcome M A
  sys_exit status s = thread_exit (report_exit status s)

  -- The end of `thread_create`. `malloc` leaves `exit_status` and `load_status` as they were.
  unfoldable pub add_child : ℕ → ℕ → State M → State M
  add_child tid c s =
      set_child c (record (s.child c) { pid = tid; waiting = 0; wait_lock = 0; status = 0 })
        (set_children (s.running.children ++ c ∷ []) s)

  -- `load` from `done:` on, in the new thread.
  unfoldable pub note_load : Bool → ℕ → State M → State M
  note_load true c s = set_child c (record (s.child c) { load_status = 1 }) s
  note_load false c s = set_child c (record (s.child c) { status = error }) s

  -- The new thread up to the `sema_up` in `start_process`.
  abbrev pub start_process : List ℕ → ℕ → State M → State M
  start_process file_name c s =
      let (success, w) = M.load file_name s.world in note_load success c (set_world w s)

  -- `process_execute` from its `thread_create` on. Where that fails no thread raises `aux->sem`.
  abbrev pub await_load : List ℕ → Option (ℕ × ℕ) → State M → Outcome M ℕ
  await_load file_name none s = hangs
  await_load file_name (some (tid, c)) s =
      returned tid (start_process file_name c (add_child tid c s))

  abbrev pub create_process : List ℕ → State M → Outcome M ℕ
  create_process file_name s =
      let (thread, w) = M.thread_create file_name s.world in
      await_load file_name thread (set_world w s)

  unfoldable pub process_execute : List ℕ → State M → Outcome M ℕ
  process_execute file_name s =
      let (allocated, w) = M.palloc_get_page s.world in
      if ltb page_size (length file_name + 1)
      then returned error s
      else if allocated
      then create_process file_name (set_world w s)
      else returned error (set_world w s)

  abbrev pub exec_result : ℕ → Option ℕ → State M → ℕ
  exec_result child_pid none s = error
  exec_result child_pid (some c) s = if (s.child c).load_status == 0 then error else child_pid

  unfoldable pub sys_exec : List ℕ → State M → Outcome M ℕ
  sys_exec cmd_line s = process_execute cmd_line s >>= λ child_pid s.
      returned (exec_result child_pid (search_child child_pid s) s) s
