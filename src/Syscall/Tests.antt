-- ===== src/Syscall/Tests.antt =====
-- A machine, a process with two open files and two children, and the system calls on them.
use operating_system_col.Base.{
  ℕ, ◌≤◌, ◌≡◌, ◌≢◌, refl, inr, true, false, Option, none, some, List, [], ◌∷◌, arith, if◌then◌else◌,
  ◌==◌, ltb,
}
use operating_system_col.PageReplacement.Laws.{Succeeds}
use operating_system_col.Syscall.{Machine, ChildProcess, Process, State, returned, waits, ◌>>=◌}
use operating_system_col.Syscall.Files.{sys_open, sys_close}
use operating_system_col.Syscall.Children.{mark_waiting, wait_down, finish_wait, process_wait}
use operating_system_col.Syscall.Address.{validate_user_addr_range, check}
use operating_system_col.Syscall.Handler.{syscall_handler}
use operating_system_col.Syscall.Ends.{Returns, Unlocks}
use operating_system_col.Syscall.OpenClose.{
  OpenEnds, Closed, sys_open-Opened, sys_close-Closed, sys_close-sys_open,
}
use operating_system_col.Syscall.Bounds.{Passed, validate_user_addr_range-Passed}
use operating_system_col.Syscall.Locking.Calls.{syscall_handler-Unlocks}
use operating_system_col.Syscall.Waiting.{
  child_exits, Collected, process_wait-report_exit, report_exit-process_wait,
}
use operating_system_col.Syscall.WaitTwice.{Refused, process_wait-Refused}

-- The world is the list of the files that have been closed. A file is named by its first byte, and
-- the bytes above 0xbfffffe2 fault, as the stack may still grow there.
abbrev open_named : List ℕ → Option ℕ
open_named [] = none
open_named (x ∷ name) = some x

abbrev machine : Machine
machine = record {
  World = List ℕ;
  File = ℕ;
  Page = Unit;
  filesys_open = λ name w. (open_named name, w);
  filesys_create = λ name n w. (true, w);
  filesys_remove = λ name w. (false, w);
  file_read = λ f n w. (f ∷ [], w);
  file_write = λ f bytes w. (1, w);
  file_seek = λ f n w. w;
  file_length = λ f w. f;
  file_close = λ f w. f ∷ w;
  putbuf = λ bytes w. w;
  input_getc = λ w. (10, w);
  malloc = λ w. (true, w);
  get_user = λ a w. (if ltb a 3221225443 then some 65 else none, w);
  lookup_page = λ a w. none;
  load_page = λ p a w. (false, w);
  grow_stack = λ a w. (true, w);
  pagedir_get_page = λ a w. a;
  load_word = λ a w. if a == 3221225440 then 12 else 3;
  load_string = λ a w. 65 ∷ [];
  load_bytes = λ a n w. 65 ∷ [];
  store_bytes = λ a bytes w. w;
  printf_exit = λ n w. w;
  pagedir_activate = λ pd w. w;
  pagedir_destroy = λ pd w. w;
  palloc_get_page = λ w. (true, w);
  palloc_free_page = λ w. w;
  pagedir_set_page = λ upage bytes writable w. (true, w);
  thread_create = λ name w. (some (9, 90), w);
  find_thread = λ n w. true;
  load = λ name w. (true, w);
}

abbrev child : ℕ → ChildProcess
child a = record {
  pid = if a == 70 then 7 else 8;
  waiting = 0;
  wait_lock = 0;
  exit_status = 0;
  status = 0;
  load_status = 1;
}

abbrev parent : Process machine
parent = record {
  tid = 5;
  parent = 1;
  file_list = record { file = 20; fd = 2 } ∷ record { file = 30; fd = 3 } ∷ [];
  fd = 4;
  children = 70 ∷ 80 ∷ [];
  corresp = 50;
  execfile = none;
  pagedir = none;
}

abbrev state : State machine
state = record {
  world = [];
  lock_flag = false;
  has_file_lock = false;
  running = parent;
  child = child;
}

-- The child 7.
abbrev seventh : Process machine
seventh = record parent { tid = 7; parent = 5; corresp = 70; children = []; file_list = [] }

abbrev is_table : (2 ≤ 2) × ((3 ≤ 3) × (4 ≤ 4))
is_table = (omega arith, (omega arith, omega arith))

sys_open-Opened_example : Returns (OpenEnds (some 65) true parent) (sys_open (65 ∷ 66 ∷ []) state)
sys_open-Opened_example = sys_open-Opened (65 ∷ 66 ∷ []) state is_table refl (omega arith)

sys_close-Closed_example : Returns (λ _ s'. Closed 2 state s') (sys_close 2 false state)
sys_close-Closed_example = sys_close-Closed 2 state is_table refl

sys_close-sys_open_example :
    Returns
      (λ fd s'. Returns (λ _ s''. s''.running.file_list ≡ parent.file_list) (sys_close fd false s'))
      (sys_open (65 ∷ []) state)
sys_close-sys_open_example = sys_close-sys_open (65 ∷ []) state is_table refl (omega arith)

validate_user_addr_range-Passed_example :
    Succeeds
      (λ out. out.0 ≡ true → ◌≢◌ {A = ℕ} 134519998 0 × Passed machine 134519998 4 0 true)
      (validate_user_addr_range machine 134519998 4 134519990 true [])
validate_user_addr_range-Passed_example =
    validate_user_addr_range-Passed machine 134519998 4 134519990 true [] (omega arith)

syscall_handler-Unlocks_example : Unlocks (syscall_handler 3221225440 0 state)
syscall_handler-Unlocks_example = syscall_handler-Unlocks 3221225440 0 state (inr refl)

process_wait-report_exit_example :
    Returns (Collected 7 42 state) (process_wait 7 (child_exits 42 seventh state))
process_wait-report_exit_example = process_wait-report_exit 7 70 42 seventh state refl refl λ e. cc

report_exit-process_wait_example :
    (process_wait 7 state ≡ waits 70 (mark_waiting 70 state))
    × Returns (Collected 7 42 state) (
        wait_down 70 (child_exits 42 seventh (mark_waiting 70 state)) >>= λ _ s. finish_wait 7 70 s)
report_exit-process_wait_example =
    report_exit-process_wait 7 70 42 seventh state refl refl (λ e. cc) refl refl

process_wait-Refused_example : Refused 7 (process_wait 7 state)
process_wait-Refused_example = process_wait-Refused 7 state (((λ e. cc), tt), (tt, tt))

-- `close(3)` through the handler: the file 30 is closed.
closes_third :
    syscall_handler 3221225440 0 state
    ≡ returned 0 (record state {
      world = 30 ∷ [];
      running = record parent { file_list = record { file = 20; fd = 2 } ∷ [] };
    })
unfolding syscall_handler validate_user_addr_range check sys_close
closes_third = refl
