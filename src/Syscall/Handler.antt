-- ===== src/Syscall/Handler.antt =====
-- `syscall_handler` of userprog/syscall.c. The frame is its stack pointer and its `eax`.
use operating_system_col.Base.{ℕ, ◌+◌, ◌*◌, ◌%◌, Bool, true, false, List, if◌then◌else◌, ◌==◌}
use operating_system_col.Syscall.{Machine, State, Outcome, returned, powered_off, ◌>>=◌, word}
use operating_system_col.Syscall.Files.{
  sys_open, sys_create, sys_remove, sys_write, sys_seek, sys_read, sys_file_size, sys_close,
}
use operating_system_col.Syscall.Children.{process_wait, sys_exit, sys_exec}
use operating_system_col.Syscall.Address.{require, check, check_buffer, check_str}

-- The system calls that the `switch` has cases for.
pub data Number : Type 0 where
  call_halt call_exit call_exec call_wait call_create call_remove call_open call_filesize call_read
        call_write call_seek call_close call_unknown :
      Number

-- The numbers are those of lib/syscall-nr.h.
abbrev pub number_of : ℕ → Number
number_of n =
    if n == 0
    then call_halt
    else if n == 1
    then call_exit
    else if n == 2
    then call_exec
    else if n == 3
    then call_wait
    else if n == 4
    then call_create
    else if n == 5
    then call_remove
    else if n == 6
    then call_open
    else if n == 7
    then call_filesize
    else if n == 8
    then call_read
    else if n == 9
    then call_write
    else if n == 10
    then call_seek
    else if n == 12
    then call_close
    else call_unknown

abbrev pub of_bool : Bool → ℕ
of_bool b = if b then 1 else 0

module _ {M : Machine} where
  -- The word `i` of the argument structure on the user's stack.
  abbrev pub argument : ℕ → ℕ → State M → ℕ
  argument esp i s = M.load_word ((esp + 4 * i) % word) s.world

  -- The checks of a string argument, which is word 1.
  abbrev pub check_name : ℕ → ℕ → State M → Outcome M (Unit {0})
  check_name esp desired s = check esp desired s >>= λ _ s.
      require (argument esp 1 s) 4 esp false s >>= λ _ s. check_str (argument esp 1 s) s

  abbrev pub name_at : ℕ → State M → List ℕ
  name_at esp s = M.load_string (argument esp 1 s) s.world

  unfoldable pub sys_halt : State M → Outcome M ℕ
  sys_halt s = powered_off

  -- The `switch`.
  abbrev pub dispatch : Number → ℕ → ℕ → State M → Outcome M ℕ
  dispatch call_halt esp eax s = sys_halt s
  dispatch call_exit esp eax s = check esp 1 s >>= λ _ s. sys_exit (argument esp 1 s) s
  dispatch call_exec esp eax s = check_name esp 1 s >>= λ _ s. sys_exec (name_at esp s) s
  dispatch call_wait esp eax s = check esp 1 s >>= λ _ s. process_wait (argument esp 1 s) s
  dispatch call_create esp eax s = check_name esp 2 s >>= λ _ s.
      sys_create (name_at esp s) (argument esp 2 s) s >>= λ res s. returned (of_bool res) s
  dispatch call_remove esp eax s = check_name esp 1 s >>= λ _ s.
      sys_remove (name_at esp s) s >>= λ res s. returned (of_bool res) s
  dispatch call_open esp eax s = check_name esp 1 s >>= λ _ s. sys_open (name_at esp s) s
  dispatch call_filesize esp eax s = check esp 1 s >>= λ _ s. sys_file_size (argument esp 1 s) s
  dispatch call_read esp eax s = check esp 3 s >>= λ _ s.
      require (argument esp 2 s) 4 esp true s >>= λ _ s.
      check_buffer (argument esp 2 s) (argument esp 3 s) s >>= λ _ s.
      sys_read (argument esp 1 s) (argument esp 2 s) (argument esp 3 s) s
  dispatch call_write esp eax s = check esp 3 s >>= λ _ s.
      require (argument esp 2 s) (argument esp 3 s) esp true s >>= λ _ s.
      check_buffer (argument esp 2 s) (argument esp 3 s) s >>= λ _ s.
      sys_write (argument esp 1 s) (argument esp 2 s) (argument esp 3 s) s
  dispatch call_seek esp eax s = check esp 2 s >>= λ _ s.
      sys_seek (argument esp 1 s) (argument esp 2 s) s >>= λ _ s. returned eax s
  dispatch call_close esp eax s =
      check esp 1 s >>= λ _ s. sys_close (argument esp 1 s) false s >>= λ _ s. returned eax s
  dispatch call_unknown esp eax s = returned eax s

  -- `lock_init(&file_lock)` at the first system call.
  abbrev pub init_lock : State M → State M
  init_lock s = if s.lock_flag then record s { has_file_lock = false; lock_flag = false } else s

  unfoldable pub syscall_handler : ℕ → ℕ → State M → Outcome M ℕ
  syscall_handler esp eax s = require esp 4 esp true (init_lock s) >>= λ _ s.
      dispatch (number_of (argument esp 0 s)) esp eax s
