-- ===== src/Syscall.antt =====
-- The kernel state that userprog/syscall.c and userprog/process.c of G/A4/Pintos share. Words of 32
-- bits, `int` among them, are natural numbers below 2 ^ 32, a negative `int` by its two's complement.
pub mod Files
pub mod Children
pub mod Ends
pub mod Table
pub mod OpenClose
pub mod Address
pub mod Handler
pub mod Bounds
pub mod Locking
pub mod Family
pub mod Waiting
pub mod Errors
pub mod WaitTwice
pub mod Tests
use operating_system_col.Base.{ℕ, ◌-◌, ◌^◌, Bool, Option, List, ltb}

abbrev pub word : ℕ
word = 2 ^ 32

-- `ERROR`, -1
abbrev pub error : ℕ
error = word - 1

-- The most positive `int`, 2 ^ 31 - 1.
abbrev pub int_max : ℕ
int_max = 2 ^ 31 - 1

abbrev pub is_negative : ℕ → Bool
is_negative n = ltb int_max n

-- What the two files call: the file system, the console, the allocator, the page tables, and the
-- processor's access to user memory. A file name is the list of its bytes. `thread_create` gives the
-- identifier of the new thread and the address of its `struct childProcess`; `load` is what the new
-- thread does in `load` before `done:`, and whether it succeeds.
pub record Machine : Type 1 where
  pub World : Type 0
  pub File : Type 0
  pub Page : Type 0
  pub filesys_open : List ℕ → World → Option File × World
  pub filesys_create : List ℕ → ℕ → World → Bool × World
  pub filesys_remove : List ℕ → World → Bool × World
  pub file_read : File → ℕ → World → List ℕ × World
  pub file_write : File → List ℕ → World → ℕ × World
  pub file_seek : File → ℕ → World → World
  pub file_length : File → World → ℕ
  pub file_close : File → World → World
  pub putbuf : List ℕ → World → World
  pub input_getc : World → ℕ × World
  pub malloc : World → Bool × World
  pub get_user : ℕ → World → Option ℕ × World
  pub lookup_page : ℕ → World → Option Page
  pub load_page : Page → ℕ → World → Bool × World
  pub grow_stack : ℕ → World → Bool × World
  pub pagedir_get_page : ℕ → World → ℕ
  pub load_word : ℕ → World → ℕ
  pub load_string : ℕ → World → List ℕ
  pub load_bytes : ℕ → ℕ → World → List ℕ
  pub store_bytes : ℕ → List ℕ → World → World
  pub printf_exit : ℕ → World → World
  pub pagedir_activate : Option ℕ → World → World
  pub pagedir_destroy : ℕ → World → World
  pub palloc_get_page : World → Bool × World
  pub palloc_free_page : World → World
  pub pagedir_set_page : ℕ → List ℕ → Bool → World → Bool × World
  pub thread_create : List ℕ → World → Option (ℕ × ℕ) × World
  pub find_thread : ℕ → World → Bool
  pub load : List ℕ → World → Bool × World

-- `struct file_aux`
pub record FileAux (M : Machine) : Type 0 where
  pub file : M.File
  pub fd : ℕ

-- `struct childProcess`. `wait_lock` is the value of the semaphore `waitLock`.
pub record ChildProcess : Type 0 where
  pub pid : ℕ
  pub waiting : ℕ
  pub wait_lock : ℕ
  pub exit_status : ℕ
  pub status : ℕ
  pub load_status : ℕ

-- `struct thread`, its fields for files and children. `children` holds addresses.
pub record Process (M : Machine) : Type 0 where
  pub tid : ℕ
  pub parent : ℕ
  pub file_list : List (FileAux M)
  pub fd : ℕ
  pub children : List ℕ
  pub corresp : ℕ
  pub execfile : Option M.File
  pub pagedir : Option ℕ

-- `has_file_lock` says whether the running thread holds `file_lock`; `child` is the memory of the
-- `struct childProcess` objects.
pub record State (M : Machine) : Type 0 where
  pub world : M.World
  pub lock_flag : Bool
  pub has_file_lock : Bool
  pub running : Process M
  pub child : ℕ → ChildProcess

-- How a stretch of a system call ends: it runs to its end, the process exits, it waits on the
-- semaphore of a child or on one that no thread will raise, the machine is off, an `ASSERT` fails,
-- or the C code reads freed memory.
pub data Outcome {ℓ} (M : Machine) (A : Type ℓ) : Type ℓ where
  returned : A → State M → Outcome M A
  exited : State M → Outcome M A
  waits : ℕ → State M → Outcome M A
  hangs : Outcome M A
  powered_off : Outcome M A
  panic : Outcome M A
  undefined : Outcome M A

infixl 5 ◌>>=◌
abbrev pub ◌>>=◌ {ℓ κ} :
    {M : Machine} {A : Type ℓ} {B : Type κ}
    → Outcome M A
    → (A → State M → Outcome M B)
    → Outcome M B
returned a s >>= f = f a s
exited s >>= f = exited s
waits c s >>= f = waits c s
hangs >>= f = hangs
powered_off >>= f = powered_off
panic >>= f = panic
undefined >>= f = undefined
