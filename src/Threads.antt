-- ===== src/Threads.antt =====
-- The kernel state that threads/thread.c, threads/synch.c and devices/timer.c of G/A5/Pintos share.
-- Threads, locks, semaphores and condition variables are named by their addresses.
pub mod Schedule
pub mod Sync
pub mod WellFormed
pub mod Yield
pub mod Donation
pub mod Acquire
pub mod Frame
pub mod LockFrame
pub mod Exclusion
pub mod Mutex
pub mod Release
pub mod Reach
pub mod ReadWrite
pub mod Signal
pub mod Waking
pub mod Releasing
pub mod Timer
pub mod Tests
pub mod Priority
use operating_system_col.Base.{
  ℕ, ◌≡◌, refl, Bool, true, false, Option, none, some, List, [], ◌==◌, if◌then◌else◌,
}

-- How a stretch of kernel code ends: it runs to its end, an `ASSERT` or an access through NULL
-- stops the machine, or a loop has used up its fuel.
pub data Run {ℓ} (A : Type ℓ) : Type ℓ where
  done : A → Run A
  panic : Run A
  out_of_fuel : Run A

infixl 5 ◌>>=◌ ◌>>◌
abbrev pub ◌>>=◌ {ℓ κ} : {A : Type ℓ} {B : Type κ} → Run A → (A → Run B) → Run B
done a >>= f = f a
panic >>= f = panic
out_of_fuel >>= f = out_of_fuel

abbrev pub ◌>>◌ {ℓ} : {B : Type ℓ} → Run (Unit {0}) → Run B → Run B
m >> k = m >>= λ _. k

-- `ASSERT`
abbrev pub assert : Bool → Run (Unit {0})
assert true = done tt
assert false = panic

-- An access through a pointer that may be NULL.
abbrev pub deref {ℓ} : {A : Type ℓ} → Option A → Run A
deref none = panic
deref (some a) = done a

abbrev pub Addr : Type 0
Addr = ℕ

-- `enum thread_status`
pub data Status : Type 0 where
  running ready blocked dying : Status

abbrev pub is_running : Status → Bool
is_running running = true
is_running _ = false

abbrev pub is_blocked : Status → Bool
is_blocked blocked = true
is_blocked _ = false

abbrev pub is_dying : Status → Bool
is_dying dying = true
is_dying _ = false

-- `struct thread`, its fields for scheduling. Priorities are 0 to 63.
pub record Thread : Type 0 where
  pub tid : ℕ
  pub status : Status
  pub priority : ℕ
  pub current_priority : ℕ
  pub donated_priority : List Addr
  pub block_lock : Option Addr
  pub sleep_end : ℕ
  pub parent : ℕ
  pub pagedir : Option Addr

pub record Sema : Type 0 where
  pub value : ℕ
  pub waiters : List Addr

pub record Lock : Type 0 where
  pub holder : Option Addr
  pub semaphore : Sema

-- The address of a semaphore: the one inside a lock, or one that stands alone.
pub data SemaPtr : Type 0 where
  of_lock : Addr → SemaPtr
  alone : Addr → SemaPtr

-- `struct semaphore_elem`
pub record SemaElem : Type 0 where
  pub semaphore : SemaPtr
  pub priority : ℕ

-- The static variables of thread.c and timer.c, and the memory that they point to.
pub record Kernel : Type 0 where
  pub threads : Addr → Thread
  pub locks : Addr → Lock
  pub semas : Addr → Sema
  pub conds : Addr → List SemaElem
  pub ready_list : List Addr
  pub all_list : List Addr
  pub sleeping_list : List Addr
  pub current : Addr
  pub idle_thread : Option Addr
  pub initial_thread : Addr
  pub freed : List Addr
  pub next_tid : ℕ
  pub ticks : ℕ
  pub idle_ticks : ℕ
  pub user_ticks : ℕ
  pub kernel_ticks : ℕ
  pub thread_ticks : ℕ
  pub yield_on_return : Bool

abbrev pub update {ℓ} : {A : Type ℓ} → (Addr → A) → Addr → A → Addr → A
update f p v q = if q == p then v else f q

abbrev pub set_thread : Addr → Thread → Kernel → Kernel
set_thread p t k = record k { threads = update k.threads p t }

abbrev pub set_status : Addr → Status → Kernel → Kernel
set_status p s k = set_thread p (record (k.threads p) { status = s }) k

abbrev pub set_lock : Addr → Lock → Kernel → Kernel
set_lock p l k = record k { locks = update k.locks p l }

abbrev pub get_sema : SemaPtr → Kernel → Sema
get_sema (of_lock p) k = (k.locks p).semaphore
get_sema (alone p) k = k.semas p

abbrev pub set_sema : SemaPtr → Sema → Kernel → Kernel
set_sema (of_lock p) s k = set_lock p (record (k.locks p) { semaphore = s }) k
set_sema (alone p) s k = record k { semas = update k.semas p s }
