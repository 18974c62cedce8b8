-- ===== src/UserThreads/Attributes.antt =====
-- The attributes of a thread, of G/A3/Top/src/myThread.c. A pointer to them may be NULL; a function
-- returns its result, 0 or -1, and the attributes.
use operating_system_col.Base.{ℕ, ◌+◌, ◌≡◌, refl, Option, none, some}
use operating_system_col.Syscall.{error}

-- `struct myThread_attr`
pub record Attributes : Type 0 where
  pub stack_size : ℕ
  pub stack : ℕ
  pub sp : ℕ

-- `INITIAL_STACK_SIZE`
abbrev pub initial_stack_size : ℕ
initial_stack_size = 16384

-- `allocated` is the address that `malloc` gives.
unfoldable pub my_thread_attr_init : ℕ → Option Attributes → ℕ × Option Attributes
my_thread_attr_init allocated none = (error, none)
my_thread_attr_init allocated (some a) = (
  0,
  some (record {
    stack_size = initial_stack_size;
    stack = allocated;
    sp = allocated + initial_stack_size;
  }),
)

unfoldable pub my_thread_attr_destroy : Option Attributes → ℕ × Option Attributes
my_thread_attr_destroy none = (error, none)
my_thread_attr_destroy (some a) = (0, some (record { stack_size = 0; stack = 0; sp = 0 }))

unfoldable pub my_thread_attr_setstack : ℕ → ℕ → Option Attributes → ℕ × Option Attributes
my_thread_attr_setstack stackaddr stacksize none = (error, none)
my_thread_attr_setstack stackaddr stacksize (some a) =
    (0, some (record a { stack = stackaddr; stack_size = stacksize }))

-- `*stackaddr`, `*stacksize` are the two numbers that the caller had there.
unfoldable pub my_thread_attr_getstack : ℕ × ℕ → Option Attributes → ℕ × (ℕ × ℕ)
my_thread_attr_getstack old none = (error, old)
my_thread_attr_getstack old (some a) = (0, (a.stack, a.stack_size))

unfoldable pub my_thread_attr_setstackaddr : ℕ → Option Attributes → ℕ × Option Attributes
my_thread_attr_setstackaddr addr none = (error, none)
my_thread_attr_setstackaddr addr (some a) = (0, some (record a { stack = addr }))

unfoldable pub my_thread_attr_getstackaddr : ℕ → Option Attributes → ℕ × ℕ
my_thread_attr_getstackaddr old none = (error, old)
my_thread_attr_getstackaddr old (some a) = (0, a.stack)

unfoldable pub my_thread_attr_setstacksize : ℕ → Option Attributes → ℕ × Option Attributes
my_thread_attr_setstacksize stacksize none = (error, none)
my_thread_attr_setstacksize stacksize (some a) = (0, some (record a { stack_size = stacksize }))

-- It returns -1 whether the pointer is NULL or not.
unfoldable pub my_thread_attr_getstacksize : ℕ → Option Attributes → ℕ × ℕ
my_thread_attr_getstacksize old none = (error, old)
my_thread_attr_getstacksize old (some a) = (error, a.stack_size)

-- What `setstack` stores, `getstack` reads, and the two getters of one field agree with it.
pub getstack-setstack :
    (addr size : ℕ) (old : ℕ × ℕ) (a : Attributes)
    → let b = (my_thread_attr_setstack addr size (some a)).1 in
      (my_thread_attr_getstack old b ≡ (0, (addr, size)))
      × (my_thread_attr_getstackaddr old.0 b ≡ (0, addr))
      × (my_thread_attr_getstacksize old.1 b ≡ (error, size))
unfolding my_thread_attr_setstack my_thread_attr_getstack my_thread_attr_getstackaddr
    my_thread_attr_getstacksize
getstack-setstack addr size old a = (refl, refl, refl)
