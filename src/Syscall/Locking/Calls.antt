-- ===== src/Syscall/Locking/Calls.antt =====
-- The lock of the file system across `syscall_handler`.
use operating_system_col.Base.{
  ◌*◌, ℕ, zero, suc, ◌+◌, ◌≡◌, refl, inl, inr, Bool, true, false, Option, none, some, Bool-cases,
  ◌%◌, ◌==◌, ◌⊎◌,
}
use operating_system_col.Syscall.{Machine, State, Outcome, word, error}
use operating_system_col.Syscall.Address.{
  validate_user_addr_range, demand, require, check_from, check, convert, check_bytes, check_buffer,
  check_chars, check_str,
}
use operating_system_col.Syscall.Handler.{
  check_name, sys_halt, Number, call_halt, call_exit, call_exec, call_wait, call_create,
  call_remove, call_open, call_filesize, call_read, call_write, call_seek, call_close, call_unknown,
  number_of, argument, dispatch, init_lock, syscall_handler,
}
use operating_system_col.Syscall.Ends.{IsUnlocked, Unlocks, Unlocks-bind}
use operating_system_col.Syscall.Locking.{
  Unlocks-if, Unlocks-sys_open, Unlocks-sys_create, Unlocks-sys_remove, Unlocks-sys_write,
  Unlocks-sys_seek, Unlocks-sys_read, Unlocks-sys_file_size, Unlocks-sys_close,
}
use operating_system_col.Syscall.Locking.Exits.{
  Unlocks-process_wait, Unlocks-sys_exit, Unlocks-sys_exec,
}

module _ {M : Machine} where
  Unlocks-demand :
      (out : Option (Bool × M.World)) (s : State M) → IsUnlocked s → Unlocks (demand out s)
  Unlocks-demand none s u = tt
  Unlocks-demand (some (true, w)) s u = u
  Unlocks-demand (some (false, w)) s u = Unlocks-sys_exit _ error _ u

  Unlocks-require :
      (va bcnt esp : ℕ) (exact : Bool) (s : State M)
      → IsUnlocked s
      → Unlocks (require va bcnt esp exact s)
  Unlocks-require va bcnt esp exact s u =
      Unlocks-demand (validate_user_addr_range M va bcnt esp exact s.world) s u

  Unlocks-check_from :
      (count i sp : ℕ) (s : State M) → IsUnlocked s → Unlocks (check_from count i sp s)
  Unlocks-check_from zero i sp s u = u
  Unlocks-check_from (suc count) i sp s u =
      Unlocks-bind _ _ (Unlocks-require ((sp + 4 * i) % word) 4 sp true s u)
        λ _ s v. Unlocks-check_from count (i + 1) sp s v

  Unlocks-check : (sp desired : ℕ) (s : State M) → IsUnlocked s → Unlocks (check sp desired s)
  unfolding check
  Unlocks-check sp desired s u = Unlocks-check_from (desired + 1) 0 sp s u

  Unlocks-convert : (loc : ℕ) (s : State M) → IsUnlocked s → Unlocks (convert loc s)
  unfolding convert
  Unlocks-convert loc s u =
      Unlocks-if (M.pagedir_get_page loc s.world == 0) _ _ (Unlocks-sys_exit _ error s u) u

  Unlocks-check_bytes :
      (count curr : ℕ) (s : State M) → IsUnlocked s → Unlocks (check_bytes count curr s)
  Unlocks-check_bytes zero curr s u = u
  Unlocks-check_bytes (suc count) curr s u =
      Unlocks-bind _ _ (Unlocks-convert curr s u)
        λ _ s v. Unlocks-check_bytes count ((curr + 1) % word) s v

  Unlocks-check_buffer :
      (buffer size : ℕ) (s : State M) → IsUnlocked s → Unlocks (check_buffer buffer size s)
  unfolding check_buffer
  Unlocks-check_buffer buffer size s u = Unlocks-check_bytes size buffer s u

  Unlocks-elim :
      {A : Type 0} (b : Bool) (x y : Outcome M A)
      → Unlocks x
      → Unlocks y
      → Unlocks (elim b [ true ↦ x | false ↦ y ])
  Unlocks-elim true x y p q = p
  Unlocks-elim false x y p q = q

  Unlocks-check_chars :
      (fuel file : ℕ) (s : State M) → IsUnlocked s → Unlocks (check_chars fuel file s)
  Unlocks-check_chars zero file s u = tt
  Unlocks-check_chars (suc fuel) file s u =
      Unlocks-bind (convert file s) _ (Unlocks-convert file s u)
        λ k s v. Unlocks-elim (k == 0) _ _ (Unlocks-check_chars fuel ((file + 1) % word) s v) v

  Unlocks-check_str : (file : ℕ) (s : State M) → IsUnlocked s → Unlocks (check_str file s)
  unfolding check_str
  Unlocks-check_str file s u = Unlocks-check_chars word file s u

  Unlocks-check_name :
      (esp desired : ℕ) (s : State M) → IsUnlocked s → Unlocks (check_name esp desired s)
  Unlocks-check_name esp desired s u =
      Unlocks-bind (check esp desired s) _ (Unlocks-check esp desired s u) λ _ s v.
        Unlocks-bind _ _ (Unlocks-require (argument esp 1 s) 4 esp false s v)
          λ _ s w. Unlocks-check_str (argument esp 1 s) s w

  Unlocks-dispatch :
      (n : Number) (esp eax : ℕ) (s : State M) → IsUnlocked s → Unlocks (dispatch n esp eax s)
  unfolding sys_halt
  Unlocks-dispatch call_halt esp eax s u = tt
  Unlocks-dispatch call_exit esp eax s u =
      Unlocks-bind (check esp 1 s) _ (Unlocks-check esp 1 s u)
        λ _ s v. Unlocks-sys_exit _ (argument esp 1 s) s v
  Unlocks-dispatch call_exec esp eax s u =
      Unlocks-bind (check_name esp 1 s) _ (Unlocks-check_name esp 1 s u)
        λ _ s v. Unlocks-sys_exec _ s v
  Unlocks-dispatch call_wait esp eax s u =
      Unlocks-bind (check esp 1 s) _ (Unlocks-check esp 1 s u)
        λ _ s v. Unlocks-process_wait (argument esp 1 s) s v
  Unlocks-dispatch call_create esp eax s u =
      Unlocks-bind (check_name esp 2 s) _ (Unlocks-check_name esp 2 s u)
        λ _ s v. Unlocks-bind _ _ (Unlocks-sys_create _ (argument esp 2 s) s v) λ _ s w. w
  Unlocks-dispatch call_remove esp eax s u =
      Unlocks-bind (check_name esp 1 s) _ (Unlocks-check_name esp 1 s u)
        λ _ s v. Unlocks-bind _ _ (Unlocks-sys_remove _ s v) λ _ s w. w
  Unlocks-dispatch call_open esp eax s u =
      Unlocks-bind (check_name esp 1 s) _ (Unlocks-check_name esp 1 s u)
        λ _ s v. Unlocks-sys_open _ s v
  Unlocks-dispatch call_filesize esp eax s u =
      Unlocks-bind (check esp 1 s) _ (Unlocks-check esp 1 s u)
        λ _ s v. Unlocks-sys_file_size (argument esp 1 s) s v
  Unlocks-dispatch call_read esp eax s u =
      Unlocks-bind (check esp 3 s) _ (Unlocks-check esp 3 s u) λ _ s v.
        Unlocks-bind _ _ (Unlocks-require (argument esp 2 s) 4 esp true s v) λ _ s w.
          Unlocks-bind _ _ (Unlocks-check_buffer _ _ s w) λ _ s x. Unlocks-sys_read _ _ _ s x
  Unlocks-dispatch call_write esp eax s u =
      Unlocks-bind (check esp 3 s) _ (Unlocks-check esp 3 s u) λ _ s v.
        Unlocks-bind _ _ (Unlocks-require (argument esp 2 s) _ esp true s v) λ _ s w.
          Unlocks-bind _ _ (Unlocks-check_buffer _ _ s w) λ _ s x. Unlocks-sys_write _ _ _ s x
  Unlocks-dispatch call_seek esp eax s u =
      Unlocks-bind (check esp 2 s) _ (Unlocks-check esp 2 s u)
        λ _ s v. Unlocks-bind _ _ (Unlocks-sys_seek _ _ s v) λ _ s w. w
  Unlocks-dispatch call_close esp eax s u =
      Unlocks-bind (check esp 1 s) _ (Unlocks-check esp 1 s u)
        λ _ s v. Unlocks-bind _ _ (Unlocks-sys_close _ false s v) λ _ s w. w
  Unlocks-dispatch call_unknown esp eax s u = u

  init_lock-IsUnlocked :
      (s : State M) → (s.lock_flag ≡ true) ⊎ IsUnlocked s → IsUnlocked (init_lock s)
  init_lock-IsUnlocked s u = elim (Bool-cases s.lock_flag) [
    | inl e ↦ rw e refl
    | inr e ↦ elim u [ inl f ↦ absurd cc | inr v ↦ rw e v ]
  ]

  -- Whatever the user's stack holds, the file system does and the page tables say: in
  -- `syscall_handler` no `ASSERT` on the lock of the file system fails, and where the call returns, the
  -- process exits or it starts to wait for a child, the thread does not hold that lock. The thread does
  -- not hold it before the call, or the call is the first one.
  pub syscall_handler-Unlocks :
      (esp eax : ℕ) (s : State M)
      → (s.lock_flag ≡ true) ⊎ IsUnlocked s
      → Unlocks (syscall_handler esp eax s)
  unfolding syscall_handler
  syscall_handler-Unlocks esp eax s u =
      Unlocks-bind _ _ (Unlocks-require esp 4 esp true (init_lock s) (init_lock-IsUnlocked s u))
        λ _ s v. Unlocks-dispatch (number_of (argument esp 0 s)) esp eax s v
