-- ===== src/Syscall/Errors.antt =====
-- System calls that are refused.
use operating_system_col.Base.{
  ℕ, suc, ◌+◌, ◌-◌, ◌%◌, ◌≤◌, ◌<◌, ◌≡◌, refl, ap, ◌∙◌, ◌⊎◌, inl, inr, true, false, none, some,
  arith, ltb, lt→ltb, le→ltb, ◌==◌, Bool-cases,
}
use operating_system_col.Syscall.{
  Machine, State, Outcome, returned, exited, waits, hangs, powered_off, panic, undefined, ◌>>=◌,
  word, error,
}
use operating_system_col.Syscall.Files.{get_file, sys_write, sys_seek, sys_read, sys_file_size}
use operating_system_col.Syscall.Children.{process_exit, thread_exit, report_exit, sys_exit}
use operating_system_col.Syscall.Address.{
  phys_base, code_base, probe, stop, go_on, validate_from, validate_user_addr_range,
}
use operating_system_col.Syscall.Handler.{init_lock, syscall_handler}
use operating_system_col.Syscall.Ends.{IsUnlocked}

probe_outside :
    (M : Machine) (a esp : ℕ) (w : M.World)
    → (a < code_base) ⊎ (phys_base ≤ a)
    → probe M a esp true w ≡ (stop false, w)
probe_outside M a esp w (inl h) = elim (Bool-cases (ltb a phys_base)) [
  | inl e ↦ rw (e, lt→ltb a code_base h)
  | inr e ↦ rw e
]
probe_outside M a esp w (inr h) = rw (le→ltb a phys_base h)

validate_outside :
    (M : Machine) (esp : ℕ) (w : M.World)
    → esp < word
    → (esp < code_base) ⊎ (phys_base ≤ esp)
    → validate_user_addr_range M esp 4 esp true w ≡ some (false, w)
unfolding validate_user_addr_range
validate_outside M esp w h out = elim (Bool-cases (esp == 0)) [
  | inl e ↦ rw e
  | inr e ↦
      let here : (esp + 0) % word ≡ esp = omega (arith, h) in
      let fuel : phys_base - esp + 1 ≡ suc (phys_base - esp) = omega arith in
      rw (e, fuel)
        (ap
          (λ p. elim p.0 [
            | stop b ↦ some (b, p.1)
            | go_on ↦ validate_from M (phys_base - esp) esp (0 + 1) 4 esp true p.1
          ])
          (ap (λ a. probe M a esp true w) here ∙ probe_outside M esp esp w out))
]

module _ {M : Machine} where
  -- With a descriptor that names no open file, other than 0 and 1, and for at least one byte,
  -- `sys_file_size`, `sys_write` and `sys_read` return -1, and with `sys_seek` all four leave the whole
  -- state as it was, the lock of the file system free as before.
  pub unknown_descriptor :
      (fd buffer size position : ℕ) (s : State M)
      → get_file fd s ≡ none
      → IsUnlocked s
      → 0 < size
      → 1 < fd
      → (sys_file_size fd s ≡ returned error s)
        × (sys_seek fd position s ≡ returned tt s)
        × (sys_write fd buffer size s ≡ returned error s)
        × (sys_read fd buffer size s ≡ returned error s)
  unfolding sys_file_size sys_seek sys_write sys_read
  unknown_descriptor fd buffer size position s e u h k =
      let not_out : (fd == 1) ≡ false = ground arith in
      let not_in : (fd == 0) ≡ false = ground arith in
      let some_bytes = lt→ltb 0 size h in
      (rw e, rw e, rw (some_bytes, not_out, e), rw (some_bytes, not_in, u, e))

  exit_ends :
      {B : Type 0} (o : Outcome M (Unit {0})) (f : Unit {0} → State M → Outcome M B)
      → ((o >>= λ _ s. exited s) >>= f) ≡ (o >>= λ _ s. exited s)
  exit_ends (returned a s) f = refl
  exit_ends (exited s) f = refl
  exit_ends (waits c s) f = refl
  exit_ends hangs f = refl
  exit_ends powered_off f = refl
  exit_ends panic f = refl
  exit_ends undefined f = refl

  -- Nothing comes after `sys_exit`.
  sys_exit-ends :
      {B : Type 0} (status : ℕ) (s : State M) (f : Unit {0} → State M → Outcome M B)
      → (sys_exit status s >>= f) ≡ sys_exit status s
  unfolding sys_exit thread_exit
  sys_exit-ends status s f = exit_ends (process_exit (report_exit status s)) f

  -- A system call whose stack pointer is not an address of a user program does not read the stack: the
  -- process exits with -1.
  pub syscall_handler-outside :
      (esp eax : ℕ) (s : State M)
      → esp < word
      → (esp < code_base) ⊎ (phys_base ≤ esp)
      → syscall_handler esp eax s ≡ sys_exit error (init_lock s)
  unfolding syscall_handler
  syscall_handler-outside esp eax s h out =
      rw (validate_outside M esp (init_lock s).world h out) (sys_exit-ends error (init_lock s) _)
