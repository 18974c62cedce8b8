-- ===== src/Syscall/Address.antt =====
-- The checks of user addresses in userprog/syscall.c. Addresses are words.
use operating_system_col.Base.{
  ℕ, zero, suc, ◌+◌, ◌-◌, ◌*◌, ◌%◌, Bool, true, false, not, ◌&&◌, ◌||◌, Option, none, some, ltb,
  ◌==◌, if◌then◌else◌,
}
use operating_system_col.Syscall.{Machine, State, Outcome, returned, hangs, ◌>>=◌, word, error}
use operating_system_col.Syscall.Files.{set_world}
use operating_system_col.Syscall.Children.{page_size, sys_exit}

-- `PHYS_BASE`, 0xc0000000: user addresses are below it.
abbrev pub phys_base : ℕ
phys_base = 3221225472

-- 0x08048000, where the code of a user program starts.
abbrev pub code_base : ℕ
code_base = 134512640

-- `PFNO_TO_ADDR(ADDR_TO_PFNO(va))`
abbrev pub page_of : ℕ → ℕ
page_of va = va - va % page_size

-- What the loop of `validate_user_addr_range` does after it has looked at a byte.
pub data Probe : Type 0 where
  go_on : Probe
  stop : Bool → Probe

module _ (M : Machine) where
  abbrev grow : ℕ → ℕ → M.World → Bool × M.World
  grow a esp w = if ltb esp a then M.grow_stack (page_of a) w else (false, w)

  abbrev pub load_missing : ℕ → ℕ → Option M.Page → M.World → Bool × M.World
  load_missing a esp none w = grow a esp w
  load_missing a esp (some spg) w =
      let (loaded, w) = M.load_page spg (page_of a) w in if loaded then (true, w) else grow a esp w

  abbrev pub probe_byte : ℕ → ℕ → Bool → Option ℕ → M.World → Probe × M.World
  probe_byte a esp exact none w =
      let (ok, w) = load_missing a esp (M.lookup_page (page_of a) w) w in
      (if ok then go_on else stop false, w)
  probe_byte a esp exact (some byte) w = (if not exact && (byte == 0) then stop true else go_on, w)

  -- The body of the loop, at the address `a`.
  abbrev pub probe : ℕ → ℕ → Bool → M.World → Probe × M.World
  probe a esp exact w =
      if not (ltb a phys_base) || ltb a code_base
      then (stop false, w)
      else let (byte, w) = M.get_user a w in probe_byte a esp exact byte w

  abbrev pub validate_from : ℕ → ℕ → ℕ → ℕ → ℕ → Bool → M.World → Option (Bool × M.World)
  validate_from zero va i bcnt esp exact w = none
  validate_from (suc fuel) va i bcnt esp exact w = elim (ltb i bcnt || not exact) [
    | false ↦ some (true, w)
    | true ↦
        let (p, w) = probe ((va + i) % word) esp exact w in
        elim p [ stop b ↦ some (b, w) | go_on ↦ validate_from fuel va (i + 1) bcnt esp exact w ]
  ]

  unfoldable pub validate_user_addr_range : ℕ → ℕ → ℕ → Bool → M.World → Option (Bool × M.World)
  validate_user_addr_range va bcnt esp exact w =
      if va == 0 then some (false, w) else validate_from (phys_base - va + 1) va 0 bcnt esp exact w

module _ {M : Machine} where
  abbrev pub demand : Option (Bool × M.World) → State M → Outcome M (Unit {0})
  demand none s = hangs
  demand (some (true, w)) s = returned tt (set_world w s)
  demand (some (false, w)) s = sys_exit error (set_world w s)

  -- `if(!validate_user_addr_range(va, bcnt, esp, exact)) sys_exit(ERROR)`
  abbrev pub require : ℕ → ℕ → ℕ → Bool → State M → Outcome M (Unit {0})
  require va bcnt esp exact s = demand (validate_user_addr_range M va bcnt esp exact s.world) s

  abbrev pub check_from : ℕ → ℕ → ℕ → State M → Outcome M (Unit {0})
  check_from zero i sp s = returned tt s
  check_from (suc count) i sp s =
      require ((sp + 4 * i) % word) 4 sp true s >>= λ _ s. check_from count (i + 1) sp s

  unfoldable pub check : ℕ → ℕ → State M → Outcome M (Unit {0})
  check sp desired s = check_from (desired + 1) 0 sp s

  -- `pagedir_get_page` returns 0 for NULL.
  unfoldable pub convert : ℕ → State M → Outcome M ℕ
  convert loc s =
      let kernel_addr = M.pagedir_get_page loc s.world in
      if kernel_addr == 0 then sys_exit error s else returned kernel_addr s

  abbrev pub check_bytes : ℕ → ℕ → State M → Outcome M (Unit {0})
  check_bytes zero curr s = returned tt s
  check_bytes (suc count) curr s = convert curr s >>= λ _ s. check_bytes count ((curr + 1) % word) s

  unfoldable pub check_buffer : ℕ → ℕ → State M → Outcome M (Unit {0})
  check_buffer buffer size s = check_bytes size buffer s

  -- The loop of `check_str`, which tests the pointer that `convert` returns.
  abbrev pub check_chars : ℕ → ℕ → State M → Outcome M (Unit {0})
  check_chars zero file s = hangs
  check_chars (suc fuel) file s = convert file s >>= λ kernel_addr s. elim (kernel_addr == 0) [
    | true ↦ check_chars fuel ((file + 1) % word) s
    | false ↦ returned tt s
  ]

  unfoldable pub check_str : ℕ → State M → Outcome M (Unit {0})
  check_str file s = check_chars word file s
