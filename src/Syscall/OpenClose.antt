-- ===== src/Syscall/OpenClose.antt =====
-- `sys_open` and `sys_close` on the table of open files.
use operating_system_col.Base.{
  Bool, ℕ, suc, ◌+◌, ◌%◌, ◌<◌, ◌≡◌, ◌≢◌, refl, sym, ap, ◌∙◌, ◌⊎◌, inl, inr, true, false, Option,
  none, some, List, [], ◌∷◌, ◌++◌, arith, ◌==◌, Bool-cases, append_assoc,
}
use operating_system_col.Syscall.{Machine, FileAux, Process, State, returned, word, error, int_max}
use operating_system_col.Syscall.Files.{
  find_file, get_file, insert_file, insert_opened, sys_open, close_from, sys_close, set_files,
}
use operating_system_col.Syscall.Ends.{Returns, Returns-mono, IsUnlocked}
use operating_system_col.Syscall.Table.{
  without, IsTable, Ascending-append, Ascending-without, without-above, without-appended,
  find_file-appended, find_file-append, find_file-without, find_file-kept,
}

-- What closing does to the files.
abbrev pub close_found : (M : Machine) → Option M.File → M.World → M.World
close_found M none w = w
close_found M (some f) w = M.file_close f w

next_fd : (n : ℕ) → n < int_max → (n + 1) % word ≡ suc n
next_fd n h = omega (arith, h)

module _ {M : Machine} where
  -- The table and the lock after the process has opened a file as `f`.
  pub record Opened (f : M.File) (p : Process M) (s' : State M) : Type 0 where
    pub table : IsTable s'
    pub appended : s'.running.file_list ≡ p.file_list ++ record { file = f; fd = p.fd } ∷ []
    pub found : get_file p.fd s' ≡ some f
    pub kept : (j : ℕ) → j ≢ p.fd → get_file j s' ≡ find_file j p.file_list
    pub unlocked : IsUnlocked s'

  -- How `insert_opened` ends: with a new descriptor if there is a file and memory for its entry, and
  -- else with -1 and the process as it was.
  abbrev pub OpenEnds : Option M.File → Bool → Process M → ℕ → State M → Type 0
  OpenEnds temp allocated p fd s' =
      ((f : M.File) × (temp ≡ some f) × (allocated ≡ true) × (fd ≡ p.fd) × Opened f p s')
      ⊎ (((temp ≡ none) ⊎ (allocated ≡ false)) × (fd ≡ error) × (s'.running ≡ p) × IsUnlocked s')

  insert_file-Opened :
      (f : M.File) (s : State M)
      → IsTable s
      → IsUnlocked s
      → s.running.fd < int_max
      → Returns (OpenEnds (some f) (M.malloc s.world).0 s.running) (insert_file f s)
  unfolding insert_file
  insert_file-Opened f s t u h = elim (Bool-cases (M.malloc s.world).0) [
    | inl e ↦
        rw (e, next_fd s.running.fd h)
          (inl (
            f,
            refl,
            refl,
            refl,
            record {
              table = Ascending-append 2 s.running.fd f s.running.file_list t;
              appended = refl;
              found = find_file-appended 2 s.running.fd f s.running.file_list t;
              kept = λ j k. find_file-append s.running.fd j f s.running.file_list k;
              unlocked = u;
            },
          ))
    | inr e ↦ rw e (inr (inr refl, refl, refl, u))
  ]

  insert_opened-Opened :
      (temp : Option M.File) (s : State M)
      → IsTable s
      → IsUnlocked s
      → s.running.fd < int_max
      → Returns (OpenEnds temp (M.malloc s.world).0 s.running) (insert_opened temp s)
  insert_opened-Opened none s t u h = inr (inl refl, refl, refl, u)
  insert_opened-Opened (some f) s t u h = insert_file-Opened f s t u h

  -- `sys_open` from a state with a well-formed table, while the thread does not hold the lock of the
  -- file system and its next descriptor is below 2 ^ 31 - 1, runs to its end. If the file system opens
  -- the file and `malloc` then gives memory, the next descriptor is returned and names that file, every
  -- other one is as it was, and the table stays well formed. If there is no such file or no memory, -1
  -- is returned and the process is as before. The lock is free at the end on every branch.
  pub sys_open-Opened :
      (name : List ℕ) (s : State M)
      → IsTable s
      → IsUnlocked s
      → s.running.fd < int_max
      → Returns
          (OpenEnds
            (M.filesys_open name s.world).0
            (M.malloc (M.filesys_open name s.world).1).0
            s.running)
          (sys_open name s)
  unfolding sys_open
  sys_open-Opened name s t u h =
      let (temp, w) = M.filesys_open name s.world in
      rw u (insert_opened-Opened temp (record s { world = w; has_file_lock = false }) t refl h)

  -- The table after `sys_close`: the descriptor is gone, and its file is closed.
  pub record Closed (fd : ℕ) (s s' : State M) : Type 0 where
    pub table : IsTable s'
    pub removed : s'.running.file_list ≡ without fd s.running.file_list
    pub gone : get_file fd s' ≡ none
    pub kept : (j : ℕ) → j ≢ fd → get_file j s' ≡ get_file j s
    pub closes : s'.world ≡ close_found M (get_file fd s) s.world
    pub same_fd : s'.running.fd ≡ s.running.fd
    pub unlocked : IsUnlocked s'

  -- The state after the loop of `sys_close`.
  abbrev closed_state : ℕ → List (FileAux M) → List (FileAux M) → State M → State M
  closed_state fd seen rest s = record s {
    world = close_found M (find_file fd rest) s.world;
    running = record s.running { file_list = seen ++ without fd rest };
  }

  close_from_lem :
      (fd : ℕ) (seen rest : List (FileAux M)) (s : State M)
      → IsUnlocked s
      → s.running.file_list ≡ seen ++ rest
      → close_from fd false seen rest s ≡ returned tt (closed_state fd seen rest s)
  close_from_lem fd seen [] s u e = ap (λ l. returned tt (set_files l s)) e
  close_from_lem fd seen (fa ∷ rest) s u e = elim (Bool-cases (fa.fd == fd)) [
    | inl k ↦ rw (k, u)
    | inr k ↦
        let next =
          close_from_lem fd (seen ++ fa ∷ []) rest s u
            (e ∙ sym (append_assoc seen (fa ∷ []) rest)) in
        rw k (
          next
          ∙ ap
              (λ l. returned tt (record s {
                world = close_found M (find_file fd rest) s.world;
                running = record s.running { file_list = l };
              }))
              (append_assoc seen (fa ∷ []) (without fd rest)))
  ]

  -- `sys_close` of any descriptor, from a state with a well-formed table while the thread does not
  -- hold the lock of the file system, runs to its end. The descriptor then names no file, every other
  -- one names what it did, `file_close` has been called on the descriptor's file and on no other (on
  -- none if it named none), the table stays well formed, and the lock is free.
  pub sys_close-Closed :
      (fd : ℕ) (s : State M)
      → IsTable s
      → IsUnlocked s
      → Returns (λ _ s'. Closed fd s s') (sys_close fd false s)
  unfolding sys_close
  sys_close-Closed fd s t u = rw (close_from_lem fd [] s.running.file_list s u refl) (record {
    table = Ascending-without 2 s.running.fd fd s.running.file_list t;
    removed = refl;
    gone = find_file-without 2 s.running.fd fd s.running.file_list t;
    kept = λ j k. find_file-kept fd j s.running.file_list k;
    closes = refl;
    same_fd = refl;
    unlocked = u;
  })

  closed_again :
      (s s' : State M) (fd : ℕ)
      → IsTable s
      → IsUnlocked s
      → s.running.fd < int_max
      → (temp : Option M.File) (allocated : Bool) → OpenEnds temp allocated s.running fd s'
      → Returns (λ _ s''. s''.running.file_list ≡ s.running.file_list) (sys_close fd false s')
  closed_again s s' fd t u h temp allocated (inl (f, _, _, e, o)) =
      Returns-mono (λ _ s''. Closed fd s' s'') _ (sys_close fd false s')
        (sys_close-Closed fd s' o.table o.unlocked)
        λ _ s'' c.
          c.removed
          ∙ ap (without fd) o.appended
          ∙ ap (λ n. without n (s.running.file_list ++ record { file = f; fd = s.running.fd } ∷ []))
              e
          ∙ without-appended 2 s.running.fd f s.running.file_list t
  closed_again s s' fd t u h temp allocated (inr (_, e, same, v)) =
      Returns-mono (λ _ s''. Closed fd s' s'') _ (sys_close fd false s')
        (sys_close-Closed fd s' (rw same t) v)
        λ _ s'' c.
          c.removed
          ∙ ap (λ p. without fd p.file_list) same
          ∙ without-above 2 s.running.fd fd s.running.file_list t (omega (arith, h, e))

  -- `sys_open` and then `sys_close` of what it returned, whether that is a descriptor or -1, both run
  -- to their ends and leave the table of open files exactly as it was, from a well-formed table, with
  -- the lock free and the next descriptor below 2 ^ 31 - 1.
  pub sys_close-sys_open :
      (name : List ℕ) (s : State M)
      → IsTable s
      → IsUnlocked s
      → s.running.fd < int_max
      → Returns
          (λ fd s'.
            Returns (λ _ s''. s''.running.file_list ≡ s.running.file_list) (sys_close fd false s'))
          (sys_open name s)
  sys_close-sys_open name s t u h =
      let temp = (M.filesys_open name s.world).0 in
      let allocated = (M.malloc (M.filesys_open name s.world).1).0 in
      Returns-mono (OpenEnds temp allocated s.running) _ (sys_open name s)
        (sys_open-Opened name s t u h) λ fd s' o. closed_again s s' fd t u h temp allocated o
