-- ===== src/Syscall/Locking/Exits.antt =====
-- The lock of the file system across the code for children and for the end of a process.
use operating_system_col.Base.{
  ℕ, ◌+◌, inl, inr, Bool, true, false, Option, none, some, List, [], ◌∷◌, ◌++◌, Bool-cases, ◌==◌,
  ltb, length,
}
use operating_system_col.Syscall.{Machine, State}
use operating_system_col.Syscall.Files.{sys_close}
use operating_system_col.Syscall.Children.{
  page_size, remove_from, remove_child, finish_wait, wait_down, mark_waiting, wait_marked,
  wait_found, process_wait, search_child, note_exit, destroy_pages, process_exit, thread_exit,
  report_exit, sys_exit, add_child, note_load, await_load, process_execute, sys_exec,
}
use operating_system_col.Syscall.Ends.{IsUnlocked, Unlocks, Unlocks-bind}
use operating_system_col.Syscall.Locking.{Unlocks-if, Unlocks-sys_close}

module _ {M : Machine} where
  Unlocks-remove_from :
      (id : ℕ) (all : Bool) (seen rest : List ℕ) (s : State M)
      → IsUnlocked s
      → Unlocks (remove_from id all seen rest s)
  Unlocks-remove_from id all seen [] s u = u
  Unlocks-remove_from id all seen (c ∷ rest) s u = Unlocks-if all _ _ tt (
      Unlocks-if ((s.child c).pid == id) _ _ u
        (Unlocks-remove_from id all (seen ++ c ∷ []) rest s u))

  Unlocks-remove_child :
      (id : ℕ) (all : Bool) (s : State M) → IsUnlocked s → Unlocks (remove_child id all s)
  unfolding remove_child
  Unlocks-remove_child id all s u = Unlocks-remove_from id all [] s.running.children s u

  Unlocks-finish_wait : (tid c : ℕ) (s : State M) → IsUnlocked s → Unlocks (finish_wait tid c s)
  unfolding finish_wait
  Unlocks-finish_wait tid c s u =
      Unlocks-bind (remove_child tid false s) _ (Unlocks-remove_child tid false s u) λ _ s v. v

  Unlocks-wait_down : (c : ℕ) (s : State M) → IsUnlocked s → Unlocks (wait_down c s)
  unfolding wait_down
  Unlocks-wait_down c s u = Unlocks-if (ltb 0 (s.child c).wait_lock) _ _ u u

  Unlocks-wait_marked : (tid c : ℕ) (s : State M) → IsUnlocked s → Unlocks (wait_marked tid c s)
  Unlocks-wait_marked tid c s u =
      Unlocks-if ((s.child c).exit_status == 0) _ _
        (Unlocks-bind (wait_down c s) _ (Unlocks-wait_down c s u)
          λ _ s v. Unlocks-finish_wait tid c s v)
        (Unlocks-finish_wait tid c s u)

  Unlocks-wait_found :
      (tid : ℕ) (c : Option ℕ) (s : State M) → IsUnlocked s → Unlocks (wait_found tid c s)
  Unlocks-wait_found tid none s u = u
  Unlocks-wait_found tid (some c) s u =
      Unlocks-if ((s.child c).waiting == 1) _ _ u (Unlocks-wait_marked tid c (mark_waiting c s) u)

  pub Unlocks-process_wait : (tid : ℕ) (s : State M) → IsUnlocked s → Unlocks (process_wait tid s)
  unfolding process_wait
  Unlocks-process_wait tid s u = Unlocks-wait_found tid (search_child tid s) s u

  note_exit-IsUnlocked : (s : State M) → IsUnlocked s → IsUnlocked (note_exit s)
  note_exit-IsUnlocked s u = elim (Bool-cases (M.find_thread s.running.parent s.world)) [
    | inl e ↦ rw e u
    | inr e ↦ rw e u
  ]

  destroy_pages-IsUnlocked :
      (pd : Option ℕ) (s : State M) → IsUnlocked s → IsUnlocked (destroy_pages pd s)
  destroy_pages-IsUnlocked none s u = u
  destroy_pages-IsUnlocked (some pd) s u = u

  Unlocks-process_exit : (s : State M) → IsUnlocked s → Unlocks (process_exit s)
  unfolding process_exit
  Unlocks-process_exit s u =
      Unlocks-bind (sys_close 0 true s) _ (Unlocks-sys_close 0 true s u) λ _ s v.
        Unlocks-bind (remove_child 0 true s) _ (Unlocks-remove_child 0 true s v)
          λ _ s t. destroy_pages-IsUnlocked _ _ (note_exit-IsUnlocked s t)

  pub Unlocks-sys_exit {ℓ} :
      (A : Type ℓ) (status : ℕ) (s : State M) → IsUnlocked s → Unlocks (sys_exit {A = A} status s)
  unfolding sys_exit thread_exit report_exit
  Unlocks-sys_exit A status s u =
      Unlocks-bind (process_exit (report_exit status s)) _
        (Unlocks-process_exit (report_exit status s) u) λ _ s v. v

  note_load-IsUnlocked :
      (success : Bool) (c : ℕ) (s : State M) → IsUnlocked s → IsUnlocked (note_load success c s)
  unfolding note_load
  note_load-IsUnlocked true c s u = u
  note_load-IsUnlocked false c s u = u

  Unlocks-await_load :
      (file_name : List ℕ) (thread : Option (ℕ × ℕ)) (s : State M)
      → IsUnlocked s
      → Unlocks (await_load file_name thread s)
  unfolding add_child
  Unlocks-await_load file_name none s u = tt
  Unlocks-await_load file_name (some (tid, c)) s u =
      note_load-IsUnlocked (M.load file_name s.world).0 c _ u

  Unlocks-process_execute :
      (file_name : List ℕ) (s : State M) → IsUnlocked s → Unlocks (process_execute file_name s)
  unfolding process_execute
  Unlocks-process_execute file_name s u =
      Unlocks-if (ltb page_size (length file_name + 1)) _ _ u
        (Unlocks-if (M.palloc_get_page s.world).0 _ _ (Unlocks-await_load file_name _ _ u) u)

  pub Unlocks-sys_exec : (line : List ℕ) (s : State M) → IsUnlocked s → Unlocks (sys_exec line s)
  unfolding sys_exec
  Unlocks-sys_exec line s u =
      Unlocks-bind (process_execute line s) _ (Unlocks-process_execute line s u) λ _ s v. v
