-- ===== src/Syscall/Waiting.antt =====
-- `process_wait` against the exit of the child.
use operating_system_col.Base.{
  ℕ, ◌+◌, ◌-◌, ◌<◌, ◌≡◌, ◌≢◌, refl, sym, ap, ◌∙◌, inl, inr, true, false, some, arith, if◌then◌else◌,
  ◌==◌, lt→ltb, Bool-cases,
}
use operating_system_col.Syscall.{Machine, Process, State, Outcome, waits, ◌>>=◌, is_negative}
use operating_system_col.Syscall.Children.{
  set_child, search_child, finish_wait, wait_down, mark_waiting, wait_marked, wait_for,
  process_wait, report_exit,
}
use operating_system_col.Syscall.Ends.{Returns, Returns-mono}
use operating_system_col.Syscall.Family.{
  without_child, SamePids, without_child-same, find_child-same, SamePids-set_child, finish_wait_lem,
  child-set_child,
}

-- The status that a parent is owed: -1, or another negative number that was there, stays.
abbrev pub owed : ℕ → ℕ → ℕ
owed old status = if is_negative old then old else status

module _ {M : Machine} where
  -- What the parent sees of the child's exit, up to `thread_exit`, by the process `p`.
  abbrev pub child_exits : ℕ → Process M → State M → State M
  child_exits status p s = record (report_exit status (record s { running = p })) {
    running = s.running;
  }

  -- The result of a wait for the child `tid` at `c`, whose status is `status`.
  abbrev pub Collected : ℕ → ℕ → State M → ℕ → State M → Type 0
  Collected tid status s r s' =
      (r ≡ status) × (s'.running.children ≡ without_child tid s.child s.running.children)

  child-child_exits :
      (status c : ℕ) (p : Process M) (s : State M)
      → p.corresp ≡ c
      → (child_exits status p s).child c ≡ record (s.child c) {
        status = owed (s.child c).status status;
        wait_lock = (s.child c).wait_lock + 1;
      }
  unfolding report_exit
  child-child_exits status c p s e = let same : (c == c) ≡ true = ground arith in rw (e, same)

  child_exits-SamePids :
      (status : ℕ) (p : Process M) (s : State M) → SamePids s.child (child_exits status p s).child
  unfolding report_exit
  child_exits-SamePids status p s = SamePids-set_child p.corresp _ s refl

  wait_down-Collected :
      (tid c status : ℕ) (s : State M)
      → (s.child c).status ≡ status
      → 0 < (s.child c).wait_lock
      → Returns (Collected tid status s) (wait_down c s >>= λ _ s. finish_wait tid c s)
  unfolding wait_down
  wait_down-Collected tid c status s e h =
      let v = record (s.child c) { wait_lock = (s.child c).wait_lock - 1 } in
      rw (lt→ltb 0 (s.child c).wait_lock h, finish_wait_lem tid c (set_child c v s))
        (
          ap (λ x. x.status) (child-set_child c v s) ∙ e,
          without_child-same tid s.running.children s.child (set_child c v s).child
              (SamePids-set_child c v s refl),
        )

  wait_marked-Collected :
      (tid c status : ℕ) (s : State M)
      → (s.child c).status ≡ status
      → 0 < (s.child c).wait_lock
      → Returns (Collected tid status s) (wait_marked tid c s)
  wait_marked-Collected tid c status s e h = elim (Bool-cases ((s.child c).exit_status == 0)) [
    | inl k ↦ rw k (wait_down-Collected tid c status s e h)
    | inr k ↦ rw (k, finish_wait_lem tid c s) (e, refl)
  ]

  Collected-SamePids :
      (tid status : ℕ) (s s1 : State M)
      → SamePids s.child s1.child
      → s1.running.children ≡ s.running.children
      → (o : Outcome M ℕ) → Returns (Collected tid status s1) o
      → Returns (Collected tid status s) o
  Collected-SamePids tid status s s1 h e o r =
      Returns-mono (Collected tid status s1) _ o r λ a s' c. (
        c.0,
        c.1
            ∙ without_child-same tid s1.running.children s.child s1.child h
            ∙ ap (without_child tid s.child) e,
      )

  wait_for-Collected :
      (tid c status : ℕ) (s : State M)
      → (s.child c).waiting ≢ 1
      → (s.child c).status ≡ status
      → 0 < (s.child c).wait_lock
      → Returns (Collected tid status s) (wait_for tid c s)
  wait_for-Collected tid c status s h e k =
      let v = record (s.child c) { waiting = 1 } in
      let first : ((s.child c).waiting == 1) ≡ false = ground arith in
      let there = child-set_child c v s in
      rw first (
        Collected-SamePids tid status s (mark_waiting c s) (SamePids-set_child c v s refl) refl _ (
          wait_marked-Collected tid c status (mark_waiting c s) (ap (λ x. x.status) there ∙ e)
            (omega (arith, ap (λ x. x.wait_lock) there, k))))

  -- A child at `c`, the first with the identifier `tid` in the list of the parent, exits with a status,
  -- and the parent, which has not waited for it, then waits: `process_wait` runs to its end and returns
  -- that status, or the negative one that the kernel had noted, and the child leaves the list. This
  -- holds whatever `exit_status` is.
  pub process_wait-report_exit :
      (tid c status : ℕ) (p : Process M) (s : State M)
      → search_child tid s ≡ some c
      → p.corresp ≡ c
      → (s.child c).waiting ≢ 1
      → Returns
          (Collected tid (owed (s.child c).status status) s)
          (process_wait tid (child_exits status p s))
  unfolding process_wait
  process_wait-report_exit tid c status p s e f h =
      let s1 = child_exits status p s in
      let same = child_exits-SamePids status p s in
      let there = child-child_exits status c p s f in
      let found : search_child tid s1 ≡ some c =
        find_child-same tid s.running.children s s1 same ∙ e in
      rw found (
        Collected-SamePids tid _ s s1 same refl _ (
          wait_for-Collected tid c _ s1 (λ w. h (sym (ap (λ x. x.waiting) there) ∙ w))
            (ap (λ x. x.status) there) (omega (arith, ap (λ x. x.wait_lock) there))))

  pub wait_marked-waits :
      (tid c : ℕ) (s : State M)
      → (s.child c).exit_status ≡ 0
      → (s.child c).wait_lock ≡ 0
      → wait_marked tid c s ≡ waits c s
  unfolding wait_down
  wait_marked-waits tid c s e h = rw (e, h)

  -- The other order: a parent waits for a child whose entry has 0 for `exit_status`, whose semaphore is
  -- 0, and for which nobody has waited. (`thread_create` leaves `exit_status` of a new entry as `malloc`
  -- gives it, so that a child that runs has 0 there only if that memory was 0.) `process_wait` stops at
  -- the child's semaphore, and after the child's exit it goes on to its end, with the same result.
  pub report_exit-process_wait :
      (tid c status : ℕ) (p : Process M) (s : State M)
      → search_child tid s ≡ some c
      → p.corresp ≡ c
      → (s.child c).waiting ≢ 1
      → (s.child c).exit_status ≡ 0
      → (s.child c).wait_lock ≡ 0
      → (process_wait tid s ≡ waits c (mark_waiting c s))
        × Returns
            (Collected tid (owed (s.child c).status status) s)
            (wait_down c (child_exits status p (mark_waiting c s)) >>= λ _ s. finish_wait tid c s)
  unfolding process_wait
  report_exit-process_wait tid c status p s e f h k l =
      let v = record (s.child c) { waiting = 1 } in
      let s1 = mark_waiting c s in
      let s2 = child_exits status p s1 in
      let marked : s1.child c ≡ v = child-set_child c v s in
      let first : ((s.child c).waiting == 1) ≡ false = ground arith in
      let there = child-child_exits status c p s1 f in
      let blocks : process_wait tid s ≡ waits c s1 =
        rw (e, first)
          (wait_marked-waits tid c s1 (ap (λ x. x.exit_status) marked ∙ k)
            (ap (λ x. x.wait_lock) marked ∙ l)) in
      let same : SamePids s.child s2.child =
        λ a. child_exits-SamePids status p s1 a ∙ SamePids-set_child c v s refl a in
      (
        blocks,
        Collected-SamePids tid _ s s2 same refl _ (
            wait_down-Collected tid c _ s2
              (ap (λ x. x.status) there ∙ ap (λ x. owed x.status status) marked)
              (omega (arith, ap (λ x. x.wait_lock) there))),
      )
