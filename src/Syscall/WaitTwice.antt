-- ===== src/Syscall/WaitTwice.antt =====
-- A second wait for one child.
use operating_system_col.Base.{
  ℕ, ◌-◌, ◌≡◌, refl, sym, ap, ◌∙◌, inl, inr, none, some, List, [], ◌∷◌, ◌==◌, ==_iff, ltb,
  Bool-cases, Option-cases, All-mono,
}
use operating_system_col.Syscall.{
  Machine, ChildProcess, State, Outcome, returned, exited, waits, hangs, powered_off, panic,
  undefined, ◌>>=◌, error,
}
use operating_system_col.Syscall.Children.{
  set_child, set_children, search_child, finish_wait, wait_down, mark_waiting, wait_marked,
  wait_for, process_wait,
}
use operating_system_col.Syscall.Family.{
  DistinctPids, without_child, SamePids, find_child-same, SamePids-set_child, finish_wait_lem,
  find_child-without, child-set_child,
}

DistinctPids-same :
    (child child' : ℕ → ChildProcess) (l : List ℕ)
    → SamePids child child'
    → DistinctPids child l
    → DistinctPids child' l
DistinctPids-same child child' [] h d = d
DistinctPids-same child child' (c ∷ l) h d =
    (All-mono _ _ l (λ a n e. n (sym (h a) ∙ e ∙ h c)) d.0, DistinctPids-same child child' l h d.1)

module _ {M : Machine} where
  -- How a second wait for the same child goes, once the first has returned or has come to wait.
  abbrev pub Refused : ℕ → Outcome M ℕ → Type 0
  Refused tid (returned r s') = process_wait tid s' ≡ returned error s'
  Refused tid (waits c s') = process_wait tid s' ≡ returned error s'
  Refused tid (exited s') = ⊥
  Refused tid hangs = ⊥
  Refused tid powered_off = ⊥
  Refused tid panic = ⊥
  Refused tid undefined = ⊥

  refused-unknown :
      (tid : ℕ) (s : State M) → search_child tid s ≡ none → process_wait tid s ≡ returned error s
  unfolding process_wait
  refused-unknown tid s e = rw e

  refused-waiting :
      (tid c : ℕ) (s : State M)
      → search_child tid s ≡ some c
      → (s.child c).waiting ≡ 1
      → process_wait tid s ≡ returned error s
  unfolding process_wait
  refused-waiting tid c s e w = rw (e, w)

  Refused-finish_wait :
      (tid c : ℕ) (s : State M)
      → DistinctPids s.child s.running.children
      → Refused tid (finish_wait tid c s)
  Refused-finish_wait tid c s d =
      let l = without_child tid s.child s.running.children in
      rw (finish_wait_lem tid c s) (
        refused-unknown tid (set_children l s) (
          find_child-same tid l s (set_children l s) (λ a. refl)
          ∙ find_child-without tid s.running.children s d))

  Refused-wait_down :
      (tid c : ℕ) (s : State M)
      → DistinctPids s.child s.running.children
      → search_child tid s ≡ some c
      → (s.child c).waiting ≡ 1
      → Refused tid (wait_down c s >>= λ _ s. finish_wait tid c s)
  unfolding wait_down
  Refused-wait_down tid c s d e w = elim (Bool-cases (ltb 0 (s.child c).wait_lock)) [
    | inl k ↦
        let v = record (s.child c) { wait_lock = (s.child c).wait_lock - 1 } in
        rw k (
          Refused-finish_wait tid c (set_child c v s) (
            DistinctPids-same s.child (set_child c v s).child s.running.children
              (SamePids-set_child c v s refl) d))
    | inr k ↦ rw k (refused-waiting tid c s e w)
  ]

  Refused-wait_marked :
      (tid c : ℕ) (s : State M)
      → DistinctPids s.child s.running.children
      → search_child tid s ≡ some c
      → (s.child c).waiting ≡ 1
      → Refused tid (wait_marked tid c s)
  Refused-wait_marked tid c s d e w = elim (Bool-cases ((s.child c).exit_status == 0)) [
    | inl k ↦ rw k (Refused-wait_down tid c s d e w)
    | inr k ↦ rw k (Refused-finish_wait tid c s d)
  ]

  found_wait :
      (tid c : ℕ) (s : State M)
      → search_child tid s ≡ some c
      → process_wait tid s ≡ wait_for tid c s
  unfolding process_wait
  found_wait tid c s e = rw e

  Refused-wait_for :
      (tid c : ℕ) (s : State M)
      → DistinctPids s.child s.running.children
      → search_child tid s ≡ some c
      → Refused tid (wait_for tid c s)
  Refused-wait_for tid c s d e =
      let v = record (s.child c) { waiting = 1 } in
      let same = SamePids-set_child c v s refl in
      elim (Bool-cases ((s.child c).waiting == 1)) [
        | inl k ↦ rw k (refused-waiting tid c s e ((==_iff (s.child c).waiting 1).0 k))
        | inr k ↦ rw k (
            Refused-wait_marked tid c (mark_waiting c s)
              (DistinctPids-same s.child (set_child c v s).child s.running.children same d)
              (find_child-same tid s.running.children s (mark_waiting c s) same ∙ e)
              (ap (λ x. x.waiting) (child-set_child c v s)))
      ]

  -- A process waits for any number, while no two of its children have one identifier: `process_wait`
  -- runs to its end or comes to wait for the child, and then a second wait for the same number returns
  -- -1 at once and changes nothing.
  pub process_wait-Refused :
      (tid : ℕ) (s : State M)
      → DistinctPids s.child s.running.children
      → Refused tid (process_wait tid s)
  process_wait-Refused tid s d = elim (Option-cases (search_child tid s)) [
    | inl e ↦ let same = refused-unknown tid s e in rw same same
    | inr (c, e) ↦ rw (found_wait tid c s e) (Refused-wait_for tid c s d e)
  ]
