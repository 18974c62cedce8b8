-- ===== src/Syscall/Family.antt =====
-- The list of a process's children, and what `removeChild` leaves of it.
use operating_system_col.Base.{
  ℕ, ◌≡◌, ◌≢◌, refl, sym, ap, ◌∙◌, inl, inr, true, false, none, List, [], ◌∷◌, ◌++◌, arith,
  if◌then◌else◌, ◌==◌, ==_iff, Bool-cases, append_assoc, All,
}
use operating_system_col.Syscall.{Machine, ChildProcess, State, returned}
use operating_system_col.Syscall.Children.{
  set_child, set_children, find_child, remove_from, remove_child, finish_wait,
}

-- No two of the children have one identifier.
abbrev pub DistinctPids : (ℕ → ChildProcess) → List ℕ → Type 0
DistinctPids child [] = Unit
DistinctPids child (c ∷ l) = All (λ d. (child d).pid ≢ (child c).pid) l × DistinctPids child l

-- The first child with this identifier is taken out.
abbrev pub without_child : ℕ → (ℕ → ChildProcess) → List ℕ → List ℕ
without_child tid child [] = []
without_child tid child (c ∷ l) =
    let rest = without_child tid child l in if (child c).pid == tid then l else c ∷ rest

-- Every object has the identifier that it had.
abbrev pub SamePids : (ℕ → ChildProcess) → (ℕ → ChildProcess) → Type 0
SamePids child child' = (a : ℕ) → (child' a).pid ≡ (child a).pid

pub without_child-same :
    (tid : ℕ) (l : List ℕ) (child child' : ℕ → ChildProcess)
    → SamePids child child'
    → without_child tid child' l ≡ without_child tid child l
without_child-same tid [] child child' h = refl
without_child-same tid (c ∷ l) child child' h = rw (h c, without_child-same tid l child child' h)

module _ {M : Machine} where
  pub find_child-same :
      (tid : ℕ) (l : List ℕ) (s s' : State M)
      → SamePids s.child s'.child
      → find_child tid l s' ≡ find_child tid l s
  find_child-same tid [] s s' h = refl
  find_child-same tid (c ∷ l) s s' h = rw (h c, find_child-same tid l s s' h)

  pub SamePids-set_child :
      (c : ℕ) (v : ChildProcess) (s : State M)
      → v.pid ≡ (s.child c).pid
      → SamePids s.child (set_child c v s).child
  SamePids-set_child c v s h a = elim (Bool-cases (a == c)) [
    | inl e ↦ let here = (==_iff a c).0 e in rw e (h ∙ ap (λ x. (s.child x).pid) (sym here))
    | inr e ↦ rw e
  ]

  remove_from_lem :
      (tid : ℕ) (seen rest : List ℕ) (s : State M)
      → s.running.children ≡ seen ++ rest
      → remove_from tid false seen rest s
        ≡ returned tt (set_children (seen ++ without_child tid s.child rest) s)
  remove_from_lem tid seen [] s e = ap (λ l. returned tt (set_children l s)) e
  remove_from_lem tid seen (c ∷ rest) s e = elim (Bool-cases ((s.child c).pid == tid)) [
    | inl k ↦ rw k
    | inr k ↦
        let next =
          remove_from_lem tid (seen ++ c ∷ []) rest s (e ∙ sym (append_assoc seen (c ∷ []) rest)) in
        rw k (
          next
          ∙ ap (λ l. returned tt (set_children l s))
              (append_assoc seen (c ∷ []) (without_child tid s.child rest)))
  ]

  -- What `process_wait` returns, and the children that it leaves.
  pub finish_wait_lem :
      (tid c : ℕ) (s : State M)
      → finish_wait tid c s
        ≡ returned
            (s.child c).status
            (set_children (without_child tid s.child s.running.children) s)
  unfolding finish_wait remove_child
  finish_wait_lem tid c s = rw (remove_from_lem tid [] s.running.children s refl)

  find_child-none :
      (tid n : ℕ) (l : List ℕ) (s : State M)
      → n ≡ tid
      → All (λ d. (s.child d).pid ≢ n) l
      → find_child tid l s ≡ none
  find_child-none tid n [] s e h = refl
  find_child-none tid n (c ∷ l) s e h =
      let other : ((s.child c).pid == tid) ≡ false = ground (arith, e, h.0) in
      rw other (find_child-none tid n l s e h.1)

  pub find_child-without :
      (tid : ℕ) (l : List ℕ) (s : State M)
      → DistinctPids s.child l
      → find_child tid (without_child tid s.child l) s ≡ none
  find_child-without tid [] s h = refl
  find_child-without tid (c ∷ l) s h = elim (Bool-cases ((s.child c).pid == tid)) [
    | inl e ↦
        let here = (==_iff (s.child c).pid tid).0 e in
        rw e (find_child-none tid (s.child c).pid l s here h.0)
    | inr e ↦ rw (e, e) (find_child-without tid l s h.1)
  ]

  pub child-set_child : (c : ℕ) (v : ChildProcess) (s : State M) → (set_child c v s).child c ≡ v
  child-set_child c v s = let same : (c == c) ≡ true = ground arith in rw same
