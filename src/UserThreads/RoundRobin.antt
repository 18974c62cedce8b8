-- ===== src/UserThreads/RoundRobin.antt =====
-- The scheduler takes the threads of the run queue in turn.
use operating_system_col.Base.{ℕ, ◌≡◌, Bool, List, [], ◌∷◌, ◌++◌, if◌then◌else◌}
use operating_system_col.UserThreads.{Library, Control, set_tcb, to_main}
use operating_system_col.UserThreads.Rotation.{Queued}

-- What stands behind the head after a switch from `t`.
abbrev pub behind : Bool → ℕ → List ℕ → List ℕ
behind off t rest = if off then rest else rest ++ t ∷ []

-- Main runs, at the head of the queue `l`, behind the call in which it was switched out.
pub record Returns (main : ℕ) (l : List ℕ) (out : Control × Library) : Type 0 where
  pub control : out.0 ≡ to_main
  pub running : out.1.running_tcb ≡ main
  pub queued : Queued l out.1

-- The thread that exits, marked as complete.
abbrev completed : Library → Library
completed s = set_tcb s.running_tcb (record (s.tcb s.running_tcb) { status = 1 }) s
