-- ===== src/UserThreads/Rotation.antt =====
-- The run queue under the scheduler, as a list.
use operating_system_col.Base.{
  ℕ, zero, suc, ◌<◌, ◌≡◌, ◌≢◌, refl, sym, ap, ◌∙◌, inl, inr, Bool, true, List, [], ◌∷◌, ◌++◌, arith,
  lt→ltb, ◌==◌, if◌then◌else◌, Bool-cases, subst,
}
use operating_system_col.ThreadQueue.{Queue, qpop, get_head}
use operating_system_col.ThreadQueue.Refine.{contents, items, IsRing, qpush-Pushed, qpop-Popped}
use operating_system_col.UserThreads.{
  Tcb, Library, Control, starts, resumes, is_off, schedule, rotate,
}

-- The run queue is a well-formed ring with these threads, from its head on.
pub record Queued (l : List ℕ) (s : Library) : Type 0 where
  pub ring : IsRing s.ready
  pub holds : contents s.ready ≡ l

-- The list after a switch.
abbrev pub rotated : Bool → ℕ → List ℕ → List ℕ
rotated off t rest = if off then rest else rest ++ t ∷ []

abbrev first_or : List ℕ → ℕ → ℕ
first_or [] d = d
first_or (x ∷ l) d = x

abbrev rest_of : List ℕ → List ℕ
rest_of [] = []
rest_of (x ∷ l) = l

items-first : (q : ℕ → ℕ) (m n s x : ℕ) (l : List ℕ) → items q m n s ≡ x ∷ l → (q s ≡ x) × (0 < n)
items-first q m zero s x l e = absurd cc
items-first q m (suc n) s x l e = (ap (λ k. first_or k 0) e, omega arith)

contents-head : (q : Queue) (x : ℕ) (l : List ℕ) → contents q ≡ x ∷ l → get_head q ≡ x
unfolding get_head
contents-head q x l e = (items-first q.q q.max_threads q.size q.head x l e).0

contents-size : (q : Queue) (x : ℕ) (l : List ℕ) → contents q ≡ x ∷ l → 0 < q.size
contents-size q x l e = (items-first q.q q.max_threads q.size q.head x l e).1

qpop-room : (q : Queue) → IsRing q → 0 < q.size → (qpop q).1.size < (qpop q).1.max_threads
unfolding qpop
qpop-room q r h = rw (lt→ltb 0 q.size h) (omega (arith, r.size_in, h))

-- The queue after a switch.
pub rotate-Queued :
    (s : Library) (rest : List ℕ)
    → Queued (s.running_tcb ∷ rest) s
    → Queued (rotated (is_off (s.tcb s.running_tcb)) s.running_tcb rest) (rotate s)
unfolding rotate
rotate-Queued s rest v =
    let some_left = contents-size s.ready s.running_tcb rest v.holds in
    let p = qpop-Popped s.ready v.ring some_left in
    let left : contents (qpop s.ready).1 ≡ rest = ap rest_of (sym p.front ∙ v.holds) in
    elim (Bool-cases (is_off (s.tcb s.running_tcb))) [
      | inl e ↦ rw e (record { ring = p.ring; holds = left })
      | inr e ↦
          let g =
            qpush-Pushed s.running_tcb (qpop s.ready).1 p.ring
              (qpop-room s.ready v.ring some_left) in
          rw e (record { ring = g.ring; holds = g.grown ∙ ap (λ l. l ++ s.running_tcb ∷ []) left })
    ]

-- The thread that runs after a switch is the head of the queue.
pub rotate-running :
    (s : Library) (x : ℕ) (l : List ℕ) → Queued (x ∷ l) (rotate s) → (rotate s).running_tcb ≡ x
unfolding rotate
rotate-running s x l v = contents-head (rotate s).ready x l v.holds

pub rotate-tcb : (s : Library) → (rotate s).tcb ≡ s.tcb
unfolding rotate
rotate-tcb s = refl

-- Where `schedule` goes when it runs the thread `t`.
abbrev pub goes_to : ℕ → (ℕ → Tcb) → Control
goes_to t tcb = if (tcb t).first == 0 then starts t else resumes t

-- The thread `t` runs, at the head of the queue `l`.
pub record Runs (t : ℕ) (l : List ℕ) (tcb : ℕ → Tcb) (out : Control × Library) : Type 0 where
  pub control : out.0 ≡ goes_to t tcb
  pub queued : Queued l out.1
  pub running : out.1.running_tcb ≡ t
  pub started : (out.1.tcb t).first ≢ 0

running-Runs : (s : Library) (l : List ℕ) → Queued l s → Runs s.running_tcb l s.tcb (schedule s)
running-Runs s l v = elim (Bool-cases ((s.tcb s.running_tcb).first == 0)) [
  | inl k ↦
      let same : (s.running_tcb == s.running_tcb) ≡ true = ground arith in
      rw k (record {
        control = rw k refl;
        queued = record { ring = v.ring; holds = v.holds };
        running = refl;
        started = rw same (λ z. cc);
      })
  | inr k ↦
      let later : (s.tcb s.running_tcb).first ≢ 0 = λ z. cc in
      rw k (record { control = rw k refl; queued = v; running = refl; started = later })
]

pub schedule-Runs :
    (s : Library) (t : ℕ) (l : List ℕ)
    → Queued l s
    → s.running_tcb ≡ t
    → Runs t l s.tcb (schedule s)
schedule-Runs s t l v e = subst (λ x. Runs x l s.tcb (schedule s)) e (running-Runs s l v)
