-- ===== src/Threads/WellFormed.antt =====
-- The invariant of the scheduler: who is running and who is on the ready list.
use operating_system_col.Base.{
  ◌≡◌, ◌≢◌, refl, sym, ◌∙◌, ap, ◌⊎◌, inl, inr, true, false, Option, none, some, List, [], ◌∷◌, All,
  arith, ◌==◌, if◌then◌else◌, List-cases, not, ◌&&◌,
}
use mathlib.Core.Path.{subst}
use operating_system_col.Threads.{
  Run, done, panic, out_of_fuel, ◌>>=◌, Addr, Status, running, ready, dying, Kernel, set_status,
  is_dying, is_running,
}
use operating_system_col.Threads.Schedule.{
  free_dying, thread_schedule_tail, switch_to, schedule, take_next, next_thread_to_run,
}

-- The code runs to its end, in a state of which `P` holds.
abbrev pub Returns {ℓ} : {A : Type ℓ} → (A → Type 0) → Run A → Type 0
Returns P (done a) = P a
Returns P panic = ⊥
Returns P out_of_fuel = ⊥

pub Returns-bind {ℓ κ} :
    {A : Type ℓ} {B : Type κ} (P : A → Type 0) (Q : B → Type 0) (r : Run A) (f : A → Run B)
    → Returns P r
    → ((a : A) → P a → Returns Q (f a))
    → Returns Q (r >>= f)
Returns-bind P Q (done a) f p g = g a p
Returns-bind P Q panic f p g = p
Returns-bind P Q out_of_fuel f p g = p

pub Returns-mono {ℓ} :
    {A : Type ℓ} (P Q : A → Type 0) (r : Run A) → Returns P r → ((a : A) → P a → Q a) → Returns Q r
Returns-mono P Q (done a) p g = g a p
Returns-mono P Q panic p g = p
Returns-mono P Q out_of_fuel p g = p

abbrev pub Avoids : Addr → List Addr → Type 0
Avoids t = All (λ u. u ≢ t)

abbrev pub Distinct : List Addr → Type 0
Distinct [] = Unit
Distinct (t ∷ ts) = Avoids t ts × Distinct ts

abbrev pub AllReady : Kernel → List Addr → Type 0
AllReady k = All (λ t. (k.threads t).status ≡ ready)

-- There is an idle thread, and it has not exited.
abbrev pub HasIdle : Kernel → Type 0
HasIdle k = (i : Addr) × (k.idle_thread ≡ some i) × ((k.threads i).status ≢ dying)

pub record WellFormed (k : Kernel) : Type 0 where
  pub on_cpu : (k.threads k.current).status ≡ running
  pub queued : AllReady k k.ready_list
  pub distinct : Distinct k.ready_list
  pub idle : HasIdle k

-- What a switch to `next` leaves as it was.
pub record Switched (next : Addr) (k k' : Kernel) : Type 0 where
  pub current : k'.current ≡ next
  pub locks : k'.locks ≡ k.locks
  pub semas : k'.semas ≡ k.semas
  pub conds : k'.conds ≡ k.conds
  pub sleeping_list : k'.sleeping_list ≡ k.sleeping_list
  pub threads : (q : Addr) → q ≢ next → k'.threads q ≡ k.threads q
  pub priorities : (q : Addr) → (k'.threads q).current_priority ≡ (k.threads q).current_priority

pub AllReady-set_status :
    (x : Addr) (s : Status) (k : Kernel) (l : List Addr)
    → Avoids x l
    → AllReady k l
    → AllReady (set_status x s k) l
AllReady-set_status x s k [] a r = tt
AllReady-set_status x s k (t ∷ l) a r = (ground arith, AllReady-set_status x s k l a.1 r.1)

-- A thread that is not ready is on no list of ready threads.
pub Avoids-unready :
    (x : Addr) (k : Kernel) (l : List Addr)
    → (k.threads x).status ≢ ready
    → AllReady k l
    → Avoids x l
Avoids-unready x k [] h r = tt
Avoids-unready x k (t ∷ l) h r =
    (λ e. h (subst (λ q. (k.threads q).status ≡ ready) e r.0), Avoids-unready x k l h r.1)

pub not_dying-set_status :
    (x : Addr) (s : Status) (k : Kernel) (q : Addr)
    → s ≢ dying
    → (k.threads q).status ≢ dying
    → ((set_status x s k).threads q).status ≢ dying
not_dying-set_status x s k q h i = ground arith

-- Freeing the page of a dying thread is recorded, and changes nothing else.
free_dying_lem :
    (p : Option Addr) (k : Kernel) → (f : List Addr) × (free_dying p k ≡ record k { freed = f })
unfolding free_dying
free_dying_lem none k = (k.freed, refl)
free_dying_lem (some p) k =
    elim (is_dying (k.threads p).status && not (p == k.initial_thread))
      as (λ b.
        (f : List Addr) × ((if b then record k { freed = p ∷ k.freed } else k)
          ≡ record k { freed = f })) [ true ↦ (p ∷ k.freed, refl) | false ↦ (k.freed, refl) ]

-- A switch to a thread that is not dying.
pub switch_to-WellFormed :
    (next : Addr) (k : Kernel)
    → AllReady k k.ready_list
    → Distinct k.ready_list
    → Avoids next k.ready_list
    → HasIdle k
    → (k.threads next).status ≢ dying
    → Returns
        (λ k'. WellFormed k' × (k'.ready_list ≡ k.ready_list) × Switched next k k')
        (switch_to next k)
unfolding switch_to thread_schedule_tail
switch_to-WellFormed next k r d a i h =
    let k' = record (set_status next running (record k { current = next })) { thread_ticks = 0 } in
    let prev = if k.current == next then none else some k.current in
    let (f, e) = free_dying_lem prev k' in
    rw (alive, e)
      (
        record {
          on_cpu = ground arith;
          queued = AllReady-set_status next running k k.ready_list a r;
          distinct = d;
          idle = (i.0, i.1, not_dying-set_status next running k i.0 (λ e. cc) i.2);
        },
        refl,
        record {
          current = refl;
          locks = refl;
          semas = refl;
          conds = refl;
          sleeping_list = refl;
          threads = ground arith;
          priorities = ground arith;
        },
      )
  where
    alive : is_dying (k.threads next).status ≡ false
    alive = ground arith

-- Where the thread that runs next came from, and what the switch left as it was.
pub record Chosen (k k' : Kernel) : Type 0 where
  pub from :
      ((k.ready_list ≡ []) × (k'.ready_list ≡ []) × (k.idle_thread ≡ some k'.current))
      ⊎ (k.ready_list ≡ k'.current ∷ k'.ready_list)
  pub same : Switched k'.current k k'

abbrev pub Rescheduled : Kernel → Kernel → Type 0
Rescheduled k k' = WellFormed k' × Chosen k k'

next_of_idle :
    (k : Kernel) (i : Addr)
    → k.ready_list ≡ []
    → k.idle_thread ≡ some i
    → next_thread_to_run k ≡ (some i, k)
unfolding next_thread_to_run
next_of_idle k i e is = ap (λ l. take_next l k) e ∙ ap (λ o. (o, k)) is

next_of_cons :
    (k : Kernel) (t : Addr) (rest : List Addr)
    → k.ready_list ≡ t ∷ rest
    → next_thread_to_run k ≡ (some t, record k { ready_list = rest })
unfolding next_thread_to_run
next_of_cons k t rest e = ap (λ l. take_next l k) e

not_running : (s : Status) → s ≢ running → is_running s ≡ false
not_running s h = ground arith

-- With nobody ready the idle thread runs, else the head of the ready list.
schedule_of_idle :
    (k : Kernel) (i : Addr)
    → k.ready_list ≡ []
    → k.idle_thread ≡ some i
    → (k.threads k.current).status ≢ running
    → schedule k ≡ switch_to i k
unfolding schedule
schedule_of_idle k i e is h = rw (not_running _ h, next_of_idle k i e is)

schedule_of_cons :
    (k : Kernel) (t : Addr) (rest : List Addr)
    → k.ready_list ≡ t ∷ rest
    → (k.threads k.current).status ≢ running
    → schedule k ≡ switch_to t (record k { ready_list = rest })
unfolding schedule
schedule_of_cons k t rest e h = rw (not_running _ h, next_of_cons k t rest e)

-- A well-formed ready list, and a current thread that has given up the processor.
pub record IsYielding (k : Kernel) : Type 0 where
  pub off_cpu : (k.threads k.current).status ≢ running
  pub queued : AllReady k k.ready_list
  pub distinct : Distinct k.ready_list
  pub idle : HasIdle k

retarget :
    (next : Addr) (l : List Addr) (k k' : Kernel)
    → Switched next (record k { ready_list = l }) k'
    → Switched k'.current k k'
retarget next l k k' s = record {
  current = refl;
  locks = s.locks;
  semas = s.semas;
  conds = s.conds;
  sleeping_list = s.sleeping_list;
  threads = λ q h. s.threads q (λ e. h (e ∙ sym s.current));
  priorities = s.priorities;
}

picked :
    (t : Addr) (rest : List Addr) (k' : Kernel) {l : List Addr}
    → l ≡ t ∷ rest
    → k'.current ≡ t
    → k'.ready_list ≡ rest
    → l ≡ k'.current ∷ k'.ready_list
picked t rest k' e c r = cc

pub schedule-Rescheduled : (k : Kernel) → IsYielding k → Returns (Rescheduled k) (schedule k)
schedule-Rescheduled k y = elim (List-cases k.ready_list) [
  | inl e ↦
      let (i, is, alive) = y.idle in
      rw (schedule_of_idle k i e is y.off_cpu) (
        Returns-mono _ (Rescheduled k) (switch_to i k)
          (switch_to-WellFormed i k y.queued y.distinct (subst (Avoids i) (sym e) tt) y.idle alive)
          λ a (w, l, s). (
            w,
            record {
              from = inl (e, l ∙ e, is ∙ ap some (sym s.current));
              same = retarget i k.ready_list k a s;
            },
          ))
  | inr (t, rest, e) ↦
      let k' = record k { ready_list = rest } in
      let queued = subst (AllReady k) e y.queued in
      let distinct = subst Distinct e y.distinct in
      rw (schedule_of_cons k t rest e y.off_cpu) (
        Returns-mono _ (Rescheduled k) (switch_to t k')
          (switch_to-WellFormed t k' queued.1 distinct.1 distinct.0 y.idle (λ d. cc (queued.0)))
          λ a (w, l, s). (
            w,
            record { from = inr (picked t rest a e s.current l); same = retarget t rest k a s },
          ))
]
