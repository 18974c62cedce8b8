-- ===== src/Threads/Timer.antt =====
-- Which sleepers the loop of the timer interrupt wakes.
use mathlib.Core.List.{Perm, perm_middle}
use mathlib.Core.List.Perm
use mathlib.Core.Path.{subst}
use operating_system_col.Base.{
  ◌≡◌, refl, sym, ap, ◌∙◌, inl, inr, Bool, true, false, not, List, [], ◌∷◌, ◌++◌, All, arith,
  if◌then◌else◌, Bool-cases, leb, append_assoc,
}
use operating_system_col.Threads.{done, Addr, blocked, ready, Kernel, set_status}
use operating_system_col.Threads.Schedule.{thread_unblock, list_remove, wake, wake_sleepers}
use operating_system_col.Threads.WellFormed.{
  Returns, Returns-bind, Returns-mono, Avoids, Distinct, WellFormed,
}
use operating_system_col.Threads.Priority.{ReadySorted, Unblocked, thread_unblock_lem}

-- The elements that pass a test.
abbrev pub keep : (Addr → Bool) → List Addr → List Addr
keep p [] = []
keep p (t ∷ ts) = if p t then t ∷ keep p ts else keep p ts

abbrev pub is_due : Kernel → Addr → Bool
is_due k t = leb (k.threads t).sleep_end k.ticks

abbrev pub AllBlocked : Kernel → List Addr → Type 0
AllBlocked k = All (λ t. (k.threads t).status ≡ blocked)

remove_middle :
    (t : Addr) (pre ts : List Addr) → Avoids t pre → list_remove t (pre ++ t ∷ ts) ≡ pre ++ ts
unfolding list_remove
remove_middle t [] ts a = ground arith
remove_middle t (u ∷ pre) ts a = ground (arith, remove_middle t pre ts a.1)

AllBlocked-set_status :
    (t : Addr) (k : Kernel) (l r : List Addr)
    → Avoids t l
    → AllBlocked k l
    → AllBlocked (set_status t ready (record k { ready_list = r })) l
AllBlocked-set_status t k [] r a b = tt
AllBlocked-set_status t k (u ∷ l) r a b = (ground arith, AllBlocked-set_status t k l r a.1 b.1)

-- What the loop over the sleepers `ts` has done when it ends, `pre` having been left asleep.
pub record Woken (due : Addr → Bool) (pre ts : List Addr) (k k' : Kernel) : Type 0 where
  pub well_formed : WellFormed k'
  pub in_order : ReadySorted k'
  pub asleep : k'.sleeping_list ≡ pre ++ keep (λ t. not (due t)) ts
  pub woken : Perm k'.ready_list (keep due ts ++ k.ready_list)

-- What holds before each round.
record IsSleeping (due : Addr → Bool) (pre ts : List Addr) (k : Kernel) : Type 0 where
  pub well_formed : WellFormed k
  pub in_order : ReadySorted k
  pub list : k.sleeping_list ≡ pre ++ ts
  pub apart : All (λ t. Avoids t pre) ts
  pub distinct : Distinct ts
  pub blocked_all : AllBlocked k ts
  pub tested : (t : Addr) → is_due k t ≡ due t

apart-snoc :
    (t : Addr) (pre ts : List Addr)
    → Avoids t ts
    → All (λ u. Avoids u pre) ts
    → All (λ u. Avoids u (pre ++ t ∷ [])) ts
apart-snoc t pre [] a b = tt
apart-snoc t pre (u ∷ ts) a b = (Avoids-snoc pre b.0, apart-snoc t pre ts a.1 b.1)
  where
    Avoids-snoc : (l : List Addr) → Avoids u l → Avoids u (l ++ t ∷ [])
    Avoids-snoc [] p = (λ e. a.0 (sym e), tt)
    Avoids-snoc (x ∷ l) p = (p.0, Avoids-snoc l p.1)

same_due :
    (t : Addr) (k : Kernel) (r l : List Addr) (x : Addr)
    → is_due (set_status t ready (record k { ready_list = r; sleeping_list = l })) x ≡ is_due k x
same_due t k r l x = ap (λ n. leb n k.ticks) (same_end t k r l x)
  where
    same_end :
        (t : Addr) (k : Kernel) (r l : List Addr) (x : Addr)
        → ((set_status t ready (record k { ready_list = r; sleeping_list = l })).threads
            x).sleep_end
          ≡ (k.threads x).sleep_end
    same_end t k r l x = ground arith

wake_due :
    (t : Addr) (pre ts : List Addr) (k : Kernel)
    → is_due k t ≡ true
    → k.sleeping_list ≡ pre ++ t ∷ ts
    → Avoids t pre
    → wake t k ≡ thread_unblock t (record k { sleeping_list = pre ++ ts })
unfolding wake
wake_due t pre ts k e l a = rw e (
    ap (λ r. thread_unblock t (record k { sleeping_list = r }))
      (ap (list_remove t) l ∙ remove_middle t pre ts a))

wake_later : (t : Addr) (k : Kernel) → is_due k t ≡ false → wake t k ≡ done k
unfolding wake
wake_later t k e = rw e

asleep-WellFormed :
    (k : Kernel) (l : List Addr) → WellFormed k → WellFormed (record k { sleeping_list = l })
asleep-WellFormed k l w = record {
  on_cpu = w.on_cpu;
  queued = w.queued;
  distinct = w.distinct;
  idle = w.idle;
}

module _ (due : Addr → Bool) where
  stays :
      (t : Addr) (pre ts : List Addr) (k : Kernel)
      → IsSleeping due pre (t ∷ ts) k
      → IsSleeping due (pre ++ t ∷ []) ts k
  stays t pre ts k i = record {
    well_formed = i.well_formed;
    in_order = i.in_order;
    list = i.list ∙ sym (append_assoc pre (t ∷ []) ts);
    apart = apart-snoc t pre ts i.distinct.0 i.apart.1;
    distinct = i.distinct.1;
    blocked_all = i.blocked_all.1;
    tested = i.tested;
  }

  unblocks :
      (t : Addr) (pre ts : List Addr) (k k' : Kernel)
      → IsSleeping due pre (t ∷ ts) k
      → Unblocked t (record k { sleeping_list = pre ++ ts }) k'
      → IsSleeping due pre ts k'
  unblocks t pre ts k k' i u = record {
    well_formed = u.well_formed;
    in_order = u.in_order;
    list = ap (λ (x : Kernel). x.sleeping_list) u.frame;
    apart = i.apart.1;
    distinct = i.distinct.1;
    blocked_all =
        subst (λ x. AllBlocked x ts) (sym u.frame)
          (AllBlocked-set_status t k ts k'.ready_list i.distinct.0 i.blocked_all.1);
    tested = λ x.
        ap (λ (y : Kernel). is_due y x) u.frame
        ∙ (same_due t k k'.ready_list (pre ++ ts) x ∙ i.tested x);
  }

  woken_more :
      (t : Addr) (ts : List Addr) (a b c : List Addr)
      → Perm a (keep due ts ++ b)
      → Perm b (t ∷ c)
      → Perm a (t ∷ keep due ts ++ c)
  woken_more t ts a b c p q =
      Perm.trans p (Perm.trans (Perm.append_left (keep due ts) q) (perm_middle (keep due ts) c))

  wakes :
      (t : Addr) (pre ts : List Addr) (k k' k'' : Kernel)
      → due t ≡ true
      → Perm k'.ready_list (t ∷ k.ready_list)
      → Woken due pre ts k' k''
      → Woken due pre (t ∷ ts) k k''
  wakes t pre ts k k' k'' e p w = record {
    well_formed = w.well_formed;
    in_order = w.in_order;
    asleep = rw e w.asleep;
    woken = rw e (woken_more t ts k''.ready_list k'.ready_list k.ready_list w.woken p);
  }

  leaves :
      (t : Addr) (pre ts : List Addr) (k k' : Kernel)
      → due t ≡ false
      → Woken due (pre ++ t ∷ []) ts k k'
      → Woken due pre (t ∷ ts) k k'
  leaves t pre ts k k' e w = record {
    well_formed = w.well_formed;
    in_order = w.in_order;
    asleep = rw e (w.asleep ∙ append_assoc pre (t ∷ []) (keep (λ u. not (due u)) ts));
    woken = rw e w.woken;
  }

  wake_sleepers-Woken :
      (pre ts : List Addr) (k : Kernel)
      → IsSleeping due pre ts k
      → Returns (Woken due pre ts k) (wake_sleepers ts k)
  unfolding wake_sleepers
  wake_sleepers-Woken pre [] k i = record {
    well_formed = i.well_formed;
    in_order = i.in_order;
    asleep = i.list;
    woken = Perm.refl k.ready_list;
  }
  wake_sleepers-Woken pre (t ∷ ts) k i = elim (Bool-cases (due t)) [
    | inl e ↦
        let k1 = record k { sleeping_list = pre ++ ts } in
        rw (wake_due t pre ts k (i.tested t ∙ e) i.list i.apart.0) (
          Returns-bind (Unblocked t k1) (Woken due pre (t ∷ ts) k) (thread_unblock t k1)
            (wake_sleepers ts)
            (thread_unblock_lem t k1 (asleep-WellFormed k (pre ++ ts) i.well_formed) i.in_order
              i.blocked_all.0)
            λ k' u.
              Returns-mono (Woken due pre ts k') (Woken due pre (t ∷ ts) k) (wake_sleepers ts k')
                (wake_sleepers-Woken pre ts k' (unblocks t pre ts k k' i u))
                λ k'' w. wakes t pre ts k k' k'' e u.same_threads w)
    | inr e ↦ rw (wake_later t k (i.tested t ∙ e)) (
        Returns-mono (Woken due (pre ++ t ∷ []) ts k) (Woken due pre (t ∷ ts) k)
          (wake_sleepers ts k) (wake_sleepers-Woken (pre ++ t ∷ []) ts k (stays t pre ts k i))
          λ k' w. leaves t pre ts k k' e w)
  ]

All-nil : (l : List Addr) → All (λ t. Avoids t []) l
All-nil [] = tt
All-nil (t ∷ l) = (tt, All-nil l)

-- From a well-formed scheduler whose ready list is in order, with blocked and distinct threads on
-- the list of sleepers, the loop of the timer interrupt runs to its end. It wakes exactly the
-- sleepers whose time has come: they are on the ready list besides those that were there, the
-- others stay asleep in their order, and the ready list stays in order.
pub timer_wakes_due :
    (k : Kernel)
    → WellFormed k
    → ReadySorted k
    → Distinct k.sleeping_list
    → AllBlocked k k.sleeping_list
    → Returns (Woken (is_due k) [] k.sleeping_list k) (wake_sleepers k.sleeping_list k)
timer_wakes_due k w s d b = wake_sleepers-Woken (is_due k) [] k.sleeping_list k (record {
  well_formed = w;
  in_order = s;
  list = refl;
  apart = All-nil k.sleeping_list;
  distinct = d;
  blocked_all = b;
  tested = λ t. refl;
})
