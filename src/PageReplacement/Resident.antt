-- ===== src/PageReplacement/Resident.antt =====
-- The loop of the simulator over any policy that obeys the laws: the array `present`, the list
-- and the count of faults.
use native.Mathlib.Decide.{ℕ_discrete}
use operating_system_col.Base.{
  ℕ, ◌+◌, ◌≤◌, ◌<◌, ◌≡◌, ◌≢◌, refl, sym, ap, ◌∙◌, inl, inr, Bool, true, false, Option, some, List,
  [], ◌∷◌, length, arith, if◌then◌else◌, Bool-cases, lt→ltb, ◌==◌, All,
}
use operating_system_col.PageReplacement.Laws.{count, Succeeds, Succeeds-bind, Succeeds-mono, Laws}
use operating_system_col.PageReplacement.{
  Policy, Table, read_present, write_present, hit, load, replace, round, simulate,
}

-- The array `present` after the page `i` was marked.
marked :
    (i j : ℕ) (f : ℕ → Bool) (c c' : ℕ)
    → f i ≡ false
    → c ≡ (if f j then 1 else 0)
    → c' + 0 ≡ c + (if i == j then 1 else 0)
    → c' ≡ (if if j == i then true else f j then 1 else 0)
marked i j f c c' e h h' = elim (ℕ_discrete j i) [
  | yes same ↦ ground (arith, ap f same)
  | no ne ↦ ground arith
]

marked_range :
    (i j : ℕ) (f : ℕ → Bool) (n : ℕ)
    → i < n
    → (f j ≡ true → j < n)
    → (if j == i then true else f j) ≡ true
    → j < n
marked_range i j f n h k = ground arith

-- And after `v` was unmarked.
swapped :
    (i v j : ℕ) (f : ℕ → Bool) (c c' : ℕ)
    → f i ≡ false
    → f v ≡ true
    → c ≡ (if f j then 1 else 0)
    → c' + (if v == j then 1 else 0) ≡ c + (if i == j then 1 else 0)
    → c' ≡ (if if j == v then false else if j == i then true else f j then 1 else 0)
swapped i v j f c c' e g h h' = elim (ℕ_discrete j i) [
  | yes same ↦ elim (ℕ_discrete j v) [
    | yes same' ↦ absurd (true≢false (sym g ∙ ap f (sym same' ∙ same) ∙ e))
    | no ne ↦ ground (arith, ap f same)
  ]
  | no ne ↦ elim (ℕ_discrete j v) [ yes same' ↦ ground (arith, ap f same') | no ne' ↦ ground arith ]
]
  where
    true≢false : true ≢ false
    true≢false q = cc (q)

swapped_range :
    (i v j : ℕ) (f : ℕ → Bool) (n : ℕ)
    → i < n
    → (f j ≡ true → j < n)
    → (if j == v then false else if j == i then true else f j) ≡ true
    → j < n
swapped_range i v j f n h k = ground arith

apart : (i v : ℕ) (f : ℕ → Bool) → f i ≡ false → f v ≡ true → v ≢ i
apart i v f e g same = ground (arith, ap f same)

tallied : (b : Bool) (c : ℕ) → c ≡ (if b then 1 else 0) → 0 < c → b ≡ true
tallied true c h k = refl
tallied false c h k = absurd (omega (arith, h))

module _ {S : Type 0} (p : Policy S) (laws : Laws p) (capacity frames : ℕ) where
  -- The invariant of the loop. `tally` says that `present` marks the pages of the list, and that
  -- none stands there twice.
  pub record Resident (t : Table S) : Type 0 where
    pub valid : laws.Valid t.list
    pub tally : (j : ℕ) → count j (laws.pages t.list) ≡ (if t.present j then 1 else 0)
    pub bounded : p.size t.list ≤ capacity
    pub in_range : (j : ℕ) → t.present j ≡ true → j < frames + 5

  -- One turn on the page `i`.
  pub record Served (i : ℕ) (t t' : Table S) : Type 0 where
    pub after : Resident t'
    pub loaded : t'.present i ≡ true
    pub faults : t'.page_faults ≡ t.page_faults + (if t.present i then 0 else 1)

  hit-Served :
      (i : ℕ) (t : Table S)
      → Resident t
      → t.present i ≡ true
      → Succeeds (Served i t) (hit p capacity frames i t)
  unfolding hit
  hit-Served i t r e =
      let stands : 0 < count i (laws.pages t.list) = rw (r.tally i, e) (omega arith) in
      Succeeds-bind _ (Served i t) (p.touch i t.list) _ (laws.touches i t.list r.valid stands)
        λ l (v, n, c). record {
          after = record {
            valid = v;
            tally = λ j. c j ∙ r.tally j;
            bounded = omega (arith, n, r.bounded);
            in_range = r.in_range;
          };
          loaded = e;
          faults = rw e (omega arith);
        }

  -- `present` after `write_present` of a page in range.
  write_present-some :
      (i : ℕ) (b : Bool) (t : Table S)
      → i < frames + 5
      → write_present frames (some i) b t
        ≡ some (record t { present = λ j. if j == i then b else t.present j })
  unfolding write_present
  write_present-some i b t h = rw (lt→ltb i (frames + 5) h)

  load-Served :
      (timer i : ℕ) (t : Table S)
      → Resident t
      → t.present i ≡ false
      → i < frames + 5
      → p.size t.list < capacity
      → Succeeds (Served i t) (load p capacity frames timer i t)
  unfolding load
  load-Served timer i t r e h room =
      let (entered, grown) = laws.adds timer i t.list r.valid in
      rw
        (write_present-some i true
          (record t { list = p.add timer i t.list; page_faults = t.page_faults + 1 }) h)
        (record {
          after = record {
            valid = entered.valid;
            tally = λ j. marked i j t.present _ _ e (r.tally j) (entered.counts j);
            bounded = omega (arith, grown, room);
            in_range = λ j. marked_range i j t.present (frames + 5) h (r.in_range j);
          };
          loaded = ground arith;
          faults = rw e refl;
        })

  write_present-victim :
      (v : Option ℕ) (i : ℕ) (t : Table S)
      → v ≡ some i
      → i < frames + 5
      → write_present frames v false t
        ≡ some (record t { present = λ j. if j == i then false else t.present j })
  write_present-victim v i t e h =
      ap (λ o. write_present frames o false t) e ∙ write_present-some i false t h

  replace-Served :
      (timer i : ℕ) (t : Table S)
      → Resident t
      → t.present i ≡ false
      → i < frames + 5
      → 0 < p.size t.list
      → Succeeds (Served i t) (replace p capacity frames timer i t)
  unfolding replace
  replace-Served timer i t r e h full =
      Succeeds-bind _ (Served i t) (p.pop t.list) _ (laws.evicts timer i t.list r.valid full)
        λ (rem, l) v.
          let t1 : Table S = record t { list = p.add timer i l; page_faults = t.page_faults + 1 } in
          let g : t.present v.victim ≡ true =
            tallied (t.present v.victim) _ (r.tally v.victim) v.resident in
          rw
            (
              write_present-some i true t1 h,
              write_present-victim rem v.victim
                  (record t1 { present = λ j. if j == i then true else t.present j }) v.is_victim
                  (r.in_range v.victim g),
            )
            (record {
              after = record {
                valid = v.entered.valid;
                tally =
                    λ j. swapped i v.victim j t.present _ _ e g (r.tally j) (v.entered.counts j);
                bounded = omega (arith, v.same_size, r.bounded);
                in_range = λ j. swapped_range i v.victim j t.present (frames + 5) h (r.in_range j);
              };
              loaded = ground (arith, apart i v.victim t.present e g);
              faults = rw e refl;
            })

  read_present-some :
      (i : ℕ) (t : Table S) → i < frames + 5 → read_present frames i t ≡ some (t.present i)
  unfolding read_present
  read_present-some i t h = rw (lt→ltb i (frames + 5) h)

  -- In any state of the invariant, with at least one page frame, a turn on a page in range is
  -- defined, for any policy that obeys
  -- the laws. It keeps the invariant, leaves the page resident, and counts a fault exactly if the
  -- page was not resident.
  pub round-Served :
      (timer i : ℕ) (t : Table S)
      → 0 < capacity
      → Resident t
      → i < frames + 5
      → Succeeds (Served i t) (round p capacity frames timer i t)
  unfolding round
  round-Served timer i t some_room r h =
      rw (read_present-some i t h) (elim (Bool-cases (t.present i)) [
        | inl e ↦ rw (e, Bool-same (p.size t.list == capacity)) (hit-Served i t r e)
        | inr e ↦ elim (Bool-cases (p.size t.list == capacity)) [
          | inl f ↦ rw (e, f) (replace-Served timer i t r e h (ground arith))
          | inr f ↦ rw (e, f) (load-Served timer i t r e h (ground (arith, r.bounded)))
        ]
      ])
    where
      Bool-same : {A : Type 0} {a : A} (b : Bool) → (if b then a else a) ≡ a
      Bool-same true = refl
      Bool-same false = refl

  -- A run of the loop over the pages `refs`.
  pub record Ran (refs : List ℕ) (t t' : Table S) : Type 0 where
    pub after : Resident t'
    pub at_most : t'.page_faults ≤ t.page_faults + length refs
    pub not_fewer : t.page_faults ≤ t'.page_faults

  Ran-next :
      (i : ℕ) (refs : List ℕ) (t t' t'' : Table S)
      → Served i t t'
      → Ran refs t' t''
      → Ran (i ∷ refs) t t''
  Ran-next i refs t t' t'' s r = record {
    after = r.after;
    at_most = ground (arith, s.faults, r.at_most);
    not_fewer = omega (arith, s.faults, r.not_fewer);
  }

  -- For any policy that obeys the laws, a run over pages in range with at least one frame is defined
  -- to its end. It keeps the invariant, and counts a fault at most for each page that was asked for.
  pub simulate-Ran :
      (timer : ℕ) (refs : List ℕ) (t : Table S)
      → 0 < capacity
      → Resident t
      → All (λ i. i < frames + 5) refs
      → Succeeds (Ran refs t) (simulate p capacity frames timer refs t)
  unfolding simulate
  simulate-Ran timer [] t room r h = record {
    after = r;
    at_most = omega arith;
    not_fewer = omega arith;
  }
  simulate-Ran timer (i ∷ refs) t room r h =
      Succeeds-bind (Served i t) (Ran (i ∷ refs) t) (round p capacity frames timer i t) _
        (round-Served timer i t room r h.0)
        λ t' s.
          Succeeds-mono (Ran refs t') (Ran (i ∷ refs) t) _
            (simulate-Ran (timer + 1) refs t' room s.after h.1)
            λ t'' q. Ran-next i refs t t' t'' s q
