-- ===== src/PrimeSearch/Fast.antt =====
-- The steps of `runFast`, and which thread has still to test which numbers.
use mathlib.Core.Path.{subst}
use native.Mathlib.Decide.{ℕ_discrete}
use operating_system_col.Base.{
  ℕ, ◌+◌, ◌≤◌, ◌<◌, ◌≡◌, ◌≢◌, sym, ap, ◌∙◌, Bool, false, inl, inr, arith, ◌⊎◌, ltb, Bool-cases,
  ltb→lt, ltb→le,
}
use operating_system_col.PrimeSearch.{
  chunk, Phase, looping, wanting, scanning, finished, Search, put, set_phase,
}

-- The thread has still to test `j`.
abbrev pub Claims : Phase → ℕ → Type 0
Claims looping j = ⊥
Claims wanting j = ⊥
Claims (scanning local top) j = (local ≤ j) × (j < top)
Claims finished j = ⊥

module _ (prime : ℕ → Bool) (limit : ℕ) where
  pub record IsPartition (s : Search) : Type 0 where
    pub started : 0 < s.global
    pub fresh : (j : ℕ) → s.global ≤ j → (s.marks j ≡ false) × ((t : ℕ) → ¬ Claims (s.phase t) j)
    pub alone : (j t u : ℕ) → Claims (s.phase t) j → Claims (s.phase u) j → t ≡ u
    pub unmarked : (j t : ℕ) → Claims (s.phase t) j → s.marks j ≡ false
    pub tested :
        (j : ℕ)
        → 0 < j
        → j < s.global
        → j < limit
        → ((t : ℕ) → ¬ Claims (s.phase t) j)
        → s.marks j ≡ prime j
    pub through : (t : ℕ) → s.phase t ≡ finished → limit ≤ s.global

phase-same : (t : ℕ) (p : Phase) (f : ℕ → Phase) → put f t p t ≡ p
phase-same t p f = ground arith

phase-other : (t u : ℕ) (p : Phase) (f : ℕ → Phase) → u ≢ t → put f t p u ≡ f u
phase-other t u p f h = ground arith

-- Who claims `j` after the thread `t` has gone to the phase `p`.
Claims-put :
    (t u j : ℕ) (p : Phase) (f : ℕ → Phase)
    → Claims (put f t p u) j
    → ((u ≡ t) × Claims p j) ⊎ ((u ≢ t) × Claims (f u) j)
Claims-put t u j p f c = elim (ℕ_discrete u t) [
  | yes e ↦ inl (e, subst (λ q. Claims q j) (ap (λ x. put f t p x) e ∙ phase-same t p f) c)
  | no ne ↦ inr (ne, subst (λ q. Claims q j) (phase-other t u p f ne) c)
]

-- And what nobody claims then.
unclaimed-put :
    (t j : ℕ) (p : Phase) (f : ℕ → Phase)
    → ((u : ℕ) → ¬ Claims (put f t p u) j)
    → ¬ Claims p j × ((u : ℕ) → u ≢ t → ¬ Claims (f u) j)
unclaimed-put t j p f h = (
  λ c. h t (subst (λ q. Claims q j) (sym (phase-same t p f)) c),
  λ u ne c. h u (subst (λ q. Claims q j) (sym (phase-other t u p f ne)) c),
)

module _ (prime : ℕ → Bool) (limit : ℕ) where
  -- A thread whose claims shrink to numbers from `limit` on, or not at all, and nothing else changes.
  pub drops :
      (t : ℕ) (p : Phase) (s : Search)
      → ((j : ℕ) → ¬ Claims p j)
      → ((j : ℕ) → j < limit → ¬ Claims (s.phase t) j)
      → (p ≡ finished → limit ≤ s.global)
      → IsPartition prime limit s
      → IsPartition prime limit (set_phase t p s)
  drops t p s none before over i = record {
    started = i.started;
    fresh = λ j h. (
      (i.fresh j h).0,
      λ u c. elim (Claims-put t u j p s.phase c) [
        | inl a ↦ none j a.1
        | inr b ↦ (i.fresh j h).1 u b.1
      ],
    );
    alone = λ j u v c d. elim (Claims-put t u j p s.phase c) [
      | inl a ↦ absurd (none j a.1)
      | inr a ↦ elim (Claims-put t v j p s.phase d) [
        | inl b ↦ absurd (none j b.1)
        | inr b ↦ i.alone j u v a.1 b.1
      ]
    ];
    unmarked = λ j u c. elim (Claims-put t u j p s.phase c) [
      | inl a ↦ absurd (none j a.1)
      | inr a ↦ i.unmarked j u a.1
    ];
    tested = λ j pos low high free. i.tested j pos low high λ u c. elim (ℕ_discrete u t) [
      | yes e ↦ before j high (subst (λ x. Claims (s.phase x) j) e c)
      | no ne ↦ (unclaimed-put t j p s.phase free).1 u ne c
    ];
    through = λ u e. elim (ℕ_discrete u t) [
      | yes same ↦ over (sym (phase-same t p s.phase) ∙ ap (put s.phase t p) (sym same) ∙ e)
      | no ne ↦ i.through u (sym (phase-other t u p s.phase ne) ∙ e)
    ];
  }

  -- A thread that takes the next block.
  pub takes :
      (t : ℕ) (s : Search)
      → IsPartition prime limit s
      → ((j : ℕ) → ¬ Claims (s.phase t) j)
      → IsPartition prime limit (
          set_phase t
            (scanning s.global (s.global + chunk))
            (record s { global = s.global + chunk }))
  takes t s i before =
      let p = scanning s.global (s.global + chunk) in
      record {
        started = omega (arith, i.started);
        fresh = λ j h. (
          (i.fresh j (omega (arith, h))).0,
          λ u c. elim (Claims-put t u j p s.phase c) [
            | inl a ↦ omega (arith, a.1.1, h)
            | inr b ↦ (i.fresh j (omega (arith, h))).1 u b.1
          ],
        );
        alone = λ j u v c d. elim (Claims-put t u j p s.phase c) [
          | inl a ↦ elim (Claims-put t v j p s.phase d) [
            | inl b ↦ a.0 ∙ sym b.0
            | inr b ↦ absurd ((i.fresh j a.1.0).1 v b.1)
          ]
          | inr a ↦ elim (Claims-put t v j p s.phase d) [
            | inl b ↦ absurd ((i.fresh j b.1.0).1 u a.1)
            | inr b ↦ i.alone j u v a.1 b.1
          ]
        ];
        unmarked = λ j u c. elim (Claims-put t u j p s.phase c) [
          | inl a ↦ (i.fresh j a.1.0).0
          | inr a ↦ i.unmarked j u a.1
        ];
        tested = λ j pos low high free.
            let (mine, theirs) = unclaimed-put t j p s.phase free in
            elim (Bool-cases (ltb j s.global)) [
              | inl b ↦ i.tested j pos (ltb→lt j s.global b) high λ u c. elim (ℕ_discrete u t) [
                | yes e ↦ before j (subst (λ x. Claims (s.phase x) j) e c)
                | no ne ↦ theirs u ne c
              ]
              | inr b ↦ absurd (mine (ltb→le j s.global b, low))
            ];
        through = λ u e. elim (ℕ_discrete u t) [
          | yes same ↦
              absurd (not_scanning (sym e ∙ ap (put s.phase t p) same ∙ phase-same t p s.phase))
          | no ne ↦ omega (arith, i.through u (sym (phase-other t u p s.phase ne) ∙ e))
        ];
      }
    where
      not_scanning : {a b : ℕ} → finished ≢ scanning a b
      not_scanning q = cc (q)

  -- A thread that has tested the number `local`, with `m` for the marks.
  pub scans :
      (t local top : ℕ) (s : Search) (m : ℕ → Bool) (n : ℕ → ℕ) (o : Bool)
      → IsPartition prime limit s
      → s.phase t ≡ scanning local top
      → local < top
      → m local ≡ prime local
      → ((j : ℕ) → j ≢ local → m j ≡ s.marks j)
      → IsPartition prime limit
          (set_phase t (scanning (local + 1) top) (record s { marks = m; counts = n; overrun = o }))
  scans t local top s m n o i at inside marked others =
      let p = scanning (local + 1) top in
      let held : (j : ℕ) → Claims p j → Claims (s.phase t) j =
        λ j c. subst (λ q. Claims q j) (sym at) (omega (arith, c.0), c.1) in
      let here : Claims (s.phase t) local =
        subst (λ q. Claims q local) (sym at) (omega arith, inside) in
      record {
        started = i.started;
        fresh = λ j h. (
          others j (λ e. (i.fresh local (subst (λ x. s.global ≤ x) e h)).1 t here)
              ∙ (i.fresh j h).0,
          λ u c. elim (Claims-put t u j p s.phase c) [
            | inl a ↦ (i.fresh j h).1 t (held j a.1)
            | inr b ↦ (i.fresh j h).1 u b.1
          ],
        );
        alone = λ j u v c d. elim (Claims-put t u j p s.phase c) [
          | inl a ↦ elim (Claims-put t v j p s.phase d) [
            | inl b ↦ a.0 ∙ sym b.0
            | inr b ↦ a.0 ∙ i.alone j t v (held j a.1) b.1
          ]
          | inr a ↦ elim (Claims-put t v j p s.phase d) [
            | inl b ↦ i.alone j u t a.1 (held j b.1) ∙ sym b.0
            | inr b ↦ i.alone j u v a.1 b.1
          ]
        ];
        unmarked = λ j u c. elim (Claims-put t u j p s.phase c) [
          | inl a ↦ others j (λ e. omega (arith, a.1.0, e)) ∙ i.unmarked j t (held j a.1)
          | inr a ↦
              others j (λ e. a.0 (i.alone j u t a.1 (subst (Claims (s.phase t)) (sym e) here)))
              ∙ i.unmarked j u a.1
        ];
        tested = λ j pos low high free.
            let (mine, theirs) = unclaimed-put t j p s.phase free in
            elim (ℕ_discrete j local) [
              | yes e ↦ ap m e ∙ marked ∙ ap prime (sym e)
              | no ne ↦
                  others j ne
                  ∙ i.tested j pos low high λ u c. elim (ℕ_discrete u t) [
                    | yes same ↦
                        let d = subst (λ q. Claims q j) (ap s.phase same ∙ at) c in
                        mine (omega (arith, d.0, ne), d.1)
                    | no ne' ↦ theirs u ne' c
                  ]
            ];
        through = λ u e. elim (ℕ_discrete u t) [
          | yes same ↦
              absurd (not_scanning (sym e ∙ ap (put s.phase t p) same ∙ phase-same t p s.phase))
          | no ne ↦ i.through u (sym (phase-other t u p s.phase ne) ∙ e)
        ];
      }
    where
      not_scanning : {a b : ℕ} → finished ≢ scanning a b
      not_scanning q = cc (q)
