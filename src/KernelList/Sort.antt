-- ===== src/KernelList/Sort.antt =====
-- `list_sort`: its passes and its result.
use mathlib.Core.List.{Perm}
use mathlib.Core.List.Perm
use operating_system_col.Base.{
  Option, some, true, ℕ, zero, suc, ◌+◌, ◌*◌, ◌≤◌, ◌<◌, ◌≡◌, refl, inl, inr, Bool, List, [], ◌∷◌,
  ◌++◌, arith, Bool-cases, List-cases, ◌⊎◌, length, append-nil, append_assoc, ap, sym, ◌∙◌,
  length-append, ltb, ltb→lt, ltb→le,
}
use mathlib.Core.Path.{subst}
use operating_system_col.KernelList.{
  find_end_of_run, inplace_merge, is_sorted, sort_pass, sort_loop, sort_checked, list_sort,
}
use operating_system_col.KernelList.Order.{IsOrder, IsSorted}
use operating_system_col.KernelList.Select.{is_sorted-IsSorted}
use operating_system_col.KernelList.Merge.{inplace_merge-perm, inplace_merge-IsSorted, length-merge}
use operating_system_col.KernelList.Runs.{
  descents, behind, drop_at-le, descents-append, descents-sorted, run-append, behind-run,
  length-run, run-IsSorted,
}

module _ {ℓ} {A : Type ℓ} {less : A → A → Bool} (order : IsOrder less) where
  -- What one pass makes of the list `l`.
  record IsPass (l : List A) (out : List A × ℕ) : Type ℓ where
    same : Perm out.0 l
    size : length out.0 ≡ length l
    runs : ((out.0 ≡ []) × (out.1 ≡ 0)) ⊎ (descents less out.0 + 1 ≤ out.1)
    halved : 2 * out.1 ≤ behind less l + 1
    ordered : out.1 ≤ 1 → IsSorted less out.0

  one_run :
      (x : A) (xs : List A)
      → (find_end_of_run less x xs).1 ≡ []
      → IsPass (x ∷ xs) ((find_end_of_run less x xs).0, 1)
  one_run x xs e =
      let whole : run ≡ x ∷ xs = sym (append-nil run) ∙ rw e at (run-append less x xs) in
      let level : behind less (x ∷ xs) ≡ 1 = ap suc (behind-run less x xs ∙ ap (behind less) e) in
      let ordered : IsSorted less run = run-IsSorted order x xs in
      record {
        same = rw whole (Perm.refl (x ∷ xs));
        size = ap length whole;
        runs = inr (omega (arith, descents-sorted less run ordered));
        halved = omega arith;
        ordered = λ _. ordered;
      }
    where
      run : List A
      run = (find_end_of_run less x xs).0

  follow :
      (merged : List A)
      → descents less merged ≡ 0
      → (out : List A × ℕ) → ((out.0 ≡ []) × (out.1 ≡ 0)) ⊎ (descents less out.0 + 1 ≤ out.1)
      → descents less (merged ++ out.0) + 1 ≤ suc out.1
  follow merged level out (inl (e, c)) = rw (e, append-nil) (omega arith)
  follow merged level out (inr h) = omega (arith, descents-append less merged out.0)

  last :
      (merged : List A)
      → IsSorted less merged
      → (out : List A × ℕ) → suc out.1 ≤ 1
      → ((out.0 ≡ []) × (out.1 ≡ 0)) ⊎ (descents less out.0 + 1 ≤ out.1)
      → IsSorted less (merged ++ out.0)
  last merged s out h (inl (e, c)) = rw (e, append-nil) s
  last merged s out h (inr k) = absurd (omega arith)

  -- One round that merges two runs, and what a pass makes of the rest.
  two_runs :
      (x y : A) (xs ys : List A)
      → (find_end_of_run less x xs).1 ≡ y ∷ ys
      → (out : List A × ℕ) → IsPass (find_end_of_run less y ys).1 out
      → IsPass (x ∷ xs) (
        inplace_merge less (find_end_of_run less x xs).0 (find_end_of_run less y ys).0 ++ out.0,
        suc out.1,
      )
  two_runs x y xs ys e out p =
      let whole : first ++ (second ++ later) ≡ x ∷ xs =
        ap (λ l. first ++ l) (run-append less y ys ∙ sym e) ∙ run-append less x xs in
      let ordered : IsSorted less merged =
        inplace_merge-IsSorted order first second (run-IsSorted order x xs)
          (run-IsSorted order y ys) in
      let level : descents less merged ≡ 0 = descents-sorted less merged ordered in
      let count : behind less (x ∷ xs) ≡ suc (suc (behind less later)) =
        ap suc (behind-run less x xs ∙ ap (behind less) e ∙ ap suc (behind-run less y ys)) in
      record {
        same = subst (Perm (merged ++ out.0)) whole (
            rw (← append_assoc first second later)
              (Perm.append (inplace_merge-perm order first second) p.same));
        size = omega (
          arith,
          length-append merged out.0,
          length-merge order first second,
          length-run less x xs,
          length-run less y ys,
          ap length e,
          p.size,
        );
        runs = inr (follow merged level out p.runs);
        halved = omega (arith, p.halved);
        ordered = λ h. last merged ordered out h p.runs;
      }
    where
      first : List A
      first = (find_end_of_run less x xs).0

      second : List A
      second = (find_end_of_run less y ys).0

      later : List A
      later = (find_end_of_run less y ys).1

      merged : List A
      merged = inplace_merge less first second

  abbrev no_elements : IsPass [] ([], 0)
  no_elements = record {
    same = Perm.refl [];
    size = refl;
    runs = inl (refl, refl);
    halved = omega arith;
    ordered = λ _. tt;
  }

  -- The pass ends with no `ASSERT` failed.
  abbrev Passes : List A → Option (List A × ℕ) → Type ℓ
  Passes l r = (out : List A × ℕ) × (r ≡ some out) × IsPass l out

  run_sorted : (x : A) (xs : List A) → is_sorted less (find_end_of_run less x xs).0 ≡ true
  run_sorted x xs =
      (is_sorted-IsSorted order (find_end_of_run less x xs).0).1 (run-IsSorted order x xs)

  sort_pass-IsPass : (fuel : ℕ) (l : List A) → length l ≤ fuel → Passes l (sort_pass less fuel l)
  unfolding sort_pass
  sort_pass-IsPass zero [] h = (([], 0), refl, no_elements)
  sort_pass-IsPass zero (x ∷ xs) h = absurd (omega arith)
  sort_pass-IsPass (suc fuel) [] h = (([], 0), refl, no_elements)
  sort_pass-IsPass (suc fuel) (x ∷ xs) h = elim (List-cases (find_end_of_run less x xs).1) [
    | inl e ↦ ((_, 1), rw (e, sort_pass) refl, one_run x xs e)
    | inr (y, ys, e) ↦
        let shorter : length (find_end_of_run less y ys).1 ≤ fuel =
          omega (arith, length-run less x xs, length-run less y ys, ap length e) in
        let (out, same, pass) = sort_pass-IsPass fuel (find_end_of_run less y ys).1 shorter in
        (
          (_, suc out.1),
          rw (e, run_sorted x xs, run_sorted y ys, same, sort_pass) refl,
          two_runs x y xs ys e out pass,
        )
  ]

  behind-le : (l : List A) → behind less l ≤ suc (descents less l)
  behind-le [] = omega arith
  behind-le (x ∷ xs) = omega arith

  fewer :
      {l : List A} {out : List A × ℕ} → IsPass l out → 1 < out.1 → descents less out.0 + 1 ≤ out.1
  fewer pass h = elim pass.runs [ inl e ↦ absurd (omega (arith, e.1)) | inr k ↦ k ]

  -- Every pass but the last leaves fewer descents than it found.
  sort_loop_lem :
      (fuel : ℕ) (l : List A)
      → descents less l < fuel
      → (l' : List A) × (sort_loop less fuel l ≡ some l') × Perm l' l × IsSorted less l'
  unfolding sort_loop
  sort_loop_lem zero l h = absurd (omega arith)
  sort_loop_lem (suc fuel) l h =
      let (out, same, pass) = sort_pass-IsPass (length l) l (omega arith) in
      elim (Bool-cases (ltb 1 out.1)) [
        | inl e ↦
            let more = ltb→lt 1 out.1 e in
            let (l', ends, perm, sorted) =
              sort_loop_lem fuel out.0 (omega (arith, fewer pass more, pass.halved, behind-le l)) in
            (l', rw (same, e, sort_loop) ends, Perm.trans perm pass.same, sorted)
        | inr e ↦ (out.0, rw (same, e, sort_loop) refl, pass.same, pass.ordered (ltb→le 1 out.1 e))
      ]

  descents-le : (l : List A) → descents less l ≤ length l
  descents-le [] = omega arith
  descents-le (x ∷ xs) = omega (arith, drop_at-le less x xs, descents-le xs)

  -- For every comparator that is an order, `list_sort` leaves the elements of the list, each as
  -- often as it stood there, in order. Its loops end, and none of the `ASSERT`s on sorted runs, in
  -- `inplace_merge` and at its end, fails.
  pub list_sort_lem :
      (l : List A)
      → Perm (list_sort less l) l
        × IsSorted less (list_sort less l)
        × (sort_checked less l ≡ some (list_sort less l))
  unfolding list_sort sort_checked
  list_sort_lem l =
      let (l', ends, perm, sorted) =
        sort_loop_lem (suc (length l)) l (omega (arith, descents-le l)) in
      let checked : is_sorted less l' ≡ true = (is_sorted-IsSorted order l').1 sorted in
      rw (ends, checked) (perm, sorted, refl)
