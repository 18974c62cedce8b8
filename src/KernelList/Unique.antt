-- ===== src/KernelList/Unique.antt =====
-- `list_unique` of lib/kernel/list.c: what stays and what is moved to `duplicates`.
use mathlib.Core.List.{Perm, perm_middle, perm_append_comm}
use mathlib.Core.List.Perm
use mathlib.Core.Path.{subst}
use operating_system_col.Base.{
  ◌≡◌, refl, sym, ap, inl, inr, Bool, true, not, ◌&&◌, List, [], ◌∷◌, ◌++◌, Bool-cases,
  append_assoc,
}
use operating_system_col.KernelList.Select.{unique_from, list_unique}

module _ {ℓ} {A : Type ℓ} (less : A → A → Bool) where
  -- The comparator tells the two apart.
  abbrev pub differ : A → A → Bool
  differ a b = not (not (less a b) && not (less b a))

  -- No element is equal to the one before it, `x` standing before the list.
  abbrev pub NoTwins : A → List A → Type 0
  NoTwins x [] = Unit
  NoTwins x (y ∷ ys) = (differ x y ≡ true) × NoTwins y ys

  -- What the loop leaves from `x` on.
  pub record Thinned (x : A) (l : List A) (out : List A × List A) : Type ℓ where
    pub rest : List A
    pub starts : out.0 ≡ x ∷ rest
    pub no_twins : NoTwins x rest
    pub same : Perm (out.0 ++ out.1) (x ∷ l)

  drops :
      (x y : A) (l : List A) (out : List A × List A)
      → Thinned x l out
      → Thinned x (y ∷ l) (out.0, y ∷ out.1)
  drops x y l out t = record {
    rest = t.rest;
    starts = t.starts;
    no_twins = t.no_twins;
    same = Perm.trans (perm_middle out.0 out.1) (Perm.trans (Perm.cons y t.same) (Perm.swap x y l));
  }

  keeps :
      (x y : A) (l : List A) (out : List A × List A)
      → differ x y ≡ true
      → Thinned y l out
      → Thinned x (y ∷ l) (x ∷ out.0, out.1)
  keeps x y l out d t = record {
    rest = out.0;
    starts = refl;
    no_twins = subst (NoTwins x) (sym t.starts) (d, t.no_twins);
    same = Perm.cons x t.same;
  }

  pub unique_from-Thinned : (x : A) (l : List A) → Thinned x l (unique_from less x l)
  unfolding unique_from
  unique_from-Thinned x [] = record { rest = []; starts = refl; no_twins = tt; same = Perm.refl _ }
  unique_from-Thinned x (y ∷ l) = elim (Bool-cases (not (less x y) && not (less y x))) [
    | inl b ↦ rw b (drops x y l (unique_from less x l) (unique_from-Thinned x l))
    | inr b ↦ rw b (keeps x y l (unique_from less y l) (ap not b) (unique_from-Thinned y l))
  ]

  regroup : (a b c l : List A) → Perm (a ++ b) l → Perm (a ++ (c ++ b)) (l ++ c)
  regroup a b c l p =
      Perm.trans (Perm.append_left a (perm_append_comm c b))
        (subst (λ r. Perm r (l ++ c)) (append_assoc a b c) (Perm.append_right c p))

  -- `list_unique` of a list that is not empty keeps its first element, leaves no two neighbours that
  -- the comparator cannot tell apart, and appends to `duplicates` what it takes out: together the
  -- two lists have the elements that they had before.
  pub list_unique_lem :
      (x : A) (l duplicates : List A)
      → (rest : List A) × ((list_unique less (x ∷ l) duplicates).0 ≡ x ∷ rest)
        × NoTwins x rest
        × Perm
            ((list_unique less (x ∷ l) duplicates).0 ++ (list_unique less (x ∷ l) duplicates).1)
            ((x ∷ l) ++ duplicates)
  unfolding list_unique
  list_unique_lem x l duplicates =
      let t = unique_from-Thinned x l in
      let out = unique_from less x l in
      (t.rest, t.starts, t.no_twins, regroup out.0 out.1 duplicates (x ∷ l) t.same)
