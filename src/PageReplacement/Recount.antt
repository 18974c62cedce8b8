-- ===== src/PageReplacement/Recount.antt =====
-- `update_count`, and the order of the list of the LFU policy.
use operating_system_col.Base.{
  ℕ, suc, ◌+◌, ◌≤◌, ◌<◌, ◌≡◌, refl, ap, inl, inr, List, [], ◌∷◌, length, arith, if◌then◌else◌,
  Bool-cases, ltb, ◌==◌, All, ltb→le, ltb→lt,
}
use native.Mathlib.Nat.{le_trans}
use operating_system_col.PageReplacement.{Node, settle, recount}
use operating_system_col.PageReplacement.Laws.{count, Succeeds, Succeeds-bind}

abbrev pub addresses : List Node → List ℕ
addresses [] = []
addresses (x ∷ xs) = x.address ∷ addresses xs

abbrev pub AtLeast : ℕ → List Node → Type 0
AtLeast n = All λ y. n ≤ y.count

-- The counts do not fall from the head on.
abbrev pub Ascending : List Node → Type 0
Ascending [] = Unit
Ascending (x ∷ xs) = AtLeast x.count xs × Ascending xs

AtLeast-mono : (m n : ℕ) (l : List Node) → m ≤ n → AtLeast n l → AtLeast m l
AtLeast-mono m n [] h a = tt
AtLeast-mono m n (x ∷ l) h a = (le_trans h a.0, AtLeast-mono m n l h a.1)

-- The nodes `l'` are those of `l` in another order, but for counts that have not fallen.
pub record Recounted (l l' : List Node) : Type 0 where
  pub len : length l' ≡ length l
  pub counts : (j : ℕ) → count j (addresses l') ≡ count j (addresses l)
  pub low : (n : ℕ) → AtLeast n l → AtLeast n l'
  pub ascending : Ascending l → Ascending l'

settle-AtLeast :
    (n : ℕ) (x : Node) (l : List Node) → n ≤ x.count → AtLeast n l → AtLeast n (settle x l)
unfolding settle
settle-AtLeast n x [] h a = (h, tt)
settle-AtLeast n x (y ∷ ys) h a = elim (Bool-cases (ltb y.count x.count)) [
  | inl e ↦ rw (e, settle) (a.0, settle-AtLeast n x ys h a.1)
  | inr e ↦ rw (e, settle) (h, (a.0, a.1))
]

settle-Ascending : (x : Node) (l : List Node) → Ascending l → Ascending (settle x l)
unfolding settle
settle-Ascending x [] a = (tt, tt)
settle-Ascending x (y ∷ ys) a = elim (Bool-cases (ltb y.count x.count)) [
  | inl e ↦
      rw (e, settle)
        (
          settle-AtLeast y.count x ys (omega (arith, ltb→lt y.count x.count e)) a.0,
          settle-Ascending x ys a.1,
        )
  | inr e ↦
      let low = ltb→le y.count x.count e in
      rw (e, settle) ((low, AtLeast-mono x.count y.count ys low a.0), a)
]

length-settle : (x : Node) (l : List Node) → length (settle x l) ≡ suc (length l)
unfolding settle
length-settle x [] = refl
length-settle x (y ∷ ys) = ground (arith, length-settle x ys)

count-settle :
    (j : ℕ) (x : Node) (l : List Node)
    → count j (addresses (settle x l)) ≡ (if x.address == j then 1 else 0) + count j (addresses l)
unfolding settle
count-settle j x [] = refl
count-settle j x (y ∷ ys) = elim (Bool-cases (ltb y.count x.count)) [
  | inl e ↦ rw (e, settle) (omega (arith, count-settle j x ys))
  | inr e ↦ rw (e, settle) (omega arith)
]

settle-Recounted :
    (x : Node) (l : List Node) → Recounted (x ∷ l) (settle (record x { count = x.count + 1 }) l)
settle-Recounted x l =
    let y : Node = record x { count = x.count + 1 } in
    record {
      len = length-settle y l;
      counts = λ j. count-settle j y l;
      low = λ n a. settle-AtLeast n y l (omega (arith, a.0)) a.1;
      ascending = λ a. settle-Ascending y l a.1;
    }

Recounted-cons : (x : Node) (l l' : List Node) → Recounted l l' → Recounted (x ∷ l) (x ∷ l')
Recounted-cons x l l' r = record {
  len = ap suc r.len;
  counts = λ j. omega (arith, r.counts j);
  low = λ n a. (a.0, r.low n a.1);
  ascending = λ a. (r.low x.count a.0, r.ascending a.1);
}

pub recount-Recounted :
    (i : ℕ) (l : List Node) → 0 < count i (addresses l) → Succeeds (Recounted l) (recount i l)
unfolding recount
recount-Recounted i [] h = absurd (omega arith)
recount-Recounted i (x ∷ xs) h = elim (Bool-cases (x.address == i)) [
  | inl e ↦ rw (e, recount) (settle-Recounted x xs)
  | inr e ↦
      rw (e, recount)
        (Succeeds-bind (Recounted xs) (Recounted (x ∷ xs)) (recount i xs) _
          (recount-Recounted i xs (ground arith)) λ ys r. Recounted-cons x xs ys r)
]
