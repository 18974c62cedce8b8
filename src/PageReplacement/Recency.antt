-- ===== src/PageReplacement/Recency.antt =====
-- LRU against the order of the last uses.
use operating_system_col.Base.{
  ℕ, ◌≤◌, ◌≡◌, refl, sym, ap, ◌∙◌, ◌⊎◌, inl, inr, false, Option, none, some, List, [], ◌∷◌, ◌++◌,
  length, arith, if◌then◌else◌, Bool-cases, ◌==◌, ==_iff,
}
use operating_system_col.PageReplacement.{LinkedList, ◌>>=◌, bubble, move_nodes}
use operating_system_col.PageReplacement.Laws.{count, Succeeds}
use operating_system_col.PageReplacement.Fifo.{count-append}

-- The list without the page.
abbrev pub forget : ℕ → List ℕ → List ℕ
forget i [] = []
forget i (x ∷ xs) = let rest = forget i xs in if x == i then rest else x ∷ rest

-- The pages in the order of their last uses, when `i` is used next, and when `refs` are.
abbrev pub use_next : ℕ → List ℕ → List ℕ
use_next i order = forget i order ++ i ∷ []

abbrev pub last_uses : List ℕ → List ℕ → List ℕ
last_uses order [] = order
last_uses order (i ∷ refs) = last_uses (use_next i order) refs

-- The list holds the end of the order: all of it, or as much as there are page frames.
pub record IsRecent (pages : ℕ) (order : List ℕ) (l : LinkedList ℕ) : Type 0 where
  pub older : List ℕ
  pub split : order ≡ older ++ l.nodes
  pub enough : (older ≡ []) ⊎ (l.size ≡ pages)

-- No page stands twice.
abbrev pub IsOrder : List ℕ → Type 0
IsOrder order = (j : ℕ) → count j order ≤ 1

pub count-forget : (i j : ℕ) (l : List ℕ) → count j (forget i l) ≡ (if i == j then 0 else count j l)
count-forget i j [] = ground arith
count-forget i j (x ∷ xs) = ground (arith, count-forget i j xs)

pub forget-absent : (i : ℕ) (l : List ℕ) → count i l ≡ 0 → forget i l ≡ l
forget-absent i [] h = refl
forget-absent i (x ∷ xs) h =
    let other : (x == i) ≡ false = ground arith in
    rw other (ap (λ r. x ∷ r) (forget-absent i xs (ground arith)))

pub forget-append : (i : ℕ) (a b : List ℕ) → forget i (a ++ b) ≡ forget i a ++ forget i b
forget-append i [] b = refl
forget-append i (x ∷ a) b = elim (Bool-cases (x == i)) [
  | inl e ↦ rw e (forget-append i a b)
  | inr e ↦ rw e (ap (λ r. x ∷ r) (forget-append i a b))
]

pub use_next-IsOrder : (i : ℕ) (order : List ℕ) → IsOrder order → IsOrder (use_next i order)
use_next-IsOrder i order h j =
    ground (arith, count-append j (forget i order) (i ∷ []), count-forget i j order, h j)

-- If the step is defined, its result has the property.
abbrev pub Gives : {A : Type 0} → (A → Type 0) → Option A → Type 0
Gives P none = Unit
Gives P (some a) = P a

pub Gives-bind :
    {A B : Type 0} (P : A → Type 0) (Q : B → Type 0) (o : Option A) (f : A → Option B)
    → Gives P o
    → ((a : A) → P a → Gives Q (f a))
    → Gives Q (o >>= f)
Gives-bind P Q none f p g = tt
Gives-bind P Q (some a) f p g = g a p

pub Gives-Succeeds : {A : Type 0} (P : A → Type 0) (o : Option A) → Succeeds P o → Gives P o
Gives-Succeeds P none p = tt
Gives-Succeeds P (some a) p = p

pub Succeeds-both :
    {A : Type 0} (P Q : A → Type 0) (o : Option A)
    → Succeeds P o
    → Gives Q o
    → Succeeds (λ a. P a × Q a) o
Succeeds-both P Q none p q = p
Succeeds-both P Q (some a) p q = (p, q)

-- What `move_back` of a page that stands there once gives.
bubble-Gives : (i : ℕ) (l : List ℕ) → count i l ≡ 1 → Gives (λ ys. ys ≡ use_next i l) (bubble i l)
unfolding bubble
bubble-Gives i [] h = tt
bubble-Gives i (x ∷ xs) h = elim (Bool-cases (x == i)) [
  | inl e ↦
      let here = (==_iff x i).0 e in
      let rest = forget-absent i xs (ground arith) in
      rw (e, bubble) (ap (λ r. r ++ x ∷ []) (sym rest) ∙ ap (λ y. forget i xs ++ y ∷ []) here)
  | inr e ↦
      rw (e, bubble)
        (Gives-bind (λ ys. ys ≡ use_next i xs) (λ ys. ys ≡ x ∷ use_next i xs) (bubble i xs) _
          (bubble-Gives i xs (ground arith)) λ ys m. ap (λ r. x ∷ r) m)
]

pub move_nodes-Gives :
    (i : ℕ) (l : List ℕ)
    → 2 ≤ length l
    → count i l ≡ 1
    → Gives (λ ys. ys ≡ use_next i l) (move_nodes i l)
move_nodes-Gives i [] n h = tt
move_nodes-Gives i (x ∷ []) n h = absurd (omega (arith, n))
move_nodes-Gives i (x ∷ y ∷ xs) n h = elim (Bool-cases (x == i)) [
  | inl e ↦
      let here = (==_iff x i).0 e in
      let rest = forget-absent i (y ∷ xs) (ground arith) in
      rw e (ap (λ r. r ++ x ∷ []) (sym rest) ∙ ap (λ z. forget i (y ∷ xs) ++ z ∷ []) here)
  | inr e ↦ rw e (
      Gives-bind (λ ys. ys ≡ use_next i (y ∷ xs)) (λ ys. ys ≡ x ∷ use_next i (y ∷ xs))
        (bubble i (y ∷ xs)) _ (bubble-Gives i (y ∷ xs) (ground arith)) λ ys m. ap (λ r. x ∷ r) m)
]

pub Gives-mono :
    {A : Type 0} (P Q : A → Type 0) (o : Option A) → Gives P o → ((a : A) → P a → Q a) → Gives Q o
Gives-mono P Q none p g = tt
Gives-mono P Q (some a) p g = g a p
