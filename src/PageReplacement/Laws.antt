-- ===== src/PageReplacement/Laws.antt =====
-- What the loop of the simulator needs of a replacement policy.
use operating_system_col.Base.{
  ℕ, suc, ◌+◌, ◌<◌, ◌≡◌, Option, none, some, List, [], ◌∷◌, length, if◌then◌else◌, ◌==◌,
}
use operating_system_col.PageReplacement.{◌>>=◌, Policy}

-- How often a page stands in a list.
abbrev pub count : ℕ → List ℕ → ℕ
count j [] = 0
count j (x ∷ xs) = (if x == j then 1 else 0) + count j xs

-- The step is defined, and its result has the property.
abbrev pub Succeeds {ℓ} : {A : Type ℓ} → (A → Type 0) → Option A → Type 0
Succeeds P none = ⊥
Succeeds P (some a) = P a

pub Succeeds-bind {ℓ κ} :
    {A : Type ℓ} {B : Type κ} (P : A → Type 0) (Q : B → Type 0) (o : Option A) (f : A → Option B)
    → Succeeds P o
    → ((a : A) → P a → Succeeds Q (f a))
    → Succeeds Q (o >>= f)
Succeeds-bind P Q none f p g = p
Succeeds-bind P Q (some a) f p g = g a p

pub Succeeds-mono {ℓ} :
    {A : Type ℓ} (P Q : A → Type 0) (o : Option A)
    → Succeeds P o
    → ((a : A) → P a → Q a)
    → Succeeds Q o
Succeeds-mono P Q none p g = p
Succeeds-mono P Q (some a) p g = g a p

-- A list of the policy after the page `i` has come in, and perhaps another has left: `gone j` is 1 at
-- the page that has left.
pub record Entered {S : Type 0} (pages : S → List ℕ) (Valid : S → Type 0) (i : ℕ) (gone : ℕ → ℕ)
    (s s' : S) : Type 0 where
  pub valid : Valid s'
  pub counts : (j : ℕ) → count j (pages s') + gone j ≡ count j (pages s) + (if i == j then 1 else 0)

-- What `pop` and then `add` do to a list: the page that leaves, and the list.
pub record Evicted {S : Type 0} (p : Policy S) (pages : S → List ℕ) (Valid : S → Type 0)
    (timer i : ℕ) (s : S) (out : Option ℕ × S) : Type 0 where
  pub victim : ℕ
  pub is_victim : out.0 ≡ some victim
  pub entered : Entered pages Valid i (λ j. if victim == j then 1 else 0) s (p.add timer i out.1)
  pub resident : 0 < count victim (pages s)
  pub same_size : p.size (p.add timer i out.1) ≡ p.size s

-- What the loop needs of a policy. `pages` are the pages of its list.
pub record Laws {S : Type 0} (p : Policy S) : Type 1 where
  pub pages : S → List ℕ
  pub Valid : S → Type 0
  pub size-length : (s : S) → Valid s → p.size s ≡ length (pages s)
  pub evicts :
      (timer i : ℕ) (s : S)
      → Valid s
      → 0 < p.size s
      → Succeeds (Evicted p pages Valid timer i s) (p.pop s)
  pub adds :
      (timer i : ℕ) (s : S)
      → Valid s
      → Entered pages Valid i (λ j. 0) s (p.add timer i s)
        × (p.size (p.add timer i s) ≡ suc (p.size s))
  pub touches :
      (i : ℕ) (s : S)
      → Valid s
      → 0 < count i (pages s)
      → Succeeds
          (λ s'.
            Valid s' × (p.size s' ≡ p.size s) × ((j : ℕ) → count j (pages s') ≡ count j (pages s)))
          (p.touch i s)
