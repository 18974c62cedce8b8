-- ===== src/KernelList/Greatest.antt =====
-- `list_max` and `list_min` of lib/kernel/list.c: which element they choose.
use mathlib.Core.Path.{subst}
use operating_system_col.Base.{
  ◌≡◌, ◌≢◌, refl, sym, ap, ◌∙◌, inl, inr, Bool, true, false, Option, none, some, List, [], ◌∷◌,
  ◌++◌, All, All-append, Bool-cases, if◌then◌else◌, append_assoc,
}
use operating_system_col.KernelList.Order.{IsOrder}
use operating_system_col.KernelList.Select.{max_from, list_max, min_from, list_min}

-- The first of the greatest elements of a list.
pub record IsGreatest {ℓ} {A : Type ℓ} (less : A → A → Bool) (l : List A) (m : A) : Type ℓ where
  pub front : List A
  pub back : List A
  pub place : l ≡ front ++ m ∷ back
  pub none_above : All (λ y. less m y ≡ false) l
  pub first : All (λ y. less y m ≡ true) front

-- The choice from a list: nothing from an empty one.
abbrev pub Chooses {ℓ} : {A : Type ℓ} → (A → A → Bool) → List A → Option A → Type ℓ
Chooses {A} less l none = l ≡ []
Chooses less l (some m) = IsGreatest less l m

All-map {ℓ} :
    {A : Type ℓ} (P Q : A → Type 0) (l : List A) → ((a : A) → P a → Q a) → All P l → All Q l
All-map P Q [] f p = tt
All-map P Q (x ∷ l) f p = (f x p.0, All-map P Q l f p.1)

module _ {ℓ} {A : Type ℓ} {less : A → A → Bool} (order : IsOrder less) where
  irreflexive : (a : A) → less a a ≡ false
  irreflexive a = elim (Bool-cases (less a a)) [ inl b ↦ order.asym a a b | inr b ↦ b ]

  below : (m e y : A) → less m e ≡ true → less m y ≡ false → less y e ≡ true
  below m e y h k = elim (Bool-cases (less y e)) [
    | inl b ↦ b
    | inr b ↦ absurd (true≢false (sym h ∙ order.not_less_trans e y m b k))
  ]
    where
      true≢false : true ≢ false
      true≢false q = cc (q)

  -- One more element: the new greatest of what was seen.
  grows :
      (seen : List A) (m e : A)
      → less m e ≡ true
      → IsGreatest less seen m
      → IsGreatest less (seen ++ e ∷ []) e
  grows seen m e h g = record {
    front = seen;
    back = [];
    place = refl;
    none_above =
        All-append (λ y. less e y ≡ false) seen (e ∷ [])
          (All-map (λ y. less m y ≡ false) (λ y. less e y ≡ false) seen
            (λ y k. order.not_less_trans y m e k (order.asym m e h)) g.none_above)
          (irreflexive e, tt);
    first =
        All-map (λ y. less m y ≡ false) (λ y. less y e ≡ true) seen (λ y k. below m e y h k)
          g.none_above;
  }

  stays :
      (seen : List A) (m e : A)
      → less m e ≡ false
      → IsGreatest less seen m
      → IsGreatest less (seen ++ e ∷ []) m
  stays seen m e h g = record {
    front = g.front;
    back = g.back ++ e ∷ [];
    place = ap (λ l. l ++ e ∷ []) g.place ∙ append_assoc g.front (m ∷ g.back) (e ∷ []);
    none_above = All-append (λ y. less m y ≡ false) seen (e ∷ []) g.none_above (h, tt);
    first = g.first;
  }

  max_from-IsGreatest :
      (seen : List A) (m : A) (es : List A)
      → IsGreatest less seen m
      → IsGreatest less (seen ++ es) (max_from less m es)
  unfolding max_from
  max_from-IsGreatest seen m [] g = subst (λ l. IsGreatest less l m) (sym (append_nothing seen)) g
    where
      append_nothing : (l : List A) → l ++ [] ≡ l
      append_nothing [] = refl
      append_nothing (x ∷ l) = ap (λ r. x ∷ r) (append_nothing l)
  max_from-IsGreatest seen m (e ∷ es) g =
      subst (λ l. IsGreatest less l (max_from less (if less m e then e else m) es))
        (append_assoc seen (e ∷ []) es)
        (elim (Bool-cases (less m e)) [
          | inl b ↦ rw b (max_from-IsGreatest (seen ++ e ∷ []) e es (grows seen m e b g))
          | inr b ↦ rw b (max_from-IsGreatest (seen ++ e ∷ []) m es (stays seen m e b g))
        ])

  alone : (x : A) → IsGreatest less (x ∷ []) x
  alone x = record {
    front = [];
    back = [];
    place = refl;
    none_above = (irreflexive x, tt);
    first = tt;
  }

  -- `list_max`, for a comparator that is an order, returns an element of the list that is less than no
  -- other, and the earliest such one; it returns the tail of the list only if the list is empty.
  pub list_max-IsGreatest : (l : List A) → Chooses less l (list_max less l)
  unfolding list_max
  list_max-IsGreatest [] = refl
  list_max-IsGreatest (x ∷ xs) = max_from-IsGreatest (x ∷ []) x xs (alone x)

abbrev pub flip {ℓ} : {A : Type ℓ} → (A → A → Bool) → A → A → Bool
flip less a b = less b a

flip-IsOrder {ℓ} : {A : Type ℓ} {less : A → A → Bool} → IsOrder less → IsOrder (flip less)
flip-IsOrder order = record {
  asym = λ a b h. order.asym b a h;
  not_less_trans = λ a b c h k. order.not_less_trans c b a k h;
}

min_from-max {ℓ} :
    {A : Type ℓ} (less : A → A → Bool) (m : A) (es : List A)
    → min_from less m es ≡ max_from (flip less) m es
unfolding min_from max_from
min_from-max less m [] = refl
min_from-max less m (e ∷ es) = min_from-max less (if less e m then e else m) es

list_min-max {ℓ} :
    {A : Type ℓ} (less : A → A → Bool) (l : List A) → list_min less l ≡ list_max (flip less) l
unfolding list_min list_max
list_min-max less [] = refl
list_min-max less (x ∷ xs) = ap some (min_from-max less x xs)

-- `list_min`, for a comparator that is an order, returns the earliest element of the list that no
-- other is less than, and the tail of the list only if the list is empty.
pub list_min-IsGreatest {ℓ} :
    {A : Type ℓ} {less : A → A → Bool}
    → IsOrder less
    → (l : List A) → Chooses (flip less) l (list_min less l)
list_min-IsGreatest {less} order l =
    subst (Chooses (flip less) l) (sym (list_min-max less l))
      (list_max-IsGreatest (flip-IsOrder order) l)
