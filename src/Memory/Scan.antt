-- ===== src/Memory/Scan.antt =====
-- What the functions on several bits of a bitmap do.
use operating_system_col.Base.{
  ℕ, zero, suc, ◌+◌, ◌-◌, ◌%◌, ◌≤◌, ◌<◌, ◌≡◌, refl, ap, ◌∙◌, subst, inl, inr, Bool, true, false,
  not, Option, none, some, leb, ◌==◌, if◌then◌else◌, arith, Bool-cases, lt→ltb,
}
use operating_system_col.Threads.{done}
use operating_system_col.Threads.WellFormed.{Returns, Returns-bind, Returns-mono}
use operating_system_col.Syscall.{word}
use operating_system_col.Memory.{is_within}
use operating_system_col.Memory.Bitmap.{
  Bitmap, is, bitmap_set, check_range, set_from, bitmap_set_multiple, contains_from,
  bitmap_contains, scan_from, bitmap_scan, flip_found, bitmap_scan_and_flip,
}

-- The bits of a range have been set to one value, and no other bit has changed.
pub record Filled (start cnt : ℕ) (value : Bool) (b b' : Bitmap) : Type 0 where
  pub same_cnt : b'.bit_cnt ≡ b.bit_cnt
  pub each : (j : ℕ) → b'.bits j ≡ (if is_within start cnt j then value else b.bits j)

bitmap_set-lem :
    (idx : ℕ) (value : Bool) (b : Bitmap)
    → idx < b.bit_cnt
    → bitmap_set idx value b ≡ done (record b { bits = λ j. if j == idx then value else b.bits j })
unfolding bitmap_set
bitmap_set-lem idx true b h = rw (lt→ltb idx b.bit_cnt h) refl
bitmap_set-lem idx false b h = rw (lt→ltb idx b.bit_cnt h) refl

set_from-Filled :
    (n idx : ℕ) (value : Bool) (b : Bitmap)
    → idx + n ≤ b.bit_cnt
    → Returns (Filled idx n value b) (set_from n idx value b)
unfolding set_from
set_from-Filled zero idx value b h = record { same_cnt = refl; each = λ j. ground arith }
set_from-Filled (suc n) idx value b h = rw (bitmap_set-lem idx value b (omega arith)) (
    Returns-mono (Filled (suc idx) n value _) (Filled idx (suc n) value b) _
      (set_from-Filled n (suc idx) value _ (omega arith))
      λ b' f. record { same_cnt = f.same_cnt; each = λ j. ground (arith, f.each j) })

check_range-done :
    (start cnt : ℕ) (b : Bitmap)
    → b.bit_cnt < word
    → start + cnt ≤ b.bit_cnt
    → check_range start cnt b ≡ done tt
check_range-done start cnt b small h =
    let first : leb start b.bit_cnt ≡ true = ground arith in
    let no_wrap : (start + cnt) % word ≡ start + cnt = omega (arith, small, h) in
    let last : leb (start + cnt) b.bit_cnt ≡ true = ground arith in rw (first, no_wrap, last) refl

-- On a range inside the bitmap, `bitmap_set_multiple` ends with no `ASSERT` failed, sets the bits of
-- the range to the value and changes no other.
pub bitmap_set_multiple-Filled :
    (start cnt : ℕ) (value : Bool) (b : Bitmap)
    → b.bit_cnt < word
    → start + cnt ≤ b.bit_cnt
    → Returns (Filled start cnt value b) (bitmap_set_multiple start cnt value b)
unfolding bitmap_set_multiple
bitmap_set_multiple-Filled start cnt value b small h =
    rw (check_range-done start cnt b small h) (set_from-Filled cnt start value b h)

-- Some bit of the range has the value.
abbrev pub Somewhere : ℕ → ℕ → Bool → Bitmap → Type 0
Somewhere start cnt value b = (j : ℕ) × (start ≤ j) × (j < start + cnt) × (b.bits j ≡ value)

-- All bits of the range have it.
abbrev pub Everywhere : ℕ → ℕ → Bool → Bitmap → Type 0
Everywhere start cnt value b = (j : ℕ) → start ≤ j → j < start + cnt → b.bits j ≡ value

abbrev pub Contained : ℕ → ℕ → Bool → Bitmap → Bool → Type 0
Contained start cnt value b true = Somewhere start cnt value b
Contained start cnt value b false = Everywhere start cnt (not value) b

is_true : (bit value : Bool) → is bit value ≡ true → bit ≡ value
is_true true true h = refl
is_true false false h = refl
is_true true false h = cc
is_true false true h = cc

is_false : (bit value : Bool) → is bit value ≡ false → bit ≡ not value
is_false true true h = cc
is_false false false h = cc
is_false true false h = refl
is_false false true h = refl

Contained-next :
    (n idx : ℕ) (value : Bool) (b : Bitmap) (found : Bool)
    → b.bits idx ≡ not value
    → Contained (suc idx) n value b found
    → Contained idx (suc n) value b found
Contained-next n idx value b true h (j, l, u, e) = (j, omega arith, omega arith, e)
Contained-next n idx value b false h all = λ j l u. elim (Bool-cases (j == idx)) [
  | inl same ↦ let here : j ≡ idx = ground arith in ap b.bits here ∙ h
  | inr other ↦ all j (ground arith) (omega arith)
]

contains_here :
    (n idx : ℕ) (value : Bool) (b : Bitmap) (found : Bool)
    → is (b.bits idx) value ≡ found
    → Returns (Contained (suc idx) n value b) (contains_from n (suc idx) value b)
    → Returns
        (Contained idx (suc n) value b)
        (elim found [ true ↦ done true | false ↦ contains_from n (suc idx) value b ])
contains_here n idx value b true e rest =
    (idx, omega arith, omega arith, is_true (b.bits idx) value e)
contains_here n idx value b false e rest =
    Returns-mono (Contained (suc idx) n value b) (Contained idx (suc n) value b) _ rest
      λ found c. Contained-next n idx value b found (is_false (b.bits idx) value e) c

contains_from-Contained :
    (n idx : ℕ) (value : Bool) (b : Bitmap)
    → idx + n ≤ b.bit_cnt
    → Returns (Contained idx n value b) (contains_from n idx value b)
unfolding contains_from
contains_from-Contained zero idx value b h = λ j l u. absurd (omega arith)
contains_from-Contained (suc n) idx value b h = rw (lt→ltb idx b.bit_cnt (omega arith)) (
    contains_here n idx value b (is (b.bits idx) value) refl
      (contains_from-Contained n (suc idx) value b (omega arith)))

-- On a range inside the bitmap, `bitmap_contains` ends and answers true exactly if some bit of it has
-- the value.
pub bitmap_contains-Contained :
    (start cnt : ℕ) (value : Bool) (b : Bitmap)
    → b.bit_cnt < word
    → start + cnt ≤ b.bit_cnt
    → Returns (Contained start cnt value b) (bitmap_contains start cnt value b)
unfolding bitmap_contains
bitmap_contains-Contained start cnt value b small h =
    rw (check_range-done start cnt b small h) (contains_from-Contained cnt start value b h)

-- What `bitmap_scan` finds: the first group of `cnt` bits of the value, or nothing if there is none.
pub record First (start cnt : ℕ) (value : Bool) (b : Bitmap) (i : ℕ) : Type 0 where
  pub at_or_after : start ≤ i
  pub inside : i + cnt ≤ b.bit_cnt
  pub group : Everywhere i cnt value b
  pub earlier : (k : ℕ) → start ≤ k → k < i → Somewhere k cnt (not value) b

abbrev pub Scanned : ℕ → ℕ → Bool → Bitmap → Option ℕ → Type 0
Scanned start cnt value b (some i) = First start cnt value b i
Scanned start cnt value b none =
    (k : ℕ) → start ≤ k → k + cnt ≤ b.bit_cnt → Somewhere k cnt (not value) b

-- One start further.
Scanned-next :
    (i cnt : ℕ) (value : Bool) (b : Bitmap) (r : Option ℕ)
    → Somewhere i cnt (not value) b
    → Scanned (suc i) cnt value b r
    → Scanned i cnt value b r
Scanned-next i cnt value b (some k) here f = record {
  at_or_after = omega (arith, f.at_or_after);
  inside = f.inside;
  group = f.group;
  earlier = λ j l u. elim (Bool-cases (j == i)) [
    | inl same ↦ subst (λ x. Somewhere x cnt (not value) b) (ground arith) here
    | inr other ↦ f.earlier j (ground arith) u
  ];
}
Scanned-next i cnt value b none here f = λ k l u. elim (Bool-cases (k == i)) [
  | inl same ↦ subst (λ x. Somewhere x cnt (not value) b) (ground arith) here
  | inr other ↦ f k (ground arith) u
]

not-not : (v : Bool) → not (not v) ≡ v
not-not true = refl
not-not false = refl

scan_here :
    (n i cnt : ℕ) (value : Bool) (b : Bitmap) (other : Bool)
    → i + cnt ≤ b.bit_cnt
    → Contained i cnt (not value) b other
    → Returns (Scanned (suc i) cnt value b) (scan_from n (suc i) cnt value b)
    → Returns
        (Scanned i cnt value b)
        (elim other [ false ↦ done (some i) | true ↦ scan_from n (suc i) cnt value b ])
scan_here n i cnt value b true h c rest =
    Returns-mono (Scanned (suc i) cnt value b) (Scanned i cnt value b) _ rest
      λ r s. Scanned-next i cnt value b r c s
scan_here n i cnt value b false h c rest = record {
  at_or_after = omega arith;
  inside = h;
  group = λ j l u. c j l u ∙ not-not value;
  earlier = λ k l u. absurd (omega arith);
}

scan_from-Scanned :
    (n i cnt : ℕ) (value : Bool) (b : Bitmap)
    → b.bit_cnt < word
    → cnt ≤ b.bit_cnt
    → n ≡ b.bit_cnt - cnt + 1 - i
    → Returns (Scanned i cnt value b) (scan_from n i cnt value b)
unfolding scan_from
scan_from-Scanned zero i cnt value b small h e = λ k l u. absurd (omega arith)
scan_from-Scanned (suc n) i cnt value b small h e =
    Returns-bind (Contained i cnt (not value) b) (Scanned i cnt value b)
      (bitmap_contains i cnt (not value) b) _
      (bitmap_contains-Contained i cnt (not value) b small (omega arith))
      λ other c.
        scan_here n i cnt value b other (omega arith) c
          (scan_from-Scanned n (suc i) cnt value b small h (omega arith))

-- From a start inside the bitmap, `bitmap_scan` ends with no `ASSERT` failed. What it returns is the
-- start of the first group of `cnt` bits of the value at or after `start`: all of the group lies
-- inside the bitmap, and each earlier one has a bit of the other value. It returns `BITMAP_ERROR`
-- only if there is no such group.
pub bitmap_scan-Scanned :
    (start cnt : ℕ) (value : Bool) (b : Bitmap)
    → b.bit_cnt < word
    → start ≤ b.bit_cnt
    → Returns (Scanned start cnt value b) (bitmap_scan start cnt value b)
unfolding bitmap_scan
bitmap_scan-Scanned start cnt value b small h = elim (Bool-cases (leb cnt b.bit_cnt)) [
  | inl e ↦
      rw (first, e)
        (scan_from-Scanned (b.bit_cnt - cnt + 1 - start) start cnt value b small (ground arith)
          refl)
  | inr e ↦ rw (first, e) λ k l u. absurd (ground arith)
]
  where
    first : leb start b.bit_cnt ≡ true
    first = ground arith

-- The bits after `bitmap_scan_and_flip`.
abbrev pub Flipped : ℕ → ℕ → Bool → Bitmap → Option ℕ × Bitmap → Type 0
Flipped start cnt value b (some i, b') = First start cnt value b i × Filled i cnt (not value) b b'
Flipped start cnt value b (none, b') = Scanned start cnt value b none × (b' ≡ b)

-- For a count above 0, from a start inside a bitmap of fewer than 2 ^ 32 bits, `bitmap_scan_and_flip` ends with no `ASSERT` failed. It returns the
-- start of the first group of `cnt` bits of the value at or after `start`, sets the bits of that group
-- to the other value, and changes no other bit; only if there is no such group it returns
-- `BITMAP_ERROR`, and then changes nothing.
pub bitmap_scan_and_flip-Flipped :
    (start cnt : ℕ) (value : Bool) (b : Bitmap)
    → 0 < cnt
    → b.bit_cnt < word
    → start ≤ b.bit_cnt
    → Returns (Flipped start cnt value b) (bitmap_scan_and_flip start cnt value b)
unfolding bitmap_scan_and_flip
bitmap_scan_and_flip-Flipped start cnt value b some_bits small h =
    Returns-bind (Scanned start cnt value b) (Flipped start cnt value b)
      (bitmap_scan start cnt value b) _ (bitmap_scan-Scanned start cnt value b small h)
      λ r s. flip r s
  where
    flip :
        (r : Option ℕ)
        → Scanned start cnt value b r
        → Returns (Flipped start cnt value b) (flip_found r cnt value b)
    flip none s = (s, refl)
    flip (some i) s =
        Returns-bind (Filled i cnt (not value) b) (Flipped start cnt value b)
          (bitmap_set_multiple i cnt (not value) b) _
          (bitmap_set_multiple-Filled i cnt (not value) b small s.inside) λ b' f. (s, f)
