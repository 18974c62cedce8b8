-- ===== src/ThreadQueue/Refine.antt =====
-- The ring of the run queue against a list.
use native.Mathlib.Nat.{mod-eq_of_lt, mod_self}
use operating_system_col.Base.{
  ℕ, zero, suc, ◌+◌, ◌-◌, ◌%◌, ◌≤◌, ◌<◌, ◌≡◌, ◌≢◌, refl, sym, ap, ◌∙◌, Bool, true, inl, inr, List,
  [], ◌∷◌, ◌++◌, arith, ltb, lt→ltb, ltb→lt, if◌then◌else◌, Bool-cases,
}
use operating_system_col.ThreadQueue.{Queue, write, qpush, qpop, get_head}

-- The entry `n` behind `s` in a ring of `m` entries.
abbrev pub position : ℕ → ℕ → ℕ → ℕ
position m s n = if ltb (s + n) m then s + n else s + n - m

-- The entries of the ring, `n` of them from `s` on.
abbrev pub items : (ℕ → ℕ) → ℕ → ℕ → ℕ → List ℕ
items q m zero s = []
items q m (suc n) s = q s ∷ items q m n (position m s 1)

abbrev pub contents : Queue → List ℕ
contents queue = items queue.q queue.max_threads queue.size queue.head

pub record IsRing (queue : Queue) : Type 0 where
  pub head_in : queue.head < queue.max_threads
  pub size_in : queue.size ≤ queue.max_threads
  pub tail_at : queue.tail ≡ position queue.max_threads queue.head queue.size

position-next : (m s : ℕ) → s < m → (s + 1) % m ≡ position m s 1
position-next m s h = elim (Bool-cases (ltb (s + 1) m)) [
  | inl b ↦ rw b (mod-eq_of_lt (ltb→lt (s + 1) m b))
  | inr b ↦
      let full : s + 1 ≡ m = ground arith in
      rw b (ap (λ n. n % m) full ∙ mod_self m ∙ omega (arith, full))
]

position-in : (m s n : ℕ) → s < m → n ≤ m → position m s n < m
position-in m s n h k = ground arith

position-apart : (m s n : ℕ) → s < m → suc n < m → s ≢ position m s (suc n)
position-apart m s n h k = ground arith

position-shift :
    (m s n : ℕ) → s < m → suc n ≤ m → position m (position m s 1) n ≡ position m s (suc n)
position-shift m s n h k = ground arith

position-back :
    (m s n : ℕ) → s < m → 0 < n → n ≤ m → position m (position m s 1) (n - 1) ≡ position m s n
position-back m s n h k l = ground arith

items-snoc :
    (q : ℕ → ℕ) (m n s t e : ℕ)
    → s < m
    → n < m
    → e ≡ position m s n
    → items (write q e t) m (suc n) s ≡ items q m n s ++ t ∷ []
items-snoc q m zero s t e h k p =
    let here : write q e t s ≡ t = ground arith in ap (λ x. x ∷ []) here
items-snoc q m (suc n) s t e h k p =
    let other : s ≢ e = λ same. position-apart m s n h k (same ∙ p) in
    let kept : write q e t s ≡ q s = ground arith in
    let rest =
      items-snoc q m n (position m s 1) t e (position-in m s 1 h (omega (arith, k)))
        (omega (arith, k)) (p ∙ sym (position-shift m s n h (omega (arith, k)))) in
    ap (λ x. x ∷ items (write q e t) m (suc n) (position m s 1)) kept ∙ ap (λ l. q s ∷ l) rest

-- A push that succeeds.
pub record Pushed (t : ℕ) (queue : Queue) (out : Bool × Queue) : Type 0 where
  pub succeeds : out.0 ≡ true
  pub ring : IsRing out.1
  pub grown : contents out.1 ≡ contents queue ++ t ∷ []

-- A pop that succeeds.
pub record Popped (queue : Queue) (out : Bool × Queue) : Type 0 where
  pub succeeds : out.0 ≡ true
  pub ring : IsRing out.1
  pub front : contents queue ≡ get_head queue ∷ contents out.1

position-suc : (m s n : ℕ) → s < m → n < m → position m (position m s n) 1 ≡ position m s (n + 1)
position-suc m s n h k = ground arith

-- `qpush` onto a queue that is not full returns 0, keeps the ring well formed, and adds the thread
-- at the end of the queue's contents.
pub qpush-Pushed :
    (t : ℕ) (queue : Queue)
    → IsRing queue
    → queue.size < queue.max_threads
    → Pushed t queue (qpush t queue)
unfolding qpush
qpush-Pushed t queue r room =
    let m = queue.max_threads in
    let tail_in : queue.tail < m =
      omega (arith, r.tail_at, position-in m queue.head queue.size r.head_in r.size_in) in
    let one : queue.size + 1 ≡ suc queue.size = omega arith in
    rw (lt→ltb queue.size m room) (record {
      succeeds = refl;
      ring = record {
        head_in = r.head_in;
        size_in = omega (arith, room);
        tail_at =
            position-next m queue.tail tail_in
            ∙ ap (λ s. position m s 1) r.tail_at
            ∙ position-suc m queue.head queue.size r.head_in room;
      };
      grown =
          ap (λ n. items (write queue.q queue.tail t) m n queue.head) one
          ∙ items-snoc queue.q m queue.size queue.head t queue.tail r.head_in room r.tail_at;
    })

popped_front :
    (q : ℕ → ℕ) (m size head : ℕ)
    → head < m
    → 0 < size
    → items q m size head ≡ q head ∷ items q m (size - 1) ((head + 1) % m)
popped_front q m zero head h k = absurd (omega (arith, k))
popped_front q m (suc n) head h k =
    let less : suc n - 1 ≡ n = omega arith in
    rw less (ap (λ s. q head ∷ items q m n s) (sym (position-next m head h)))

-- `qpop` of a queue that is not empty returns 0, keeps the ring well formed, and takes from the
-- contents the thread in front, which is the one that `getHead` returns.
pub qpop-Popped : (queue : Queue) → IsRing queue → 0 < queue.size → Popped queue (qpop queue)
unfolding qpop get_head
qpop-Popped queue r some_left =
    let m = queue.max_threads in
    rw (lt→ltb 0 queue.size some_left) (record {
      succeeds = refl;
      ring = record {
        head_in = omega (
          arith,
          position-next m queue.head r.head_in,
          position-in m queue.head 1 r.head_in (omega (arith, r.head_in)),
        );
        size_in = omega (arith, r.size_in);
        tail_at =
            r.tail_at
            ∙ sym (position-back m queue.head queue.size r.head_in some_left r.size_in)
            ∙ ap (λ s. position m s (queue.size - 1)) (sym (position-next m queue.head r.head_in));
      };
      front = popped_front queue.q m queue.size queue.head r.head_in some_left;
    })
