-- ===== src/ThreadQueue/Tests.antt =====
-- A ring of three entries that has gone round, and the theorems at it.
use operating_system_col.Base.{◌≡◌, refl, [], ◌∷◌, arith, ◌==◌, if◌then◌else◌}
use operating_system_col.ThreadQueue.{Queue, qpush}
use operating_system_col.ThreadQueue.Refine.{contents, IsRing, Pushed, qpush-Pushed}

-- Its contents are the threads 30 and 40.
abbrev two_threads : Queue
two_threads = record {
  q = λ i. if i == 2 then 30 else if i == 0 then 40 else 20;
  size = 2;
  head = 2;
  tail = 1;
  max_threads = 3;
}

contents_two : contents two_threads ≡ 30 ∷ 40 ∷ []
contents_two = refl

two_threads-IsRing : IsRing two_threads
two_threads-IsRing = record { head_in = omega arith; size_in = omega arith; tail_at = refl }

qpush-Pushed_example : Pushed 50 two_threads (qpush 50 two_threads)
qpush-Pushed_example = qpush-Pushed 50 two_threads two_threads-IsRing (omega arith)
