-- ===== src/Loader/Main.antt =====
-- The arguments as `main` finds them on its stack.
use operating_system_col.Base.{
  ℕ, ◌+◌, ◌-◌, ◌*◌, ◌%◌, ◌≤◌, ◌<◌, ◌≡◌, refl, sym, ap, ◌∙◌, List, [], arith, length, subst,
}
use operating_system_col.Syscall.{word}
use operating_system_col.Syscall.Children.{page_size}
use operating_system_col.Syscall.Address.{phys_base}
use operating_system_col.Loader.Arguments.{
  Stack, push, word_bytes, copy_tokens, align, push_pointers, push_arguments,
}
use operating_system_col.Loader.Layout.{
  IsStack, decode, word_at, Points, push-esp, push-IsStack, word_at-top, Points-push,
  memory_at-push,
}
use operating_system_col.Loader.Frame.{
  size, Strings-push, copy_tokens-Copied, align-Aligned, push_pointers-Pushed,
}

-- A word has been pushed.
record Top (n : ℕ) (s s' : Stack) : Type 0 where
  pub stack : IsStack s'
  pub depth : s'.esp + 4 ≡ s.esp
  pub top : word_at s'.esp s' ≡ n
  pub older : (a : ℕ) → s.esp ≤ a → word_at a s' ≡ word_at a s
  pub points : (ts : List (List ℕ)) (a : ℕ) → Points ts a s → Points ts a s'

push-Top : (n : ℕ) (s : Stack) → IsStack s → n < word → 4 ≤ s.esp → Top n s (push (word_bytes n) s)
push-Top n s i h l =
    let b = word_bytes n in
    record {
      stack = push-IsStack b s i l;
      depth = omega (arith, push-esp b s i l, l);
      top = word_at-top n s h;
      older = λ a k. ap decode (memory_at-push a b s i l k);
      points = λ ts a p. Points-push ts a b s i l p;
    }

-- The stack of a program whose arguments are `ts`, at the start of `main`.
pub record Started (ts : List (List ℕ)) (s : Stack) : Type 0 where
  pub stack : IsStack s
  pub aligned : s.esp % 4 ≡ 0
  pub in_page : phys_base - page_size ≤ s.esp
  pub returns_to : word_at s.esp s ≡ 0
  pub argc : word_at (s.esp + 4) s ≡ length ts
  pub argv : word_at (s.esp + 8) s ≡ s.esp + 12
  pub arguments : Points ts (s.esp + 12) s

-- For arguments that leave room on the page (each needs its bytes, a null byte and a pointer, and 19
-- bytes are for the rest), `setup_stack` builds the stack that `main(argc, argv)` expects: the stack
-- pointer is a multiple of 4 and inside the page below `PHYS_BASE`; above it stand a null return
-- address, the number of the arguments, the address of the array and the array itself, with a pointer
-- to each argument in order, where its bytes and a null byte can be read, and a NULL at its end.
-- The bytes behind the one byte that is copied to align the stack do not matter.
pub push_arguments-Started :
    (after : ℕ → ℕ) (ts : List (List ℕ))
    → size ts + 4 * length ts + 19 ≤ page_size
    → Started ts (push_arguments after ts (record { esp = phys_base; bytes = [] }))
unfolding push_arguments
push_arguments-Started after ts room =
    let start : Stack = record { esp = phys_base; bytes = [] } in
    let argv = (copy_tokens ts start).0 in
    let c = copy_tokens-Copied ts start refl (omega (arith, room)) in
    let copied = (copy_tokens ts start).1 in
    let a = align-Aligned after argv ts copied c.stack (omega (arith, c.depth, room)) c.strings in
    let aligned = align after copied in
    let z = push-Top 0 aligned a.stack (omega arith) (omega (arith, a.near, c.depth, room)) in
    let s0 = push (word_bytes 0) aligned in
    let kept =
      Strings-push argv ts (word_bytes 0) aligned a.stack (omega (arith, a.near, c.depth, room))
        a.strings in
    let p =
      push_pointers-Pushed argv ts s0 z.stack
        (omega (arith, z.depth, a.near, c.depth, c.counted, room)) kept z.top in
    let s1 = push_pointers argv s0 in
    let low : phys_base - page_size + 12 ≤ s1.esp =
      omega (arith, p.depth, z.depth, a.near, c.depth, c.counted, room) in
    let array = push-Top s1.esp s1 p.stack (omega (arith, p.stack)) (omega (arith, low)) in
    let s2 = push (word_bytes s1.esp) s1 in
    let count =
      push-Top (length argv) s2 array.stack (omega (arith, c.counted, room))
        (omega (arith, array.depth, low)) in
    let s3 = push (word_bytes (length argv)) s2 in
    let last =
      push-Top 0 s3 count.stack (omega arith) (omega (arith, count.depth, array.depth, low)) in
    let s4 = push (word_bytes 0) s3 in
    let third : s3.esp ≡ s4.esp + 4 = omega (arith, last.depth) in
    let second : s2.esp ≡ s4.esp + 8 = omega (arith, last.depth, count.depth) in
    let first : s1.esp ≡ s4.esp + 12 = omega (arith, last.depth, count.depth, array.depth) in
    record {
      stack = last.stack;
      aligned = omega (arith, first, p.depth, z.depth, a.aligned);
      in_page = omega (arith, first, low);
      returns_to = last.top;
      argc =
          ap (λ x. word_at x s4) (sym third)
          ∙ last.older s3.esp (omega arith)
          ∙ count.top
          ∙ c.counted;
      argv =
          ap (λ x. word_at x s4) (sym second)
          ∙ last.older s2.esp (omega (arith, count.depth))
          ∙ count.older s2.esp (omega arith)
          ∙ array.top
          ∙ first;
      arguments =
          subst (λ x. Points ts x s4) first
            (last.points ts s1.esp (count.points ts s1.esp (array.points ts s1.esp p.points)));
    }
