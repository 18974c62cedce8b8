-- ===== src/Loader/Tokens.antt =====
-- The command line and its arguments.
use operating_system_col.Base.{
  ℕ, ◌≡◌, ◌≢◌, refl, sym, ap, ◌∙◌, false, List, [], ◌∷◌, ◌++◌, arith, ◌==◌, All, append_assoc,
  append-nil,
}
use operating_system_col.Loader.Arguments.{emit, tokens_from}

-- A command line with these arguments, each with a space after it.
abbrev pub join : List (List ℕ) → List ℕ
join [] = []
join (t ∷ ts) = t ++ 32 ∷ join ts

-- An argument is not empty and has no space.
abbrev pub IsToken : List ℕ → Type 0
IsToken t = (t ≢ []) × All (λ c. c ≢ 32) t

tokens_from-append :
    (token t s : List ℕ)
    → All (λ c. c ≢ 32) t
    → tokens_from token (t ++ 32 ∷ s) ≡ emit (token ++ t) (tokens_from [] s)
tokens_from-append token [] s h = ap (λ x. emit x (tokens_from [] s)) (sym (append-nil token))
tokens_from-append token (c ∷ t) s h =
    let other : (c == 32) ≡ false = ground (arith, h.0) in
    rw (tokens_from, other)
      (tokens_from-append (token ++ c ∷ []) t s h.1
        ∙ ap (λ x. emit x (tokens_from [] s)) (append_assoc token (c ∷ []) t))

emit-token : (t : List ℕ) (rest : List (List ℕ)) → t ≢ [] → emit t rest ≡ t ∷ rest
emit-token [] rest h = absurd (h refl)
emit-token (c ∷ t) rest h = refl

-- The tokens of a command line that was put together from arguments are those arguments.
pub tokens_from-join : (ts : List (List ℕ)) → All IsToken ts → tokens_from [] (join ts) ≡ ts
tokens_from-join [] h = refl
tokens_from-join (t ∷ ts) h =
    tokens_from-append [] t (join ts) h.0.1
    ∙ emit-token t (tokens_from [] (join ts)) h.0.0
    ∙ ap (λ x. t ∷ x) (tokens_from-join ts h.1)
