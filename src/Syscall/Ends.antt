-- ===== src/Syscall/Ends.antt =====
-- Predicates on how a system call ends.
use operating_system_col.Base.{◌≡◌, false}
use operating_system_col.Syscall.{
  Machine, State, Outcome, returned, exited, waits, hangs, powered_off, panic, undefined, ◌>>=◌,
}

module _ {M : Machine} where
  -- The code runs to its end, with a result and a state that have the property.
  abbrev pub Returns {ℓ} : {A : Type ℓ} → (A → State M → Type 0) → Outcome M A → Type 0
  Returns P (returned a s) = P a s
  Returns P (exited s) = ⊥
  Returns P (waits c s) = ⊥
  Returns P hangs = ⊥
  Returns P powered_off = ⊥
  Returns P panic = ⊥
  Returns P undefined = ⊥

  pub Returns-bind {ℓ κ} :
      {A : Type ℓ} {B : Type κ} (P : A → State M → Type 0) (Q : B → State M → Type 0)
      (o : Outcome M A) (f : A → State M → Outcome M B)
      → Returns P o
      → ((a : A) (s : State M) → P a s → Returns Q (f a s))
      → Returns Q (o >>= f)
  Returns-bind P Q (returned a s) f p g = g a s p
  Returns-bind P Q (exited s) f p g = absurd p
  Returns-bind P Q (waits c s) f p g = absurd p
  Returns-bind P Q hangs f p g = absurd p
  Returns-bind P Q powered_off f p g = absurd p
  Returns-bind P Q panic f p g = absurd p
  Returns-bind P Q undefined f p g = absurd p

  pub Returns-mono {ℓ} :
      {A : Type ℓ} (P Q : A → State M → Type 0) (o : Outcome M A)
      → Returns P o
      → ((a : A) (s : State M) → P a s → Q a s)
      → Returns Q o
  Returns-mono P Q (returned a s) p g = g a s p
  Returns-mono P Q (exited s) p g = absurd p
  Returns-mono P Q (waits c s) p g = absurd p
  Returns-mono P Q hangs p g = absurd p
  Returns-mono P Q powered_off p g = absurd p
  Returns-mono P Q panic p g = absurd p
  Returns-mono P Q undefined p g = absurd p

  abbrev pub IsUnlocked : State M → Type 0
  IsUnlocked s = s.has_file_lock ≡ false

  -- No `ASSERT` fails, and wherever the code stops the thread does not hold `file_lock`.
  abbrev pub Unlocks {ℓ} : {A : Type ℓ} → Outcome M A → Type 0
  Unlocks (returned a s) = IsUnlocked s
  Unlocks (exited s) = IsUnlocked s
  Unlocks (waits c s) = IsUnlocked s
  Unlocks hangs = Unit
  Unlocks powered_off = Unit
  Unlocks panic = ⊥
  Unlocks undefined = Unit

  pub Unlocks-bind {ℓ κ} :
      {A : Type ℓ} {B : Type κ} (o : Outcome M A) (f : A → State M → Outcome M B)
      → Unlocks o
      → ((a : A) (s : State M) → IsUnlocked s → Unlocks (f a s))
      → Unlocks (o >>= f)
  Unlocks-bind (returned a s) f p g = g a s p
  Unlocks-bind (exited s) f p g = p
  Unlocks-bind (waits c s) f p g = p
  Unlocks-bind hangs f p g = tt
  Unlocks-bind powered_off f p g = tt
  Unlocks-bind panic f p g = absurd p
  Unlocks-bind undefined f p g = tt
