-- ===== src/Base/Outcome.antt =====
-- What a Go call comes to: a value, an error value, or a run-time panic.
use Prim.Native.Nat.{ℕ}
use mathlib.Core.Bool.{Bool, true, false}
use mathlib.Core.List.{List}

-- `io.EOF`, `io.ErrUnexpectedEOF`, `fmt.Errorf` with its finished text, and with `%w` at the end.
pub data Error : Type 0 where
  eof unexpected_eof : Error
  errorf : List ℕ → Error
  wrapped : List ℕ → Error → Error

pub data Outcome {ℓ} (A : Type ℓ) : Type ℓ where
  ok : A → Outcome A
  fail : Error → Outcome A
  panic : Outcome A

infixl 5 ◌>>=◌ ◌>>◌
abbrev pub ◌>>=◌ {ℓ κ} : {A : Type ℓ} {B : Type κ} → Outcome A → (A → Outcome B) → Outcome B
ok a >>= f = f a
fail e >>= f = fail e
panic >>= f = panic

abbrev pub ◌>>◌ {ℓ} : {B : Type ℓ} → Outcome (Unit {0}) → Outcome B → Outcome B
m >> k = m >>= λ _. k

-- Goes on if the test passes, and returns the error otherwise.
abbrev pub guard : Bool → Error → Outcome (Unit {0})
guard true e = ok tt
guard false e = fail e
