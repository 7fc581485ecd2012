-- ===== src/Base/Reader.antt =====
-- `io.Reader` as the bytes that are left of a finite stream, and a monad for the code that reads
-- from it. The bytes that are left are kept when a call fails, since callers may read on.
use Prim.Native.Nat.{ℕ, ◌≤◌, ◌<◌}
use mathlib.Core.Path.{◌≡◌}
use mathlib.Core.Bool.{Bool, true, false}
use mathlib.Core.List.{[], ◌∷◌, ◌++◌}
use native.Mathlib.Omega.{arith}
use tcp_port.Base.Tests.{leb, ◌==◌, if◌then◌else◌}
use tcp_port.Base.Lists.{length, take, drop, take-append, drop-append, length-append}
use tcp_port.Base.Outcome.{Outcome, Error, eof, unexpected_eof, wrapped, ok, fail, panic}
use tcp_port.Base.Slice.{Bytes}
use mathlib.Core.Path.{refl}

pub data Reading {ℓ} (A : Type ℓ) : Type ℓ where
  done : A → Bytes → Reading A
  failed : Error → Bytes → Reading A
  panicked : Reading A

abbrev pub Read : Type 0 → Type 0
Read A = Bytes → Reading A

infixl 5 ◌>>=◌ ◌>>◌
abbrev pub ◌>>=◌ : {A B : Type 0} → Read A → (A → Read B) → Read B
◌>>=◌ m f r = elim (m r) [ done a r' ↦ f a r' | failed e r' ↦ failed e r' | panicked ↦ panicked ]

abbrev pub ◌>>◌ : {B : Type 0} → Read (Unit {0}) → Read B → Read B
m >> k = m >>= λ _. k

abbrev pub pure : {A : Type 0} → A → Read A
pure a r = done a r

abbrev pub throw : {A : Type 0} → Error → Read A
throw e r = failed e r

abbrev pub require : Bool → Error → Read (Unit {0})
require true e r = done tt r
require false e r = failed e r

-- A call that does not read.
abbrev pub lift : {A : Type 0} → Outcome A → Read A
lift (ok a) r = done a r
lift (fail e) r = failed e r
lift panic r = panicked

-- `return nil, fmt.Errorf("…: %w", err)` around a read.
abbrev pub wrap_error : {A : Type 0} → Bytes → Read A → Read A
wrap_error text m r = elim (m r) [
  | done a r' ↦ done a r'
  | failed e r' ↦ failed (wrapped text e) r'
  | panicked ↦ panicked
]

-- `io.ReadFull` into a buffer of `n` bytes.
unfoldable pub read_full : ℕ → Read Bytes
read_full n r =
    if leb n (length r)
    then done (take n r) (drop n r)
    else if length r == 0
    then failed eof []
    else failed unexpected_eof []

-- The bytes up to the first delimiter and behind it, if there is one.
pub data Line : Type 0 where
  found : Bytes → Bytes → Line
  missing : Line

abbrev pub cons_line : ℕ → Line → Line
cons_line c (found line rest) = found (c ∷ line) rest
cons_line c missing = missing

unfoldable pub find_line : ℕ → Bytes → Line
find_line delim [] = missing
find_line delim (c ∷ cs) =
    if c == delim then found (c ∷ []) cs else cons_line c (find_line delim cs)

abbrev pub line_result : Line → Reading Bytes
line_result (found line rest) = done line rest
line_result missing = failed eof []

-- `bufio.Reader.ReadString`: the line with its delimiter; at the end of the stream what was read
-- goes lost with the error, since no caller looks at it.
unfoldable pub read_string : ℕ → Read Bytes
unfolding find_line
read_string delim r = line_result (find_line delim r)

pub read_full-append :
    (xs rest : Bytes) (n : ℕ) → n ≡ length xs → read_full n (xs ++ rest) ≡ done xs rest
unfolding read_full
read_full-append xs rest n e =
    ground (arith, length-append xs rest, take-append xs rest, drop-append xs rest)

pub read_full-short :
    (n : ℕ) (r : Bytes) → 0 < length r → length r < n → read_full n r ≡ failed unexpected_eof []
unfolding read_full
read_full-short n r h k = ground arith

pub read_full-enough :
    (n : ℕ) (r : Bytes) → n ≤ length r → read_full n r ≡ done (take n r) (drop n r)
unfolding read_full
read_full-enough n r h = ground arith

-- A read that succeeds hands its result on.
pub bind-done :
    {A B : Type 0} (m : Read A) (f : A → Read B) (r r' : Bytes) (a : A)
    → m r ≡ done a r'
    → (m >>= f) r ≡ f a r'
bind-done m f r r' a h = rw (◌>>=◌, h) refl

pub wrap_error-done :
    {A : Type 0} (text : Bytes) (m : Read A) (r r' : Bytes) (a : A)
    → m r ≡ done a r'
    → wrap_error text m r ≡ done a r'
wrap_error-done text m r r' a h = rw (wrap_error, h) refl

-- Reads that agree at a place go on alike.
pub bind-agree :
    {A B : Type 0} (m m' : Read A) (f : A → Read B) (r : Bytes)
    → m r ≡ m' r
    → (m >>= f) r ≡ (m' >>= f) r
bind-agree m m' f r h = rw (◌>>=◌, h) refl

pub bind-failed :
    {A B : Type 0} (m : Read A) (f : A → Read B) (r r' : Bytes) (e : Error)
    → m r ≡ failed e r'
    → (m >>= f) r ≡ failed e r'
bind-failed m f r r' e h = rw (◌>>=◌, h) refl

pub bind-panicked :
    {A B : Type 0} (m : Read A) (f : A → Read B) (r : Bytes)
    → m r ≡ panicked
    → (m >>= f) r ≡ panicked
bind-panicked m f r h = rw (◌>>=◌, h) refl
