-- ===== src/Base/Leaves.antt =====
-- How many bytes a reader leaves.
use Prim.Native.Nat.{ℕ, suc, ◌≤◌, ◌<◌}
use mathlib.Core.Path.{◌≡◌, refl}
use mathlib.Core.Logic.{inl, inr}
use mathlib.Core.Bool.{Bool, true, false}
use mathlib.Core.List.{[], ◌∷◌}
use native.Mathlib.Omega.{arith}
use tcp_port.Base.Tests.{Bool-cases, ◌==◌, if◌then◌else◌}
use tcp_port.Base.Lists.{length, length-drop}
use tcp_port.Base.Outcome.{Error, Outcome, eof, ok, fail, panic}
use tcp_port.Base.Reader.{
  Line, Read, Reading, bind-done, bind-failed, bind-panicked, cons_line, done, failed, find_line,
  found, lift, line_result, missing, panicked, pure, read_full, read_string, throw, wrap_error,
  ◌>>=◌,
}
use tcp_port.Base.Slice.{Bytes}

-- A read that leaves no more than `l` bytes.
unfoldable pub Leaves : {A : Type 0} → ℕ → Reading A → Type 0
Leaves l (done a r) = length r ≤ l
Leaves l (failed e r) = length r ≤ l
Leaves l panicked = Unit {0}

-- A read that leaves fewer than `l` bytes, if it succeeds.
unfoldable pub Eats : {A : Type 0} → ℕ → Reading A → Type 0
Eats l (done a r) = length r < l
Eats l (failed e r) = Unit {0}
Eats l panicked = Unit {0}

-- A line that was found leaves fewer than `l` bytes.
unfoldable pub LineLeaves : ℕ → Line → Type 0
LineLeaves l (found line rest) = length rest < l
LineLeaves l missing = Unit {0}

cons_line-LineLeaves : (c l : ℕ) (x : Line) → LineLeaves l x → LineLeaves (suc l) (cons_line c x)
unfolding LineLeaves
cons_line-LineLeaves c l (found line rest) h = omega (arith, h)
cons_line-LineLeaves c l missing h = h

pub find_line-LineLeaves : (d : ℕ) (r : Bytes) → LineLeaves (length r) (find_line d r)
unfolding find_line LineLeaves
find_line-LineLeaves d [] = tt
find_line-LineLeaves d (c ∷ cs) = elim (Bool-cases (c == d)) [
  | inl e ↦ rw e (omega arith)
  | inr e ↦ rw e (cons_line-LineLeaves c (length cs) (find_line d cs) (find_line-LineLeaves d cs))
]

pub Leaves-more : {A : Type 0} (l l' : ℕ) (x : Reading A) → l ≤ l' → Leaves l x → Leaves l' x
unfolding Leaves
Leaves-more l l' (done a r) h k = omega (arith, k)
Leaves-more l l' (failed e r) h k = omega (arith, k)
Leaves-more l l' panicked h k = k

pub line-Leaves :
    {B : Type 0} (l : ℕ) (x : Line) (m : Read Bytes) (f : Bytes → Read B) (r : Bytes)
    → LineLeaves l x
    → m r ≡ line_result x
    → ((line rest : Bytes) → length rest < l → Leaves (length rest) (f line rest))
    → Leaves l ((m >>= f) r)
unfolding LineLeaves Leaves
line-Leaves l (found line rest) m f r h e k =
    rw (bind-done m f r rest line e)
      (Leaves-more (length rest) l (f line rest) (omega arith) (k line rest h))
line-Leaves l missing m f r h e k = rw (bind-failed m f r [] eof e) (omega arith)

pub Leaves-bind :
    {A B : Type 0} (l : ℕ) (x : Reading A) (m : Read A) (f : A → Read B) (r : Bytes)
    → m r ≡ x
    → Leaves l x
    → ((a : A) (r' : Bytes) → length r' ≤ l → Leaves l (f a r'))
    → Leaves l ((m >>= f) r)
unfolding Leaves
Leaves-bind l (done a r') m f r e h k = rw (bind-done m f r r' a e) (k a r' h)
Leaves-bind l (failed x r') m f r e h k = rw (bind-failed m f r r' x e) h
Leaves-bind l panicked m f r e h k = rw (bind-panicked m f r e) tt

pub read_full-Leaves : (n : ℕ) (r : Bytes) → Leaves (length r) (read_full n r)
unfolding read_full Leaves
read_full-Leaves n r = ground (arith, length-drop n r)

pub lift-Leaves : {A : Type 0} (x : Outcome A) (r : Bytes) → Leaves (length r) (lift x r)
unfolding Leaves
lift-Leaves (ok a) r = omega arith
lift-Leaves (fail e) r = omega arith
lift-Leaves panic r = tt

pub if-Leaves :
    {B : Type 0} (b : Bool) (m k : Read B) (r : Bytes)
    → Leaves (length r) (m r)
    → Leaves (length r) (k r)
    → Leaves (length r) ((if b then m else k) r)
if-Leaves true m k r h h' = h
if-Leaves false m k r h h' = h'

pub Leaves-Eats : {A : Type 0} (l n : ℕ) (x : Reading A) → l < n → Leaves l x → Eats n x
unfolding Leaves Eats
Leaves-Eats l n (done a r) h k = omega (arith, h, k)
Leaves-Eats l n (failed e r) h k = tt
Leaves-Eats l n panicked h k = tt

-- A first read that eats, with what follows it.
pub Eats-bind :
    {A B : Type 0} (l : ℕ) (x : Reading A) (m : Read A) (f : A → Read B) (r : Bytes)
    → m r ≡ x
    → Eats l x
    → ((a : A) (r' : Bytes) → Leaves (length r') (f a r'))
    → Eats l ((m >>= f) r)
unfolding Eats
Eats-bind l (done a r') m f r e h k =
    rw (bind-done m f r r' a e) (Leaves-Eats (length r') l (f a r') h (k a r'))
Eats-bind l (failed x r') m f r e h k = rw (bind-failed m f r r' x e) tt
Eats-bind l panicked m f r e h k = rw (bind-panicked m f r e) tt

line_result-Eats : (l : ℕ) (x : Line) → LineLeaves l x → Eats l (line_result x)
unfolding LineLeaves Eats
line_result-Eats l (found line rest) h = h
line_result-Eats l missing h = tt

pub read_string-Eats : (d : ℕ) (r : Bytes) → Eats (length r) (read_string d r)
unfolding read_string
read_string-Eats d r = line_result-Eats (length r) (find_line d r) (find_line-LineLeaves d r)

pub read_full-Eats : (n : ℕ) (r : Bytes) → 0 < n → Eats (length r) (read_full n r)
unfolding read_full Eats
read_full-Eats n r h = ground (arith, length-drop n r)

line_result-Leaves : (l : ℕ) (x : Line) → LineLeaves l x → Leaves l (line_result x)
unfolding LineLeaves Leaves
line_result-Leaves l (found line rest) h = omega (arith, h)
line_result-Leaves l missing h = omega arith

pub read_string-Leaves : (d : ℕ) (r : Bytes) → Leaves (length r) (read_string d r)
unfolding read_string
read_string-Leaves d r = line_result-Leaves (length r) (find_line d r) (find_line-LineLeaves d r)

wrap_error-Leaves :
    {A : Type 0} (l : ℕ) (t : Bytes) (x : Reading A) (m : Read A) (r : Bytes)
    → m r ≡ x
    → Leaves l x
    → Leaves l (wrap_error t m r)
unfolding Leaves
wrap_error-Leaves l t (done a r') m r e h = rw (wrap_error, e) h
wrap_error-Leaves l t (failed x r') m r e h = rw (wrap_error, e) h
wrap_error-Leaves l t panicked m r e h = rw (wrap_error, e) tt

wrap_error-Eats :
    {A : Type 0} (l : ℕ) (t : Bytes) (x : Reading A) (m : Read A) (r : Bytes)
    → m r ≡ x
    → Eats l x
    → Eats l (wrap_error t m r)
unfolding Eats
wrap_error-Eats l t (done a r') m r e h = rw (wrap_error, e) h
wrap_error-Eats l t (failed x r') m r e h = rw (wrap_error, e) tt
wrap_error-Eats l t panicked m r e h = rw (wrap_error, e) tt

pub wrapped_full-Eats :
    (n : ℕ) (t r : Bytes) → 0 < n → Eats (length r) (wrap_error t (read_full n) r)
wrapped_full-Eats n t r h =
    wrap_error-Eats (length r) t (read_full n r) (read_full n) r refl (read_full-Eats n r h)

-- A reader that gives nothing back to the stream.
abbrev pub Frugal : {A : Type 0} → Read A → Type 0
Frugal m = (r : Bytes) → Leaves (length r) (m r)

pub pure-Frugal : {A : Type 0} (a : A) → Frugal (pure a)
unfolding Leaves
pure-Frugal a r = omega arith

pub throw-Frugal : (A : Type 0) (e : Error) → Frugal (throw {A = A} e)
unfolding Leaves
throw-Frugal A e r = omega arith

pub bind-Frugal :
    {A B : Type 0} (m : Read A) (f : A → Read B)
    → Frugal m
    → ((a : A) → Frugal (f a))
    → Frugal (m >>= f)
bind-Frugal m f h k r =
    Leaves-bind (length r) (m r) m f r refl (h r)
      (λ a r' e. Leaves-more (length r') (length r) (f a r') e (k a r'))

pub if-Frugal :
    {A : Type 0} (b : Bool) (m k : Read A) → Frugal m → Frugal k → Frugal (if b then m else k)
if-Frugal true m k h h' = h
if-Frugal false m k h h' = h'

pub wrap_error-Frugal : {A : Type 0} (t : Bytes) (m : Read A) → Frugal m → Frugal (wrap_error t m)
wrap_error-Frugal t m h r = wrap_error-Leaves (length r) t (m r) m r refl (h r)
