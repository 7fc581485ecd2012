-- ===== src/Base/Digits.antt =====
-- Numbers in decimal digits, written and read: `strconv.Itoa` and `strconv.Atoi`.
use tcp_port.Base.Int.{pos}
use Prim.Native.Nat.{suc, zero, ℕ, ◌%◌, ◌*◌, ◌+◌, ◌-◌, ◌/◌, ◌<◌, ◌^◌, ◌≤◌}
use mathlib.Core.List.{List, [], ◌++◌, ◌∷◌}
use mathlib.Core.Option.{some}
use mathlib.Core.Path.{◌≡◌}
use native.Mathlib.Omega.{arith}
use tcp_port.Base.Lists.{All}
use tcp_port.Base.Slice.{Bytes}
use tcp_port.Base.Text.{atoi, dec, digits_fuel, parse_digits}
use mathlib.Core.Bool.{false}
use mathlib.Core.Logic.{inl, inr}
use mathlib.Core.Path.{refl}
use tcp_port.Base.Lists.{length, length-append}
use tcp_port.Base.Tests.{Bool-cases, if◌then◌else◌, ltb, lt→ltb, ◌==◌}
use tcp_port.Base.Int.{negsuc}
use tcp_port.Base.Tests.{le→leb}
use tcp_port.Base.Text.{parse_some}

-- The code of a decimal digit.
unfoldable pub IsDigit : ℕ → Type 0
IsDigit c = (48 ≤ c) × (c ≤ 57)

parse_digits-append :
    (acc : ℕ) (cs : Bytes) (c v : ℕ)
    → parse_digits acc cs ≡ some v
    → IsDigit c
    → parse_digits acc (cs ++ (c ∷ [])) ≡ some (v * 10 + (c - 48))
unfolding parse_digits IsDigit
parse_digits-append acc [] c v h d = ground arith
parse_digits-append acc (b ∷ cs) c v h d =
    ground (arith, parse_digits-append (acc * 10 + (b - 48)) cs c v)

All-append_last :
    {A : Type 0} (P : A → Type 0) (xs : List A) (x : A) → All P xs → P x → All P (xs ++ (x ∷ []))
All-append_last P [] x h p = (p, tt)
All-append_last P (y ∷ xs) x h p = (h.0, All-append_last P xs x h.1 p)

parse_digits-digits_fuel : (f n : ℕ) → n < f → parse_digits 0 (digits_fuel f 10 n) ≡ some n
unfolding digits_fuel parse_digits IsDigit
parse_digits-digits_fuel zero n h = absurd (omega (arith, h))
parse_digits-digits_fuel (suc f) n h = ground (
  arith,
  parse_digits-digits_fuel f (n / 10),
  parse_digits-append 0 (digits_fuel f 10 (n / 10)) (48 + n % 10) (n / 10),
)

digits_fuel-IsDigit : (f n : ℕ) → All IsDigit (digits_fuel f 10 n)
unfolding digits_fuel IsDigit
digits_fuel-IsDigit zero n = tt
digits_fuel-IsDigit (suc f) n =
    let last : IsDigit (if ltb (n % 10) 10 then 48 + n % 10 else 87 + n % 10) = ground arith in
    elim (Bool-cases (n / 10 == 0)) [
      | inl e ↦ rw e (last, tt)
      | inr e ↦ rw e (
          All-append_last IsDigit (digits_fuel f 10 (n / 10)) _ (digits_fuel-IsDigit f (n / 10))
            last)
    ]

pub dec-IsDigit : (n : ℕ) → All IsDigit (dec n)
unfolding dec
dec-IsDigit n = digits_fuel-IsDigit (suc n) n

atoi-digits :
    (cs : Bytes) (n : ℕ)
    → All IsDigit cs
    → 0 < length cs
    → parse_digits 0 cs ≡ some n
    → n < 2 ^ 63
    → atoi cs ≡ some (pos n)
unfolding atoi IsDigit
atoi-digits [] n h some_digits e small = absurd (omega (arith, some_digits))
atoi-digits (c ∷ cs) n h some_digits e small =
    let no_minus : (c == b'-') ≡ false = ground (arith, h.0) in
    let no_plus : (c == b'+') ≡ false = ground (arith, h.0) in
    rw (no_minus, no_plus, e, lt→ltb n (2 ^ 63) small) refl

digits_fuel-some : (f n : ℕ) → 0 < length (digits_fuel (suc f) 10 n)
unfolding digits_fuel
digits_fuel-some f n =
    let high = if n / 10 == 0 then [] else digits_fuel f 10 (n / 10) in
    omega (arith, length-append high ((if ltb (n % 10) 10 then 48 + n % 10 else 87 + n % 10) ∷ []))

-- A number has a digit.
pub dec-some : (n : ℕ) → 0 < length (dec n)
unfolding dec
dec-some n = digits_fuel-some n n

-- A number is read back from its decimal digits.
pub atoi-dec : (n : ℕ) → n < 2 ^ 63 → atoi (dec n) ≡ some (pos n)
unfolding dec
atoi-dec n h =
    atoi-digits (digits_fuel (suc n) 10 n) n (digits_fuel-IsDigit (suc n) n) (digits_fuel-some n n)
      (parse_digits-digits_fuel (suc n) n (omega arith)) h

parse_some-dec :
    (cs : Bytes) (n : ℕ) → 0 < length cs → parse_digits 0 cs ≡ some n → parse_some cs ≡ some n
parse_some-dec [] n h e = absurd (omega (arith, h))
parse_some-dec (c ∷ cs) n h e = e

-- A negative number is read back too.
pub atoi-minus : (n : ℕ) → 0 < n → n ≤ 2 ^ 63 → atoi (b'-' ∷ dec n) ≡ some (negsuc (n - 1))
unfolding dec atoi
atoi-minus n h k =
    let e =
      parse_some-dec (digits_fuel (suc n) 10 n) n (digits_fuel-some n n)
        (parse_digits-digits_fuel (suc n) n (omega arith)) in
    let not_zero : (n == 0) ≡ false = ground arith in rw (e, not_zero, le→leb n (2 ^ 63) k) refl
