-- ===== src/Base/Text.antt =====
-- Text as bytes, and the parts of `fmt` and `strconv` that the modelled code formats with.
use Prim.Native.Nat.{ℕ, zero, suc, ◌+◌, ◌/◌, ◌%◌}
use Prim.Native.Char.{code}
use Prim.Native.String.{String}
use mathlib.Core.Bool.{Bool, true, false}
use mathlib.Core.List.{[], ◌∷◌, ◌++◌}
use tcp_port.Base.Tests.{ltb, ◌==◌, if◌then◌else◌}
use tcp_port.Base.Slice.{Bytes}
use tcp_port.Base.Int.{ℤ, pos, negsuc}
use mathlib.Core.Path.{refl, ◌≡◌}
use native.Mathlib.Omega.{arith}
use mathlib.Core.List.{List}
use mathlib.Core.Option.{Option, none, some}
use tcp_port.Base.Lists.{length, take}
use Prim.Native.Nat.{◌≤◌}
use tcp_port.Base.Lists.{length-append, length-take}
use tcp_port.Base.Int.{eq_ℤ}
use Prim.Native.Nat.{◌*◌, ◌-◌, ◌^◌}
use mathlib.Core.Bool.{◌&&◌, ◌||◌}
use tcp_port.Base.Tests.{leb}

-- The bytes of an ASCII text.
abbrev pub codes : String → Bytes
codes String.[] = []
codes (String.◌∷◌ c s) = code c ∷ codes s

-- The digits of `n` in base `base`; `n + 1` rounds are enough for a base of two or more.
abbrev digit : ℕ → ℕ
digit d = if ltb d 10 then 48 + d else 87 + d

unfoldable pub digits_fuel : ℕ → ℕ → ℕ → Bytes
digits_fuel zero base n = []
digits_fuel (suc f) base n =
    let front = digits_fuel f base (n / base) in
    let high = if n / base == 0 then [] else front in high ++ digit (n % base) ∷ []

-- `%d` of a number that is not negative, and `%x`.
unfoldable pub dec : ℕ → Bytes
unfolding digits_fuel
dec n = digits_fuel (suc n) 10 n

unfoldable pub hex : ℕ → Bytes
unfolding digits_fuel
hex n = digits_fuel (suc n) 16 n

-- `%d` of a signed number.
unfoldable pub dec_ℤ : ℤ → Bytes
unfolding dec
dec_ℤ (pos n) = dec n
dec_ℤ (negsuc n) = b'-' ∷ dec (suc n)

-- `strings.HasPrefix`
unfoldable pub has_prefix : Bytes → Bytes → Bool
has_prefix s [] = true
has_prefix [] (p ∷ ps) = false
has_prefix (c ∷ s) (p ∷ ps) = if c == p then has_prefix s ps else false

-- `strings.Contains`
unfoldable pub contains : Bytes → Bytes → Bool
unfolding has_prefix
contains [] p = has_prefix [] p
contains (c ∷ s) p = if has_prefix (c ∷ s) p then true else contains s p

-- `<` on strings: the order of their bytes.
unfoldable pub less : Bytes → Bytes → Bool
less [] [] = false
less [] (y ∷ ys) = true
less (x ∷ xs) [] = false
less (x ∷ xs) (y ∷ ys) = if x == y then less xs ys else ltb x y

-- Of two different texts exactly one is below the other.
pub less_asym : (s t : Bytes) → less s t ≡ true → less t s ≡ false
unfolding less
less_asym [] [] h = cc
less_asym [] (y ∷ ys) h = refl
less_asym (x ∷ xs) [] h = cc
less_asym (x ∷ xs) (y ∷ ys) h = ground (arith, less_asym xs ys)

pub less_total : (s t : Bytes) → less s t ≡ false → less t s ≡ false → s ≡ t
unfolding less
less_total [] [] h k = refl
less_total [] (y ∷ ys) h k = cc
less_total (x ∷ xs) [] h k = cc
less_total (x ∷ xs) (y ∷ ys) h k = ground (arith, less_total xs ys)

-- `%02x` of a byte.
abbrev pub hex_byte : ℕ → Bytes
hex_byte b = digit (b / 16) ∷ digit (b % 16) ∷ []

-- A lookup in a constant table with numbers for keys.
unfoldable pub find_name : ℕ → List (ℕ × Bytes) → Option Bytes
find_name k [] = none
find_name k ((j, name) ∷ t) = if j == k then some name else find_name k t

-- `s[:limit] + "..."` if the text is longer than the limit.
abbrev pub shorten : ℕ → Bytes → Bytes
shorten limit s = if ltb limit (length s) then take limit s ++ codes "..." else s

pub length-shorten : (limit : ℕ) (s : Bytes) → length (shorten limit s) ≤ limit + 3
length-shorten limit s =
    ground (arith, length-append (take limit s) (codes "..."), length-take limit s)

-- A lookup in a constant table with signed numbers for keys.
unfoldable pub find_name_ℤ : ℤ → List (ℤ × Bytes) → Option Bytes
find_name_ℤ k [] = none
find_name_ℤ k ((j, name) ∷ t) = if eq_ℤ j k then some name else find_name_ℤ k t

-- `strings.TrimRight(s, "\r\n")`
unfoldable pub trim_line : Bytes → Bytes
trim_line [] = []
trim_line (c ∷ cs) = elim (trim_line cs) [
  | [] ↦ if c == 10 || c == 13 then [] else c ∷ []
  | d ∷ ds ↦ c ∷ d ∷ ds
]

-- The number that decimal digits stand for, behind the digits of `acc`; nothing for other bytes.
unfoldable pub parse_digits : ℕ → Bytes → Option ℕ
parse_digits acc [] = some acc
parse_digits acc (c ∷ cs) =
    if leb b'0' c && leb c b'9' then parse_digits (acc * 10 + (c - 48)) cs else none

abbrev in_int64 : Bool → Option ℕ → Option ℤ
in_int64 negative none = none
in_int64 true (some n) =
    if n == 0 then some (pos 0) else if leb n (2 ^ 63) then some (negsuc (n - 1)) else none
in_int64 false (some n) = if ltb n (2 ^ 63) then some (pos n) else none

abbrev pub parse_some : Bytes → Option ℕ
parse_some [] = none
parse_some (c ∷ cs) = parse_digits 0 (c ∷ cs)

-- `strconv.Atoi`, with any error as `none`: a sign or none, and decimal digits of an `int`.
unfoldable pub atoi : Bytes → Option ℤ
unfolding parse_digits
atoi [] = none
atoi (c ∷ cs) =
    if c == b'-'
    then in_int64 true (parse_some cs)
    else if c == b'+'
    then in_int64 false (parse_some cs)
    else in_int64 false (parse_some (c ∷ cs))

-- `strings.Join`
unfoldable pub join : Bytes → List Bytes → Bytes
join sep [] = []
join sep (s ∷ []) = s
join sep (s ∷ t ∷ ss) = s ++ (sep ++ join sep (t ∷ ss))

-- `strings.SplitN(s, c, 2)` where `strings.Contains(s, c)`.
unfoldable pub split_first : ℕ → Bytes → Option (Bytes × Bytes)
split_first c [] = none
split_first c (b ∷ bs) =
    if b == c
    then some ([], bs)
    else elim (split_first c bs) [ none ↦ none | some p ↦ some (b ∷ p.0, p.1) ]
