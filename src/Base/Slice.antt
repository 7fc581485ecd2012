-- ===== src/Base/Slice.antt =====
-- Byte slices, and the fixed-width integers of `encoding/binary`. A byte is a number below 256.
-- A slice expression is in bounds or panics; the capacity of every slice that the modelled code
-- cuts out of range is its length (the slices come from `make` with that length).
use Prim.Native.Nat.{ℕ, ◌+◌, ◌-◌, ◌*◌, ◌/◌, ◌%◌, ◌^◌, ◌≤◌, ◌<◌}
use mathlib.Core.Path.{◌≡◌}
use mathlib.Core.Bool.{◌&&◌}
use mathlib.Core.List.{List, [], ◌∷◌, ◌++◌}
use mathlib.Core.Option.{none, some}
use native.Mathlib.Omega.{arith}
use tcp_port.Base.Tests.{leb, if◌then◌else◌}
use tcp_port.Base.Lists.{length, get_elem?, get_or, take, drop, All}
use tcp_port.Base.Outcome.{Outcome, ok, panic}
use Prim.Native.Nat.{suc, zero}
use tcp_port.Base.Tests.{◌==◌}

abbrev pub Bytes : Type 0
Bytes = List ℕ

abbrev pub IsBytes : Bytes → Type 0
IsBytes = All (λ b. b < 256)

-- `data[i]`
unfoldable pub index : Bytes → ℕ → Outcome ℕ
index xs i = elim (get_elem? xs i) [ none ↦ panic | some b ↦ ok b ]

-- `data[i]` where a guard has made sure that it is there.
abbrev pub at : Bytes → ℕ → ℕ
at xs i = get_or xs i 0

-- `data[i:j]` where a guard has made sure that it is there.
abbrev pub cut : Bytes → ℕ → ℕ → Bytes
cut xs i j = take (j - i) (drop i xs)

-- `data[i:j]`
unfoldable pub slice : Bytes → ℕ → ℕ → Outcome Bytes
slice xs i j = if leb i j && leb j (length xs) then ok (cut xs i j) else panic

-- `data[i:]`
unfoldable pub slice_from : Bytes → ℕ → Outcome Bytes
slice_from xs i = if leb i (length xs) then ok (drop i xs) else panic

-- `binary.BigEndian` and `binary.LittleEndian` at an offset.
abbrev pub be16 : Bytes → ℕ → ℕ
be16 xs i = at xs i * 256 + at xs (i + 1)

abbrev pub be32 : Bytes → ℕ → ℕ
be32 xs i = be16 xs i * 2 ^ 16 + be16 xs (i + 2)

abbrev pub be64 : Bytes → ℕ → ℕ
be64 xs i = be32 xs i * 2 ^ 32 + be32 xs (i + 4)

abbrev pub le16 : Bytes → ℕ → ℕ
le16 xs i = at xs i + at xs (i + 1) * 256

abbrev pub le24 : Bytes → ℕ → ℕ
le24 xs i = le16 xs i + at xs (i + 2) * 2 ^ 16

abbrev pub le32 : Bytes → ℕ → ℕ
le32 xs i = le16 xs i + le16 xs (i + 2) * 2 ^ 16

abbrev pub le64 : Bytes → ℕ → ℕ
le64 xs i = le32 xs i + le32 xs (i + 4) * 2 ^ 32

-- The bytes of a number, for the encoders that the round trips are stated with.
abbrev pub put_be16 : ℕ → Bytes
put_be16 n = n / 256 % 256 ∷ n % 256 ∷ []

abbrev pub put_be32 : ℕ → Bytes
put_be32 n = n / 2 ^ 24 % 256 ∷ n / 2 ^ 16 % 256 ∷ n / 256 % 256 ∷ n % 256 ∷ []

abbrev pub put_be64 : ℕ → Bytes
put_be64 n = put_be32 (n / 2 ^ 32) ++ put_be32 (n % 2 ^ 32)

abbrev pub put_le16 : ℕ → Bytes
put_le16 n = n % 256 ∷ n / 256 % 256 ∷ []

abbrev pub put_le24 : ℕ → Bytes
put_le24 n = n % 256 ∷ n / 256 % 256 ∷ n / 2 ^ 16 % 256 ∷ []

abbrev pub put_le32 : ℕ → Bytes
put_le32 n = n % 256 ∷ n / 256 % 256 ∷ n / 2 ^ 16 % 256 ∷ n / 2 ^ 24 % 256 ∷ []

abbrev pub put_le64 : ℕ → Bytes
put_le64 n = put_le32 (n % 2 ^ 32) ++ put_le32 (n / 2 ^ 32)

pub slice-in_range : (xs : Bytes) (i j : ℕ) → i ≤ j → j ≤ length xs → slice xs i j ≡ ok (cut xs i j)
unfolding slice
slice-in_range xs i j h k = ground arith

pub slice-out_of_range : (xs : Bytes) (i j : ℕ) → length xs < j → slice xs i j ≡ panic
unfolding slice
slice-out_of_range xs i j h = ground arith

pub put_be32-be32 : (n : ℕ) (rest : Bytes) → n < 2 ^ 32 → be32 (put_be32 n ++ rest) 0 ≡ n
put_be32-be32 n rest h = omega arith

pub put_le24-le24 : (n : ℕ) (rest : Bytes) → n < 2 ^ 24 → le24 (put_le24 n ++ rest) 0 ≡ n
put_le24-le24 n rest h = omega arith

pub put_le32-le32 : (n : ℕ) (rest : Bytes) → n < 2 ^ 32 → le32 (put_le32 n ++ rest) 0 ≡ n
put_le32-le32 n rest h = omega arith

pub be32-lt : (xs : Bytes) → IsBytes xs → be32 xs 0 < 2 ^ 32
be32-lt (a ∷ b ∷ c ∷ d ∷ xs) h = omega arith
be32-lt (a ∷ b ∷ c ∷ xs) h = omega arith
be32-lt (a ∷ b ∷ xs) h = omega arith
be32-lt (a ∷ xs) h = omega arith
be32-lt [] h = omega arith

pub at-lt : (xs : Bytes) (i : ℕ) → IsBytes xs → at xs i < 256
at-lt [] i h = omega arith
at-lt (x ∷ xs) zero h = h.0
at-lt (x ∷ xs) (suc i) h = at-lt xs i h.1

pub put_be64-be64 : (n : ℕ) (rest : Bytes) → n < 2 ^ 64 → be64 (put_be64 n ++ rest) 0 ≡ n
put_be64-be64 n rest h =
    let high : be32 (put_be32 (n / 2 ^ 32)) 0 ≡ n / 2 ^ 32 =
      put_be32-be32 (n / 2 ^ 32) [] (omega arith) in
    let low : be32 (put_be32 (n % 2 ^ 32)) 0 ≡ n % 2 ^ 32 =
      put_be32-be32 (n % 2 ^ 32) [] (omega arith) in
    omega (arith, high, low)

-- The number of bytes before the next zero byte, or all of them: `for i < len(data) && data[i] != 0`.
unfoldable pub until_zero : Bytes → ℕ
until_zero [] = 0
until_zero (b ∷ bs) = if b == 0 then 0 else suc (until_zero bs)

pub until_zero-le : (s : Bytes) → until_zero s ≤ length s
unfolding until_zero
until_zero-le [] = omega arith
until_zero-le (b ∷ bs) = ground (arith, until_zero-le bs)
