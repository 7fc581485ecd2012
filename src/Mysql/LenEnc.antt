-- ===== src/Mysql/LenEnc.antt =====
-- `readLenEncInt` of mysqlport/mysql_protocol.go.
use tcp_port.Base.{[], if◌then◌else◌, leb, length, ltb, ℕ, ◌++◌, ◌+◌, ◌<◌, ◌==◌, ◌^◌, ◌∷◌, ◌≡◌, ◌≤◌}
use tcp_port.Base.Slice.{Bytes, IsBytes, at, le16, le24, le64, put_le16, put_le24, put_le64}
use native.Mathlib.Decide.{dec_lt}
use tcp_port.Base.{arith, length-append, le→ltb_false, lt→ltb, ◌∙◌}
use tcp_port.Base.Cuts.{get_or-append}
use tcp_port.Base.Slice.{at-lt}

unfoldable pub read_len_enc_int : Bytes → ℕ → ℕ × ℕ
read_len_enc_int bytes i =
    let len = length bytes in
    let b = at bytes i in
    if leb len i
    then (0, i)
    else if ltb b 0xfb
    then (b, i + 1)
    else if b == 0xfc
    then (if leb len (i + 2) then (0, i) else (le16 bytes (i + 1), i + 3))
    else if b == 0xfd
    then (if leb len (i + 3) then (0, i) else (le24 bytes (i + 1), i + 4))
    else if b == 0xfe
    then (if leb len (i + 8) then (0, i) else (le64 bytes (i + 1), i + 9))
    else (0, i)

-- The length-encoded form of a number below 2^64, by the MySQL protocol.
abbrev pub put_len_enc_int : ℕ → Bytes
put_len_enc_int n =
    if ltb n 0xfb
    then n ∷ []
    else if ltb n (2 ^ 16)
    then 0xfc ∷ put_le16 n
    else if ltb n (2 ^ 24)
    then 0xfd ∷ put_le24 n
    else 0xfe ∷ put_le64 n

-- What is read from a position depends on the bytes from there on only.
read_len_enc_int-append :
    (before ys : Bytes)
    → read_len_enc_int (before ++ ys) (length before)
      ≡ ((read_len_enc_int ys 0).0, length before + (read_len_enc_int ys 0).1)
unfolding read_len_enc_int
read_len_enc_int-append before ys = ground (
  arith,
  length-append before ys,
  get_or-append before ys 0 0,
  get_or-append before ys 1 0,
  get_or-append before ys 2 0,
  get_or-append before ys 3 0,
  get_or-append before ys 4 0,
  get_or-append before ys 5 0,
  get_or-append before ys 6 0,
  get_or-append before ys 7 0,
  get_or-append before ys 8 0,
)

put_at_front :
    (rest : Bytes) (n : ℕ)
    → n < 2 ^ 64
    → read_len_enc_int (put_len_enc_int n ++ rest) 0 ≡ (n, length (put_len_enc_int n))
unfolding read_len_enc_int
put_at_front rest n h = elim (dec_lt n 0xfb) [
  | yes p ↦ rw (lt→ltb _ _ p) (ground arith)
  | no p ↦ rw (le→ltb_false n 0xfb (omega arith)) (elim (dec_lt n (2 ^ 16)) [
    | yes q ↦ rw (lt→ltb _ _ q) (ground arith)
    | no q ↦ rw (le→ltb_false n (2 ^ 16) (omega arith)) (elim (dec_lt n (2 ^ 24)) [
      | yes r ↦ rw (lt→ltb _ _ r) (ground arith)
      | no r ↦ rw (le→ltb_false n (2 ^ 24) (omega arith)) (ground arith)
    ])
  ])
]

-- Wherever it stands, the length-encoded form of a number below 2^64 is read back as the number,
-- and the position returned is right behind it.
pub read_len_enc_int-put :
    (before rest : Bytes) (n : ℕ)
    → n < 2 ^ 64
    → read_len_enc_int (before ++ (put_len_enc_int n ++ rest)) (length before)
      ≡ (n, length before + length (put_len_enc_int n))
unfolding read_len_enc_int
read_len_enc_int-put before rest n h =
    read_len_enc_int-append before (put_len_enc_int n ++ rest) ∙ rw (put_at_front rest n h)

-- Wherever it starts, the position returned is not before the start, and inside the data or at
-- its end if the start was. On bytes the value fits 64 bits.
pub read_len_enc_int_bounds :
    (bytes : Bytes) (i : ℕ)
    → i ≤ length bytes
    → IsBytes bytes
    → (i ≤ (read_len_enc_int bytes i).1)
      × ((read_len_enc_int bytes i).1 ≤ length bytes)
      × ((read_len_enc_int bytes i).0 < 2 ^ 64)
unfolding read_len_enc_int
read_len_enc_int_bounds bytes i h b = ground (
  arith,
  at-lt bytes i b,
  at-lt bytes (i + 1) b,
  at-lt bytes (i + 2) b,
  at-lt bytes (i + 3) b,
  at-lt bytes (i + 4) b,
  at-lt bytes (i + 5) b,
  at-lt bytes (i + 6) b,
  at-lt bytes (i + 7) b,
  at-lt bytes (i + 8) b,
)
