-- ===== src/Mongo/Bson.antt =====
-- The scans over BSON documents of mongoport/mongo_protocol.go that do not print them.
use tcp_port.Base.{
  Option, [], arith, equal, false, if◌then◌else◌, leb, length, ltb, none, not, some, suc, true,
  zero, ℕ, ◌&&◌, ◌+◌, ◌-◌, ◌<◌, ◌==◌, ◌||◌, ◌≡◌, ◌≤◌,
}
use tcp_port.Base.Slice.{Bytes, at, cut, le32}
use tcp_port.Base.Text.{codes}
use tcp_port.Base.{Bool-cases, inl, inr, refl}
use tcp_port.Base.Slice.{until_zero}
use tcp_port.Mongo.{zero_from}

-- `findBodySection`: the position behind the first zero byte that has four bytes behind it.
unfoldable pub find_body_section : Bytes → Option ℕ
find_body_section s = elim (ltb (until_zero s) (length s - 4)) [
  | true ↦ some (until_zero s + 1)
  | false ↦ none
]

unfoldable pub extract_bson_first_key : Bytes → Bytes
extract_bson_first_key s =
    if ltb (length s) 5 then [] else if at s 4 == 0 then [] else cut s 5 (zero_from s 5)

unfoldable pub skip_bson_value : Bytes → ℕ → ℕ → ℕ
skip_bson_value s i typ =
    let len = le32 s i in
    if leb (length s) i
    then i
    else if typ == 0x01
    then i + 8
    else if typ == 0x02
    then (if leb (i + 4) (length s) then i + 4 + len else i)
    else if typ == 0x03 || typ == 0x04
    then (if leb (i + 4) (length s) then i + len else i)
    else if typ == 0x05
    then (if leb (i + 5) (length s) then i + 5 + len else i)
    else if typ == 0x08
    then i + 1
    else if typ == 0x09
    then i + 8
    else if typ == 0x0a
    then i
    else if typ == 0x10
    then i + 4
    else if typ == 0x12
    then i + 8
    else if typ == 0x13
    then i + 16
    else i

-- The loop of `extractBSONValue` from position `i` on, for at most `fuel` rounds; `none` when they
-- are used up.
unfoldable pub find_field : ℕ → Bytes → Bytes → ℕ → Option Bytes
find_field zero s field i = none
find_field (suc fuel) s field i =
    let key_end = zero_from s (i + 1) in
    let next = skip_bson_value s (key_end + 1) (at s i) in
    let rest = find_field fuel s field next in
    if not (ltb i (length s - 1))
    then some []
    else if at s i == 0
    then some []
    else if equal (cut s (i + 1) key_end) field && not (length field == 0)
    then some (codes "(found)")
    else rest

unfoldable pub extract_bson_value : Bytes → Bytes → Option Bytes
unfolding find_field
extract_bson_value s field = if ltb (length s) 5 then some [] else find_field (length s) s field 4

-- A value is never skipped backwards.
pub skip_bson_value-le : (s : Bytes) (i typ : ℕ) → i ≤ skip_bson_value s i typ
unfolding skip_bson_value
skip_bson_value-le s i typ = ground arith

find_field-total :
    (fuel : ℕ) (s field : Bytes) (i : ℕ)
    → length s ≤ fuel + i
    → 0 < fuel
    → (v : Bytes) × (find_field fuel s field i ≡ some v)
unfolding find_field
find_field-total zero s field i h k = absurd (omega (arith, k))
find_field-total (suc zero) s field i h k = ([], ground arith)
find_field-total (suc (suc fuel)) s field i h k =
    let key_end = zero_from s (i + 1) in
    let next = skip_bson_value s (key_end + 1) (at s i) in
    let ahead = skip_bson_value-le s (key_end + 1) (at s i) in
    let (v, e) = find_field-total (suc fuel) s field next (omega arith) (omega arith) in
    elim (Bool-cases (not (ltb i (length s - 1)))) [
      | inl stop ↦ ([], rw stop refl)
      | inr go ↦ elim (Bool-cases (at s i == 0)) [
        | inl end ↦ ([], rw (go, end) refl)
        | inr more ↦
            elim (Bool-cases (equal (cut s (i + 1) key_end) field && not (length field == 0))) [
              | inl hit ↦ (codes "(found)", rw (go, more, hit) refl)
              | inr miss ↦ (v, rw (go, more, miss) e)
            ]
      ]
    ]

-- The search for a field of a document always ends: its rounds are never used up.
pub extract_bson_value-total :
    (s field : Bytes) → (v : Bytes) × (extract_bson_value s field ≡ some v)
unfolding extract_bson_value
extract_bson_value-total s field = elim (Bool-cases (ltb (length s) 5)) [
  | inl short ↦ ([], rw short refl)
  | inr long ↦
      let (v, e) = find_field-total (length s) s field 4 (omega arith) (ground arith) in
      (v, rw long e)
]
