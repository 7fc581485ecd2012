-- ===== src/Dubbo/Hessian.antt =====
-- Strings that `readHessian2String` (dubboport/dubbo_protocol.go) reads back.
use tcp_port.Base.{
  arith, drop-append, false, if◌then◌else◌, length, length-append, le→ltb_false, ltb, refl, some,
  take-append, ℕ, ◌++◌, ◌+◌, ◌-◌, ◌^◌, ◌∷◌, ◌≡◌,
}
use tcp_port.Base.Cuts.{get_or-append}
use tcp_port.Base.Slice.{Bytes, at, put_be16, put_be32}
use tcp_port.Dubbo.Strings.{hessian_bytes}
use tcp_port.Base.{
  Bool-cases, [], ap, append_assoc, inl, inr, le→leb, ltb→lt, lt→leb_false, sym, ◌<◌, ◌∙◌, ◌≤◌,
}
use tcp_port.Base.Slice.{be16, be32}
use tcp_port.Dubbo.Strings.{read_hessian2_string}
use tcp_port.Base.{◌%◌, ◌/◌}

-- A string in the shortest of the forms that are read.
unfoldable pub encode_hessian2 : Bytes → Bytes
encode_hessian2 s =
    if ltb (length s) 32
    then length s ∷ s
    else if ltb (length s) 256
    then 0x30 ∷ length s ∷ s
    else if ltb (length s) (2 ^ 16)
    then 0x31 ∷ (put_be16 (length s) ++ s)
    else 0x32 ∷ (put_be32 (length s) ++ s)

at-append : (xs ys : Bytes) (i : ℕ) → at (xs ++ ys) (length xs + i) ≡ at ys i
at-append xs ys i = get_or-append xs ys i 0

-- A string of a known length behind a prefix.
hessian_bytes-append :
    (front s rest : Bytes) (i len : ℕ)
    → i ≡ length front
    → len ≡ length s
    → hessian_bytes (front ++ (s ++ rest)) i len ≡ (s, some (i + len))
hessian_bytes-append front s rest i len e l =
    let n = length front in
    let fits : ltb (length (front ++ (s ++ rest))) (n + length s) ≡ false =
      le→ltb_false (length (front ++ (s ++ rest))) (n + length s)
        (omega (arith, length-append front (s ++ rest), length-append s rest)) in
    let behind : n + length s - n ≡ length s = omega arith in
    rw (e, l, fits, behind, drop-append front (s ++ rest), take-append s rest) refl

-- The same behind a tag and a length.
hessian_bytes-header :
    (front header s rest : Bytes) (len : ℕ)
    → len ≡ length s
    → hessian_bytes (front ++ (header ++ (s ++ rest))) (length front + length header) len
      ≡ (s, some (length front + length header + len))
hessian_bytes-header front header s rest len l =
    ap (λ w. hessian_bytes w (length front + length header) len)
      (sym (append_assoc front header (s ++ rest)))
    ∙ hessian_bytes-append (front ++ header) s rest (length front + length header) len
        (sym (length-append front header)) l

module _ (w : Bytes) (i : ℕ) where
  read-tiny :
      i < length w → at w i ≤ 0x1f → read_hessian2_string w i ≡ hessian_bytes w (i + 1) (at w i)
  unfolding read_hessian2_string
  read-tiny h k = rw (lt→leb_false (length w) i h, le→leb (at w i) 0x1f k) refl

  read-one :
      i + 1 < length w
      → at w i ≡ 0x30
      → read_hessian2_string w i ≡ hessian_bytes w (i + 2) (at w (i + 1))
  unfolding read_hessian2_string
  read-one h k =
      rw (lt→leb_false (length w) i (omega (arith, h)), k, lt→leb_false (length w) (i + 1) h) refl

  read-two :
      i + 3 ≤ length w
      → at w i ≡ 0x31
      → read_hessian2_string w i ≡ hessian_bytes w (i + 3) (be16 w (i + 1))
  unfolding read_hessian2_string
  read-two h k =
      rw (lt→leb_false (length w) i (omega (arith, h)), k, le→ltb_false (length w) (i + 3) h) refl

  read-four :
      i + 5 ≤ length w
      → at w i ≡ 0x32
      → read_hessian2_string w i ≡ hessian_bytes w (i + 5) (be32 w (i + 1))
  unfolding read_hessian2_string
  read-four h k =
      rw (lt→leb_false (length w) i (omega (arith, h)), k, le→ltb_false (length w) (i + 5) h) refl

-- The number of bytes in front of a string.
unfoldable pub hessian2_header : ℕ → ℕ
hessian2_header n = if ltb n 32 then 1 else if ltb n 256 then 2 else if ltb n (2 ^ 16) then 3 else 5

module _ (front s rest : Bytes) where
  read-tiny-encode :
      length s < 32
      → read_hessian2_string (front ++ (length s ∷ (s ++ rest))) (length front)
        ≡ (s, some (length front + 1 + length s))
  read-tiny-encode h =
      let w = front ++ (length s ∷ (s ++ rest)) in
      let size : length front < length w =
        omega (arith, length-append front (length s ∷ (s ++ rest))) in
      let tag : at w (length front) ≡ length s =
        ap (at w) (omega arith) ∙ at-append front (length s ∷ (s ++ rest)) 0 in
      read-tiny w (length front) size (omega (arith, tag, h))
      ∙ (ap (hessian_bytes w (length front + 1)) tag
          ∙ hessian_bytes-header front (length s ∷ []) s rest (length s) refl)

  read-one-encode :
      read_hessian2_string (front ++ (0x30 ∷ length s ∷ (s ++ rest))) (length front)
      ≡ (s, some (length front + 2 + length s))
  read-one-encode =
      let tail = 0x30 ∷ length s ∷ (s ++ rest) in
      let w = front ++ tail in
      let size : length front + 1 < length w = omega (arith, length-append front tail) in
      let tag : at w (length front) ≡ 0x30 = ap (at w) (omega arith) ∙ at-append front tail 0 in
      read-one w (length front) size tag
      ∙ (ap (hessian_bytes w (length front + 2)) (at-append front tail 1)
          ∙ hessian_bytes-header front (0x30 ∷ length s ∷ []) s rest (length s) refl)

  read-two-encode :
      length s < 2 ^ 16
      → read_hessian2_string (front ++ (0x31 ∷ (put_be16 (length s) ++ (s ++ rest)))) (length front)
        ≡ (s, some (length front + 3 + length s))
  read-two-encode h =
      let tail = 0x31 ∷ (put_be16 (length s) ++ (s ++ rest)) in
      let w = front ++ tail in
      let size : length front + 3 ≤ length w = omega (arith, length-append front tail) in
      let tag : at w (length front) ≡ 0x31 = ap (at w) (omega arith) ∙ at-append front tail 0 in
      let high = at-append front tail 1 in
      let low : at w (length front + 1 + 1) ≡ length s % 256 =
        ap (at w) (omega arith) ∙ at-append front tail 2 in
      let word : be16 w (length front + 1) ≡ length s = omega (arith, high, low, h) in
      read-two w (length front) size tag
      ∙ (ap (hessian_bytes w (length front + 3)) word
          ∙ hessian_bytes-header front (0x31 ∷ put_be16 (length s)) s rest (length s) refl)

  read-four-encode :
      length s < 2 ^ 32
      → read_hessian2_string (front ++ (0x32 ∷ (put_be32 (length s) ++ (s ++ rest)))) (length front)
        ≡ (s, some (length front + 5 + length s))
  read-four-encode h =
      let n = length s in
      let tail = 0x32 ∷ (put_be32 n ++ (s ++ rest)) in
      let w = front ++ tail in
      let size : length front + 5 ≤ length w = omega (arith, length-append front tail) in
      let tag : at w (length front) ≡ 0x32 = ap (at w) (omega arith) ∙ at-append front tail 0 in
      let b1 = at-append front tail 1 in
      let b2 : at w (length front + 1 + 1) ≡ n / 2 ^ 16 % 256 =
        ap (at w) (omega arith) ∙ at-append front tail 2 in
      let b3 : at w (length front + 1 + 2) ≡ n / 256 % 256 =
        ap (at w) (omega arith) ∙ at-append front tail 3 in
      let b4 : at w (length front + 1 + 2 + 1) ≡ n % 256 =
        ap (at w) (omega arith) ∙ at-append front tail 4 in
      let word : be32 w (length front + 1) ≡ n = omega (arith, b1, b2, b3, b4, h) in
      read-four w (length front) size tag
      ∙ (ap (hessian_bytes w (length front + 5)) word
          ∙ hessian_bytes-header front (0x32 ∷ put_be32 n) s rest n refl)

-- A string of fewer than 2^32 bytes, written behind a prefix in the shortest form that the code
-- reads, is read back from there, with the position behind it.
pub read_hessian2_string-encode :
    (front s rest : Bytes)
    → length s < 2 ^ 32
    → read_hessian2_string (front ++ (encode_hessian2 s ++ rest)) (length front)
      ≡ (s, some (length front + hessian2_header (length s) + length s))
unfolding encode_hessian2 hessian2_header
read_hessian2_string-encode front s rest h = elim (Bool-cases (ltb (length s) 32)) [
  | inl e ↦ rw e (read-tiny-encode front s rest (ltb→lt (length s) 32 e))
  | inr e ↦ elim (Bool-cases (ltb (length s) 256)) [
    | inl e' ↦ rw (e, e') (read-one-encode front s rest)
    | inr e' ↦ elim (Bool-cases (ltb (length s) (2 ^ 16))) [
      | inl e'' ↦ rw (e, e', e'') (read-two-encode front s rest (ltb→lt (length s) (2 ^ 16) e''))
      | inr e'' ↦ rw (e, e', e'') (read-four-encode front s rest h)
    ]
  ]
]
