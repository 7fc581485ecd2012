-- ===== src/Dubbo/Java/Faults.antt =====
-- Handles and long strings that dubboport/java_deserializer.go cannot read.
use tcp_port.Dubbo.Java.State.{◌>>◌}
use tcp_port.Base.{
  List, [], arith, drop, get_elem?, length, none, refl, suc, zero, ℕ, ◌++◌, ◌+◌, ◌<◌, ◌^◌, ◌↔◌, ◌∙◌,
  ◌∷◌, ◌≡◌, ◌≤◌,
}
use tcp_port.Base.Outcome.{errorf}
use tcp_port.Base.Slice.{Bytes, be32, put_be32, put_be32-be32, put_be64}
use tcp_port.Base.Text.{codes, dec}
use tcp_port.Dubbo.Java.Left.{Left-moved, expect-Left, read_bytes-Left, step-parsed}
use tcp_port.Dubbo.Java.State.{
  Deser, crashed, expect, read_bytes, refused, tc_long_string, tc_reference,
}
use tcp_port.Dubbo.Java.Strings.{lookup_handle, read_long_string, read_reference}
use tcp_port.Base.Slice.{be64}
use tcp_port.Dubbo.Java.State.{Parse, and_then, exhausted, new_handle, parsed, pure, text}
use tcp_port.Dubbo.Java.Strings.{read_long}
use tcp_port.Base.Slice.{put_be64-be64}

get_elem?-none : {A : Type 0} (xs : List A) (i : ℕ) → length xs ≤ i → get_elem? xs i ≡ none
get_elem?-none [] i h = refl
get_elem?-none (x ∷ xs) zero h = absurd (omega (arith, h))
get_elem?-none (x ∷ xs) (suc i) h = get_elem?-none xs i (omega (arith, h))

lookup_handle-none :
    (t : Bytes) (h : ℕ) (s : Deser)
    → length s.handles ≤ h
    → lookup_handle t h s
      ≡ refused
          (errorf (t ++ (dec h ++ (codes " (have " ++ (dec (length s.handles) ++ codes ")")))))
          s
unfolding lookup_handle
lookup_handle-none t h s few = rw (lookup_handle, get_elem?-none s.handles h few) refl

-- `baseWireHandle` of Java's protocol: the first handle of a stream.
abbrev pub base_wire_handle : ℕ
base_wire_handle = 0x7e0000

-- A reference as Java writes it, to handle number `h`, is refused as an invalid handle while there
-- are no more than 0x7e0000 handles: the base of the handles is not taken off.
pub read_reference-refused :
    (bytes : Bytes) (h : ℕ) (rest : Bytes) (s : Deser)
    → h < 2 ^ 24
    → length s.handles ≤ base_wire_handle
    → s.pos ≤ length bytes
    → drop s.pos bytes ≡ tc_reference ∷ (put_be32 (base_wire_handle + h) ++ rest)
    → read_reference bytes s
      ≡ refused
          (errorf (
            codes "invalid handle: "
            ++ (dec (base_wire_handle + h)
                ++ (codes " (have " ++ (dec (length s.handles) ++ codes ")")))))
          (record s { pos = s.pos + 1 + 4 })
unfolding read_reference lookup_handle
read_reference-refused bytes h rest s small few inside k =
    let n = base_wire_handle + h in
    let s' = record s { pos = s.pos + 1 } in
    let s'' = record s { pos = s.pos + 1 + 4 } in
    let tag = Left-moved bytes s.pos 1 (tc_reference ∷ []) (put_be32 n ++ rest) (inside, k) refl in
    let word : be32 (put_be32 n) 0 ≡ n = omega (arith, put_be32-be32 n [] (omega (arith, small))) in
    let few' : length s.handles ≤ n = omega (arith, few) in
    step-parsed (expect bytes tc_reference _) _ s s' tt
      (expect-Left bytes tc_reference _ _ s (inside, k))
    ∙ (step-parsed (read_bytes bytes 4 _) _ s' s'' (put_be32 n)
          (read_bytes-Left bytes 4 (put_be32 n) rest _ s' tag refl)
        ∙ rw word (lookup_handle-none (codes "invalid handle: ") n s'' few'))

read_long-crashed :
    (bytes : Bytes) (n : ℕ) (s : Deser)
    → (read_long bytes n s ≡ crashed) ↔ ((n < 2 ^ 63) × (2 ^ 63 ≤ s.pos + n))
unfolding read_long read_bytes
read_long-crashed bytes n s = ground arith

keep-crashed :
    (r : Parse Bytes) → (and_then r (λ s. new_handle (text s) >> pure s) ≡ crashed) ↔ (r ≡ crashed)
keep-crashed (parsed a s) = ground arith
keep-crashed (refused e s) = ground arith
keep-crashed crashed = ground arith
keep-crashed exhausted = ground arith

-- A long string panics exactly when its length is an int64 that is not negative, and the position
-- of its end is none: the sum of position and length is negative, and passes the test.
pub read_long_string-crashed :
    (bytes : Bytes) (n : ℕ) (rest : Bytes) (s : Deser)
    → n < 2 ^ 64
    → s.pos ≤ length bytes
    → drop s.pos bytes ≡ tc_long_string ∷ (put_be64 n ++ rest)
    → (read_long_string bytes s ≡ crashed) ↔ ((n < 2 ^ 63) × (2 ^ 63 ≤ s.pos + 1 + 8 + n))
unfolding read_long_string
read_long_string-crashed bytes n rest s small inside k =
    let s' = record s { pos = s.pos + 1 } in
    let s'' = record s { pos = s.pos + 1 + 8 } in
    let tag =
      Left-moved bytes s.pos 1 (tc_long_string ∷ []) (put_be64 n ++ rest) (inside, k) refl in
    let word : be64 (put_be64 n) 0 ≡ n = put_be64-be64 n [] small in
    let keep = λ (x : Bytes). new_handle (text x) >> pure x in
    let run : read_long_string bytes s ≡ and_then (read_long bytes n s'') keep =
      step-parsed (expect bytes tc_long_string _) _ s s' tt
        (expect-Left bytes tc_long_string _ _ s (inside, k))
      ∙ (step-parsed (read_bytes bytes 8 _) _ s' s'' (put_be64 n)
            (read_bytes-Left bytes 8 (put_be64 n) rest _ s' tag refl)
          ∙ rw word refl) in
    rw run (ground (arith, keep-crashed (read_long bytes n s''), read_long-crashed bytes n s''))
