-- ===== src/Dubbo/Java/Encode.antt =====
-- Class descriptors on the wire, and what `readClassDesc` (dubboport/java_deserializer.go) makes
-- of them.
use tcp_port.Base.{
  All, List, [], arith, false, length, map, refl, ℕ, ◌++◌, ◌+◌, ◌<◌, ◌==◌, ◌^◌, ◌∙◌, ◌∷◌, ◌≡◌, ◌≢◌,
}
use tcp_port.Base.Slice.{Bytes, put_be16}
use tcp_port.Dubbo.Java.Class.{read_field_info, read_field_infos}
use tcp_port.Dubbo.Java.Left.{
  Left, Left-moved, read_bytes-Left, read_utf-Left, step-parsed, wrap-parsed,
}
use tcp_port.Dubbo.Java.State.{Deser, FieldInfo, parsed, read_bytes, wrap_error}
use tcp_port.Dubbo.Java.Strings.{read_utf}
use tcp_port.Base.{suc}

-- A text with its length in front.
abbrev pub encode_utf : Bytes → Bytes
encode_utf xs = put_be16 (length xs) ++ xs

-- A field of a primitive type.
abbrev pub primitive_field : ℕ × Bytes → FieldInfo
primitive_field (c, n) = record { type_code = c; name = n; class_name1 = [] }

unfoldable pub encode_fields : List (ℕ × Bytes) → Bytes → Bytes
encode_fields [] rest = rest
encode_fields ((c, n) ∷ fs) rest = c ∷ (put_be16 (length n) ++ (n ++ encode_fields fs rest))

-- The fields of an encoding: not arrays or objects, and with short names.
unfoldable pub IsPrimitiveField : ℕ × Bytes → Type 0
IsPrimitiveField (c, n) = (c ≢ b'[') × (c ≢ b'L') × (length n < 2 ^ 16)

unfoldable pub size_of_fields : List (ℕ × Bytes) → ℕ
size_of_fields [] = 0
size_of_fields ((c, n) ∷ fs) = 3 + length n + size_of_fields fs

module _ (bytes : Bytes) where
  read_field_info-encode :
      (i c : ℕ) (n rest : Bytes) (s : Deser)
      → IsPrimitiveField (c, n)
      → Left bytes s.pos (c ∷ (put_be16 (length n) ++ (n ++ rest)))
      → read_field_info bytes i s
        ≡ parsed (primitive_field (c, n)) (record s { pos = s.pos + 1 + 2 + length n })
  unfolding read_field_info IsPrimitiveField
  read_field_info-encode i c n rest s h k =
      let s' = record s { pos = s.pos + 1 } in
      let s'' = record s { pos = s.pos + 1 + 2 + length n } in
      let behind = Left-moved bytes s.pos 1 (c ∷ []) (put_be16 (length n) ++ (n ++ rest)) k refl in
      let not_array : (c == b'[') ≡ false = ground (arith, h.0) in
      let not_object : (c == b'L') ≡ false = ground (arith, h.1) in
      step-parsed (read_bytes bytes 1 _) _ s s' (c ∷ [])
        (read_bytes-Left bytes 1 (c ∷ []) _ _ s k refl)
      ∙ (step-parsed (wrap_error _ (read_utf bytes)) _ s' s'' n
            (wrap-parsed _ (read_utf bytes) s' s'' n (read_utf-Left bytes n rest s' h.2 behind))
          ∙ rw (not_array, not_object) refl)

  pub read_field_infos-encode :
      (i : ℕ) (fs : List (ℕ × Bytes)) (rest : Bytes) (s : Deser)
      → All IsPrimitiveField fs
      → Left bytes s.pos (encode_fields fs rest)
      → read_field_infos bytes i (length fs) s
        ≡ parsed (map primitive_field fs) (record s { pos = s.pos + size_of_fields fs })
  unfolding read_field_infos encode_fields size_of_fields
  read_field_infos-encode i [] rest s h k = let e : s.pos + 0 ≡ s.pos = omega arith in rw e refl
  read_field_infos-encode i ((c, n) ∷ fs) rest s h k =
      let s' = record s { pos = s.pos + 1 + 2 + length n } in
      let s'' = record s { pos = s.pos + 1 + 2 + length n + size_of_fields fs } in
      let size : s.pos + 1 + 2 + length n + size_of_fields fs
          ≡ s.pos + (3 + length n + size_of_fields fs) =
        omega arith in
      let tag =
        Left-moved bytes s.pos 1 (c ∷ []) (put_be16 (length n) ++ (n ++ encode_fields fs rest)) k
          refl in
      let word =
        Left-moved bytes (s.pos + 1) 2 (put_be16 (length n)) (n ++ encode_fields fs rest) tag
          refl in
      let name = Left-moved bytes (s.pos + 1 + 2) (length n) n (encode_fields fs rest) word refl in
      step-parsed (read_field_info bytes i) _ s s' (primitive_field (c, n))
        (read_field_info-encode i c n (encode_fields fs rest) s h.0 k)
      ∙ (step-parsed (read_field_infos bytes (suc i) (length fs)) _ s' s'' (map primitive_field fs)
            (read_field_infos-encode (suc i) fs rest s' h.1 name)
          ∙ rw size refl)
