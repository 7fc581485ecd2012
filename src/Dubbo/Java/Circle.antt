-- ===== src/Dubbo/Java/Circle.antt =====
-- Class descriptors of Java read back by `readClassDesc` (dubboport/java_deserializer.go), and one
-- whose super class is itself.
use tcp_port.Base.{
  List, [], arith, false, get_elem?, get_or, length, none, refl, some, suc, zero, ℕ, ◌%◌, ◌++◌, ◌+◌,
  ◌<◌, ◌^◌, ◌∙◌, ◌∷◌, ◌≡◌,
}
use tcp_port.Base.Slice.{Bytes, be32, put_be32, put_be32-be32}
use tcp_port.Dubbo.Java.Class.{
  class_desc_round, class_of, class_reference, has_write_method, read_class_descs,
}
use tcp_port.Dubbo.Java.Classes.{class_of_encoding}
use tcp_port.Dubbo.Java.Content.{
  annotation_of, class_at, class_data_round, read_class_data, read_fields,
}
use tcp_port.Dubbo.Java.Left.{Left, Left-moved, peek-Left, read_bytes-Left, step-parsed}
use tcp_port.Dubbo.Java.State.{
  Deser, Step, Value, class_desc, exhausted, parsed, peek, read_bytes, tc_null, tc_reference,
}
use tcp_port.Dubbo.Java.Strings.{lookup_handle}
use tcp_port.Base.{All, drop, sym, ◌≤◌}
use tcp_port.Base.Slice.{put_be16}
use tcp_port.Dubbo.Java.Class.{read_class_desc}
use tcp_port.Dubbo.Java.Classes.{
  class_size, encode_body, encode_class, read_class_desc-encode_class, with_class,
}
use tcp_port.Dubbo.Java.Content.{content_round, new_object, read_content, read_object}
use tcp_port.Dubbo.Java.Encode.{IsPrimitiveField, encode_fields, size_of_fields}
use tcp_port.Dubbo.Java.Left.{Left-inside}
use tcp_port.Dubbo.Java.State.{tc_class_desc, tc_object}
use tcp_port.Base.{ap}
use tcp_port.Base.Text.{codes}
use tcp_port.Dubbo.Java.Left.{expect-Left, step-exhausted, wrap-parsed}
use tcp_port.Dubbo.Java.State.{expect, object, wrap_error, wrap_result}

get_elem?-append :
    {A : Type 0} (xs : List A) (x : A) → get_elem? (xs ++ (x ∷ [])) (length xs) ≡ some x
get_elem?-append [] x = refl
get_elem?-append (y ∷ xs) x = get_elem?-append xs x

get_or-append_last :
    {A : Type 0} (xs : List A) (x d : A) → get_or (xs ++ (x ∷ [])) (length xs) d ≡ x
get_or-append_last [] x d = refl
get_or-append_last (y ∷ xs) x d = get_or-append_last xs x d

module _ (bytes : Bytes) where
  read_class_descs-null :
      (m : ℕ) (rest : Bytes) (s : Deser)
      → 0 < m
      → Left bytes s.pos (tc_null ∷ rest)
      → read_class_descs bytes m s ≡ parsed none (record s { pos = s.pos + 1 })
  unfolding read_class_descs class_desc_round
  read_class_descs-null zero rest s h k = absurd (omega (arith, h))
  read_class_descs-null (suc m) rest s h k =
      step-parsed (peek bytes _) _ s s tc_null (peek-Left bytes tc_null _ _ s k)

  read_class_descs-reference :
      (m h a : ℕ) (rest : Bytes) (s : Deser)
      → 0 < m
      → h < 2 ^ 32
      → get_elem? s.handles h ≡ some (class_desc a)
      → Left bytes s.pos (tc_reference ∷ (put_be32 h ++ rest))
      → read_class_descs bytes m s ≡ parsed (some a) (record s { pos = s.pos + 1 + 4 })
  unfolding read_class_descs class_desc_round class_reference lookup_handle class_of
  read_class_descs-reference zero h a rest s more small k l = absurd (omega (arith, more))
  read_class_descs-reference (suc m) h a rest s more small k l =
      let s' = record s { pos = s.pos + 1 } in
      let s'' = record s { pos = s.pos + 1 + 4 } in
      let tag = Left-moved bytes s.pos 1 (tc_reference ∷ []) (put_be32 h ++ rest) l refl in
      let word : be32 (put_be32 h) 0 ≡ h = omega (arith, put_be32-be32 h [] small) in
      step-parsed (peek bytes _) _ s s tc_reference (peek-Left bytes tc_reference _ _ s l)
      ∙ (step-parsed (read_bytes bytes 4 _) _ s' s'' (put_be32 h)
            (read_bytes-Left bytes 4 (put_be32 h) rest _ s' tag refl)
          ∙ rw (word, lookup_handle, k) refl)

  -- A class chain that is a circle of one class without fields.
  read_class_data-circle :
      (content : Step Value) (o m a w : ℕ) (n : Bytes) (s : Deser)
      → w % 2 ≡ 0
      → class_at s.classes a ≡ class_of_encoding n w [] (some a)
      → read_class_data bytes content o m (some a) s ≡ exhausted
  unfolding read_class_data class_data_round read_fields annotation_of
  read_class_data-circle content o zero a w n s even h = refl
  read_class_data-circle content o (suc m) a w n s even h =
      let no_method : has_write_method w ≡ false = ground (arith, even) in
      rw (h, no_method) (read_class_data-circle content o m a w n s even h)

-- What is left behind a descriptor, at its super class.
fields-behind :
    (bytes : Bytes) (fs : List (ℕ × Bytes)) (rest : Bytes) (i : ℕ)
    → Left bytes i (encode_fields fs rest)
    → Left bytes (i + size_of_fields fs) rest
unfolding encode_fields size_of_fields
fields-behind bytes [] rest i h = let e : i + 0 ≡ i = omega arith in rw e h
fields-behind bytes ((c, n) ∷ fs) rest i h =
    let tag =
      Left-moved bytes i 1 (c ∷ []) (put_be16 (length n) ++ (n ++ encode_fields fs rest)) h refl in
    let word =
      Left-moved bytes (i + 1) 2 (put_be16 (length n)) (n ++ encode_fields fs rest) tag refl in
    let name = Left-moved bytes (i + 1 + 2) (length n) n (encode_fields fs rest) word refl in
    let e : i + (3 + length n + size_of_fields fs) ≡ i + 1 + 2 + length n + size_of_fields fs =
      omega arith in
    rw e (fields-behind bytes fs rest (i + 1 + 2 + length n) name)

class-behind :
    (bytes n uid : Bytes) (w : ℕ) (fs : List (ℕ × Bytes)) (rest : Bytes) (i : ℕ)
    → length uid ≡ 8
    → Left bytes i (encode_class n uid w fs rest)
    → Left bytes (i + class_size n fs) rest
class-behind bytes n uid w fs rest i long h =
    let body = encode_body w fs rest in
    let tag =
      Left-moved bytes i 1 (tc_class_desc ∷ []) (put_be16 (length n) ++ (n ++ (uid ++ body))) h
        refl in
    let word = Left-moved bytes (i + 1) 2 (put_be16 (length n)) (n ++ (uid ++ body)) tag refl in
    let name = Left-moved bytes (i + 1 + 2) (length n) n (uid ++ body) word refl in
    let version = Left-moved bytes (i + 1 + 2 + length n) 8 uid body name (sym long) in
    let flag =
      Left-moved bytes (i + 1 + 2 + length n + 8) 1 (w ∷ [])
        (put_be16 (length fs) ++ encode_fields fs rest) version refl in
    let count =
      Left-moved bytes (i + 1 + 2 + length n + 8 + 1) 2 (put_be16 (length fs))
        (encode_fields fs rest) flag refl in
    let e : i + class_size n fs ≡ i + 1 + 2 + length n + 8 + 1 + 2 + size_of_fields fs =
      omega arith in
    rw e (fields-behind bytes fs rest (i + 1 + 2 + length n + 8 + 1 + 2) count)

-- A class descriptor without block data, with fields of primitive types and no super class is read
-- back as it was written, its position is behind it, and it gets the next handle. Its serial
-- version has eight bytes, its name, the fields' number and their names fit two bytes of length.
pub read_class_desc-encode :
    (bytes : Bytes) (w : ℕ) (n uid : Bytes) (fs : List (ℕ × Bytes)) (rest : Bytes) (s : Deser)
    → w % 2 ≡ 0
    → length uid ≡ 8
    → length n < 2 ^ 16
    → length fs < 2 ^ 16
    → All IsPrimitiveField fs
    → s.pos ≤ length bytes
    → drop s.pos bytes ≡ encode_class n uid w fs (tc_null ∷ rest)
    → read_class_desc bytes s
      ≡ parsed
          (some (length s.classes))
          (with_class s (s.pos + class_size n fs + 1) (class_of_encoding n w fs none))
read_class_desc-encode bytes w n uid fs rest s even long short few prims h k =
    let i = s.pos + class_size n fs in
    let s' = with_class s i (class_of_encoding n w fs none) in
    read_class_desc-encode_class bytes w n uid fs (tc_null ∷ rest) s (i + 1) none even long short
      few prims (h, k)
      (read_class_descs-null bytes (length bytes) rest s'
        (omega (arith, Left-inside bytes s.pos _ _ (h, k)))
        (class-behind bytes n uid w fs (tc_null ∷ rest) s.pos long (h, k)))

read_object-circle :
    (bytes : Bytes) (content : Step Value) (m a w : ℕ) (n : Bytes) (s s1 s2 : Deser)
    → w % 2 ≡ 0
    → expect bytes tc_object (codes "expected TC_OBJECT") s ≡ parsed tt s1
    → read_class_desc bytes s1 ≡ parsed (some a) s2
    → class_at s2.classes a ≡ class_of_encoding n w [] (some a)
    → read_object bytes content m s ≡ exhausted
unfolding read_object new_object
read_object-circle bytes content m a w n s s1 s2 even tag class_read circle =
    let o = length s2.objects in
    let s3 = record s2 {
      handles = s2.handles ++ (object o ∷ []);
      objects = s2.objects ++ ([] ∷ []);
    } in
    step-parsed (expect bytes tc_object (codes "expected TC_OBJECT")) _ s s1 tt tag
    ∙ (step-parsed (wrap_error _ (read_class_desc bytes)) _ s1 s2 (some a)
          (wrap-parsed _ (read_class_desc bytes) s1 s2 (some a) class_read)
        ∙ step-exhausted (wrap_error _ (read_class_data bytes content o m (some a))) _ s3
            (ap (wrap_result _) (read_class_data-circle bytes content o m a w n s3 even circle)))

-- An object of a class that refers to its own descriptor as its super class, without fields and
-- block data, is never read: its reading runs out of any number of rounds, which is a stack
-- overflow of the program.
pub read_content-circle :
    (bytes : Bytes) (w : ℕ) (n uid rest : Bytes) (s : Deser) (m : ℕ)
    → w % 2 ≡ 0
    → length uid ≡ 8
    → length n < 2 ^ 16
    → length s.handles < 2 ^ 32
    → s.pos ≤ length bytes
    → drop s.pos bytes
      ≡ tc_object ∷ encode_class n uid w [] (tc_reference ∷ (put_be32 (length s.handles) ++ rest))
    → read_content bytes m s ≡ exhausted
unfolding read_content content_round read_object new_object
read_content-circle bytes w n uid rest s zero even long short small h k = refl
read_content-circle bytes w n uid rest s (suc m) even long short small h k =
    let super = tc_reference ∷ (put_be32 (length s.handles) ++ rest) in
    let s1 = record s { pos = s.pos + 1 } in
    let i = s.pos + 1 + class_size n [] in
    let j = i + 1 + 4 in
    let a = length s.classes in
    let c = class_of_encoding n w [] (some a) in
    let s2 = with_class s1 i (class_of_encoding n w [] none) in
    let s3 = with_class s1 j c in
    let behind =
      Left-moved bytes s.pos 1 (tc_object ∷ []) (encode_class n uid w [] super) (h, k) refl in
    let class_read : read_class_desc bytes s1 ≡ parsed (some a) s3 =
      read_class_desc-encode_class bytes w n uid [] super s1 j (some a) even long short
        (omega arith) tt behind
        (read_class_descs-reference bytes (length bytes) (length s.handles) a rest s2
          (omega (arith, Left-inside bytes s.pos _ _ (h, k))) small
          (get_elem?-append s.handles (class_desc a))
          (class-behind bytes n uid w [] super (s.pos + 1) long behind)) in
    step-parsed (peek bytes _) _ s s tc_object (peek-Left bytes tc_object _ _ s (h, k))
    ∙ read_object-circle bytes (read_content bytes m) m a w n s s1 s3 even
        (expect-Left bytes tc_object _ _ s (h, k)) class_read
        (get_or-append_last s.classes c
          (record { class_name = []; flags = 0; fields = []; super = none }))
