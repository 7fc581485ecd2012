-- ===== src/Dubbo/Java/Classes.antt =====
-- `readClassDesc` (dubboport/java_deserializer.go) on the class descriptors that Java writes.
use tcp_port.Base.{
  All, List, Option, [], ap, arith, length, map, none, refl, ℕ, ◌++◌, ◌+◌, ◌<◌, ◌^◌, ◌∙◌, ◌∷◌, ◌≡◌,
}
use tcp_port.Base.Slice.{Bytes, be16, put_be16}
use tcp_port.Dubbo.Java.Class.{read_class_body, read_class_end, read_field_infos, set_class}
use tcp_port.Dubbo.Java.Encode.{
  IsPrimitiveField, encode_fields, primitive_field, read_field_infos-encode, size_of_fields,
}
use tcp_port.Dubbo.Java.Left.{Left, Left-moved, read_bytes-Left, step-parsed}
use tcp_port.Dubbo.Java.State.{
  ClassInfo, Deser, Step, class_desc, modify_at, read_bytes, tc_class_desc,
}
use tcp_port.Base.{false, some, subst, sym, ◌%◌, ◌&&◌}
use tcp_port.Dubbo.Java.Class.{
  class_desc_round, has_write_method, is_serializable, new_class, read_class_annotation,
  read_class_desc, read_class_descs, read_new_class,
}
use tcp_port.Dubbo.Java.Left.{peek-Left, read_utf-Left, wrap-parsed}
use tcp_port.Dubbo.Java.State.{parsed, peek, wrap_error}
use tcp_port.Dubbo.Java.Strings.{read_utf}

modify_at-append :
    {A : Type 0} (xs : List A) (x : A) (f : A → A)
    → modify_at (length xs) f (xs ++ (x ∷ [])) ≡ xs ++ (f x ∷ [])
modify_at-append [] x f = refl
modify_at-append (y ∷ xs) x f = ap (◌∷◌ y) (modify_at-append xs x f)

-- A descriptor up to its super class; `uid` is the serial version.
abbrev pub encode_body : ℕ → List (ℕ × Bytes) → Bytes → Bytes
encode_body w fs rest = w ∷ (put_be16 (length fs) ++ encode_fields fs rest)

abbrev pub encode_class : Bytes → Bytes → ℕ → List (ℕ × Bytes) → Bytes → Bytes
encode_class n uid w fs rest =
    tc_class_desc ∷ (put_be16 (length n) ++ (n ++ (uid ++ encode_body w fs rest)))

abbrev pub class_of_encoding : Bytes → ℕ → List (ℕ × Bytes) → Option ℕ → ClassInfo
class_of_encoding n w fs p = record {
  class_name = n;
  flags = w;
  fields = map primitive_field fs;
  super = p;
}

-- The state with a class more, at a position.
abbrev pub with_class : Deser → ℕ → ClassInfo → Deser
with_class s i c = record s {
  pos = i;
  handles = s.handles ++ (class_desc (length s.classes) ∷ []);
  classes = s.classes ++ (c ∷ []);
}

-- The number of bytes up to the super class.
abbrev pub class_size : Bytes → List (ℕ × Bytes) → ℕ
class_size n fs = 1 + (2 + length n) + 8 + 1 + 2 + size_of_fields fs

module _ (bytes : Bytes) where
  read_class_body-encode :
      (read_super : Step (Option ℕ)) (w : ℕ) (n : Bytes) (fs : List (ℕ × Bytes)) (rest : Bytes)
      (s : Deser) (i : ℕ)
      → length fs < 2 ^ 16
      → All IsPrimitiveField fs
      → Left bytes i (encode_body w fs rest)
      → read_class_body bytes read_super
          (length s.classes)
          (with_class s i (class_of_encoding n 0 [] none))
        ≡ read_class_end bytes read_super
            (length s.classes)
            w
            (with_class s (i + 1 + 2 + size_of_fields fs) (class_of_encoding n w fs none))
  unfolding read_class_body set_class
  read_class_body-encode read_super w n fs rest s i few prims h =
      let a = length s.classes in
      let count : be16 (put_be16 (length fs)) 0 ≡ length fs = omega (arith, few) in
      let c0 = class_of_encoding n 0 [] none in
      let c1 = class_of_encoding n w [] none in
      let s0 = with_class s i c0 in
      let s1 = with_class s (i + 1) c0 in
      let s2 = with_class s (i + 1) c1 in
      let s3 = with_class s (i + 1 + 2) c1 in
      let s4 = with_class s (i + 1 + 2 + size_of_fields fs) c1 in
      let tag =
        Left-moved bytes i 1 (w ∷ []) (put_be16 (length fs) ++ encode_fields fs rest) h refl in
      let word =
        Left-moved bytes (i + 1) 2 (put_be16 (length fs)) (encode_fields fs rest) tag refl in
      step-parsed (read_bytes bytes 1 _) _ s0 s1 (w ∷ [])
        (read_bytes-Left bytes 1 (w ∷ []) _ _ s0 h refl)
      ∙ (rw (modify_at-append s.classes c0 (λ c. record c { flags = w })) (
          step-parsed (read_bytes bytes 2 _) _ s2 s3 (put_be16 (length fs))
            (read_bytes-Left bytes 2 (put_be16 (length fs)) _ _ s2 tag refl)
          ∙ rw count (
              step-parsed (read_field_infos bytes 0 (length fs)) _ s3 s4 (map primitive_field fs)
                (read_field_infos-encode bytes 0 fs rest s3 prims word)
              ∙ rw
                  (modify_at-append s.classes c1
                    (λ c. record c { fields = map primitive_field fs }))
                  refl)))

  read_new_class-encode :
      (read_super : Step (Option ℕ)) (w : ℕ) (n uid : Bytes) (fs : List (ℕ × Bytes)) (rest : Bytes)
      (s : Deser)
      → length uid ≡ 8
      → length n < 2 ^ 16
      → length fs < 2 ^ 16
      → All IsPrimitiveField fs
      → Left bytes s.pos (encode_class n uid w fs rest)
      → read_new_class bytes read_super s
        ≡ read_class_end bytes read_super (length s.classes) w (
            with_class s
              (s.pos + 1 + 2 + length n + 8 + 1 + 2 + size_of_fields fs)
              (class_of_encoding n w fs none))
  unfolding read_new_class new_class
  read_new_class-encode read_super w n uid fs rest s long short few prims h =
      let s1 = record s { pos = s.pos + 1 } in
      let s2 = record s { pos = s.pos + 1 + 2 + length n } in
      let s3 = record s { pos = s.pos + 1 + 2 + length n + 8 } in
      let body = encode_body w fs rest in
      let tag =
        Left-moved bytes s.pos 1 (tc_class_desc ∷ []) (put_be16 (length n) ++ (n ++ (uid ++ body)))
          h refl in
      let word =
        Left-moved bytes (s.pos + 1) 2 (put_be16 (length n)) (n ++ (uid ++ body)) tag refl in
      let name = Left-moved bytes (s.pos + 1 + 2) (length n) n (uid ++ body) word refl in
      let behind = Left-moved bytes (s.pos + 1 + 2 + length n) 8 uid body name (sym long) in
      step-parsed (wrap_error _ (read_utf bytes)) _ s1 s2 n
        (wrap-parsed _ (read_utf bytes) s1 s2 n (read_utf-Left bytes n (uid ++ body) s1 short tag))
      ∙ (step-parsed (read_bytes bytes 8 _) _ s2 s3 uid
            (read_bytes-Left bytes 8 uid body _ s2 name (sym long))
          ∙ read_class_body-encode read_super w n fs rest s (s.pos + 1 + 2 + length n + 8) few prims
              behind)

  -- The end of a descriptor that has no annotation.
  read_class_end-super :
      (read_super : Step (Option ℕ)) (w : ℕ) (n : Bytes) (fs : List (ℕ × Bytes)) (s : Deser)
      (i j : ℕ) (p : Option ℕ)
      → w % 2 ≡ 0
      → read_super (with_class s i (class_of_encoding n w fs none))
        ≡ parsed p (with_class s j (class_of_encoding n w fs none))
      → read_class_end bytes read_super
          (length s.classes)
          w
          (with_class s i (class_of_encoding n w fs none))
        ≡ parsed (some (length s.classes)) (with_class s j (class_of_encoding n w fs p))
  unfolding read_class_end read_class_annotation set_class
  read_class_end-super read_super w n fs s i j p even h =
      let c = class_of_encoding n w fs none in
      let no_annotation : (is_serializable w && has_write_method w) ≡ false =
        ground (arith, even) in
      rw no_annotation (
        step-parsed (wrap_error _ read_super) _ (with_class s i c) (with_class s j c) p
          (wrap-parsed _ read_super (with_class s i c) (with_class s j c) p h)
        ∙ rw (modify_at-append s.classes c (λ c. record c { super = p })) refl)

  pub read_class_desc-encode_class :
      (w : ℕ) (n uid : Bytes) (fs : List (ℕ × Bytes)) (rest : Bytes) (s : Deser) (j : ℕ)
      (p : Option ℕ)
      → w % 2 ≡ 0
      → length uid ≡ 8
      → length n < 2 ^ 16
      → length fs < 2 ^ 16
      → All IsPrimitiveField fs
      → Left bytes s.pos (encode_class n uid w fs rest)
      → read_class_descs bytes
          (length bytes)
          (with_class s (s.pos + class_size n fs) (class_of_encoding n w fs none))
        ≡ parsed p (with_class s j (class_of_encoding n w fs none))
      → read_class_desc bytes s
        ≡ parsed (some (length s.classes)) (with_class s j (class_of_encoding n w fs p))
  unfolding read_class_desc read_class_descs class_desc_round
  read_class_desc-encode_class w n uid fs rest s j p even long short few prims h k =
      let e : s.pos + class_size n fs ≡ s.pos + 1 + 2 + length n + 8 + 1 + 2 + size_of_fields fs =
        omega arith in
      step-parsed (peek bytes _) _ s s tc_class_desc (peek-Left bytes tc_class_desc _ _ s h)
      ∙ (read_new_class-encode (read_class_descs bytes (length bytes)) w n uid fs rest s long short
            few prims h
          ∙ read_class_end-super (read_class_descs bytes (length bytes)) w n fs s _ j p even (
              subst
                (λ i.
                  read_class_descs bytes (length bytes)
                    (with_class s i (class_of_encoding n w fs none))
                  ≡ parsed p (with_class s j (class_of_encoding n w fs none)))
                e k))
