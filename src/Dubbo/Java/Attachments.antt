-- ===== src/Dubbo/Java/Attachments.antt =====
-- dubboport/java_deserializer.go: the entries of a HashMap (`ParseJavaSerializedAttachments`).
use tcp_port.Dubbo.Java.State.{◌>>=◌, ◌>>◌}
use tcp_port.Base.{
  Bool, List, Option, [], equal, if◌then◌else◌, leb, length, ltb, none, not, some, suc, zero, ℕ,
  ◌&&◌, ◌++◌, ◌+◌, ◌-◌, ◌==◌, ◌||◌, ◌∷◌,
}
use tcp_port.Base.Outcome.{errorf}
use tcp_port.Base.Slice.{Bytes, at, be16, cut}
use tcp_port.Base.Text.{codes, dec}
use tcp_port.Dubbo.Java.Args.{attempt, fields_at, find_from, new_deser, not_empty}
use tcp_port.Dubbo.Java.Blocks.{is_primitive_type_code, read_field_value, skip_object_annotation}
use tcp_port.Dubbo.Java.Class.{has_write_method, read_class_desc}
use tcp_port.Dubbo.Java.Content.{annotation_of, class_at, is_block_data, read_content, read_object}
use tcp_port.Dubbo.Java.State.{
  Deser, FieldInfo, Fields, Parse, Step, Value, advance, get_state, object, out_of_rounds, parsed,
  peek, pure, refused, tc_class_desc, tc_long_string, tc_null, tc_object, tc_reference, tc_string,
  text, wrap_error,
}
use tcp_port.Dubbo.Java.Strings.{
  read_java_string, read_long_string, read_object_string, read_reference,
}

unfoldable pub skip_fields : Bytes → Step Value → List FieldInfo → Step (Unit {0})
skip_fields bytes content [] = pure tt
skip_fields bytes content (f ∷ fs) =
    (if is_primitive_type_code f.type_code
      then read_field_value bytes content f.type_code
      else content)
    >>= λ _. skip_fields bytes content fs

-- `skipClassData`, given the call for the super class.
unfoldable pub skip_data_round :
    Bytes → Step Value → (Option ℕ → Step (Unit {0})) → ℕ → Step (Unit {0})
skip_data_round bytes content next a = get_state >>= λ d.
    let c = class_at d.classes a in
    if has_write_method c.flags && is_block_data bytes d.pos
    then (skip_object_annotation bytes >> next c.super)
    else (skip_fields bytes content c.fields >> (annotation_of bytes c >> next c.super))

unfoldable pub skip_class_data : Bytes → Step Value → ℕ → Option ℕ → Step (Unit {0})
skip_class_data bytes content n none = pure tt
skip_class_data bytes content zero (some a) = out_of_rounds
skip_class_data bytes content (suc n) (some a) =
    skip_data_round bytes content (skip_class_data bytes content n) a

-- `skipClassDescWithData`
unfoldable pub skip_class_desc_with_data : Bytes → Step Value → ℕ → Step (Unit {0})
skip_class_desc_with_data bytes content n =
    wrap_error (codes "classdesc") (read_class_desc bytes) >>= skip_class_data bytes content n

-- A descriptor of the class with this name stands at position `i`.
unfoldable pub is_class_desc_at : Bytes → Bytes → ℕ → Bool
is_class_desc_at name bytes i =
    leb (i + 3 + length name) (length bytes)
    && at bytes i == tc_class_desc
    && be16 bytes (i + 1) == length name
    && equal (cut bytes (i + 3) (i + 3 + length name)) name

-- `findClassDesc`; -1 is `none`.
unfoldable pub find_class_desc : Bytes → ℕ → Bytes → Option ℕ
find_class_desc bytes i name = find_from (is_class_desc_at name bytes) (length bytes - i) i

-- `m[k] = v`
unfoldable pub put_entry : Bytes → Bytes → List (Bytes × Bytes) → List (Bytes × Bytes)
put_entry k v [] = (k, v) ∷ []
put_entry k v ((j, w) ∷ es) = if equal j k then (j, v) ∷ es else (j, w) ∷ put_entry k v es

unfoldable pub find_field_value : Bytes → Fields → Option Value
find_field_value k [] = none
find_field_value k ((j, v) ∷ fs) = if equal j k then some v else find_field_value k fs

-- `show` is the verb %v of package fmt, on a value and what its places hold.
module _ (show : Deser → Value → Bytes) where
  abbrev show_value : Value → Step Bytes
  show_value (text s) d = parsed s d
  show_value v d = parsed (show d v) d

  -- The field `value` of a boxed primitive, or the whole object.
  abbrev show_boxed : Value → Option Value → Step Bytes
  show_boxed v (some w) d = parsed (show d w) d
  show_boxed v none d = parsed (show d v) d

  abbrev show_object : Value → Step Bytes
  show_object (object o) d =
      show_boxed (object o) (find_field_value (codes "value") (fields_at d.objects o)) d
  show_object v d = parsed (show d v) d

  -- `readEntryValue`
  unfoldable pub read_entry_value : Bytes → Step Value → ℕ → Step Bytes
  read_entry_value bytes content n = peek bytes (codes "eof reading entry value") >>= λ tc.
      if tc == tc_string
      then read_java_string bytes
      else if tc == tc_long_string
      then read_long_string bytes
      else if tc == tc_reference
      then (read_reference bytes >>= show_value)
      else if tc == tc_null
      then (advance 1 >> pure [])
      else if tc == tc_object
      then (read_object bytes content n >>= show_object)
      else (content >>= λ _. pure (codes "<non-string>"))

  -- What a round does with the value of a key.
  abbrev pub after_entry :
      (List (Bytes × Bytes) → Step (List (Bytes × Bytes)))
      → List (Bytes × Bytes)
      → Bytes
      → Option Bytes
      → Step (List (Bytes × Bytes))
  after_entry next result k none = pure (put_entry k (codes "<parse-error>") result)
  after_entry next result k (some v) = next (put_entry k v result)

  -- What a round does behind the key.
  unfoldable pub after_key :
      Bytes
      → Step Value
      → ℕ
      → (List (Bytes × Bytes) → Step (List (Bytes × Bytes)))
      → List (Bytes × Bytes)
      → Option Bytes
      → Step (List (Bytes × Bytes))
  after_key bytes content n next result none = pure result
  after_key bytes content n next result (some k) = get_state >>= λ d.
      if leb (length bytes) d.pos
      then pure result
      else (attempt (read_entry_value bytes content n) >>= after_entry next result k)

  -- The loop of `ParseJavaSerializedAttachments`.
  unfoldable pub entries_loop :
      Bytes → Step Value → ℕ → ℕ → List (Bytes × Bytes) → Step (List (Bytes × Bytes))
  entries_loop bytes content n zero result = out_of_rounds
  entries_loop bytes content n (suc k) result = get_state >>= λ d.
      if leb (length bytes) d.pos
      then pure result
      else (attempt (read_object_string bytes)
          >>= after_key bytes content n (entries_loop bytes content n k) result)

  -- The reading of a HashMap, from its tag on.
  unfoldable pub read_hash_map : ℕ → Bytes → Step (List (Bytes × Bytes))
  read_hash_map n body =
      advance 1
      >> wrap_error (codes "skipping HashMap")
          (skip_class_desc_with_data body (read_content body n) n)
      >> entries_loop body (read_content body n) n (suc (length body)) []
      >>= not_empty (codes "no HashMap entries parsed")

  -- `ParseJavaSerializedAttachments`
  unfoldable pub parse_java_serialized_attachments : ℕ → Bytes → ℕ → Parse (List (Bytes × Bytes))
  parse_java_serialized_attachments n body start =
      elim (find_class_desc body start (codes "java.util.HashMap")) [
        | none ↦ refused (errorf (codes "java.util.HashMap classdesc not found")) (new_deser 0)
        | some i ↦
            if ltb i 1 || not (at body (i - 1) == tc_object)
            then refused (errorf (codes "expected TC_OBJECT before HashMap classdesc at " ++ dec i))
                (new_deser 0)
            else read_hash_map n body (new_deser (i - 1))
      ]
