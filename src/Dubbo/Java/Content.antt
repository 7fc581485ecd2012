-- ===== src/Dubbo/Java/Content.antt =====
-- dubboport/java_deserializer.go: objects, arrays, enums, classes (`readContent` and its callees).
use tcp_port.Dubbo.Java.State.{◌>>=◌, ◌>>◌}
use tcp_port.Base.{
  Bool, List, Option, [], equal, false, get_or, if◌then◌else◌, leb, length, ltb, none, some, suc,
  true, zero, ℕ, ◌&&◌, ◌++◌, ◌==◌, ◌||◌, ◌∷◌,
}
use tcp_port.Base.Slice.{Bytes, at, be32}
use tcp_port.Base.Text.{codes, dec, hex_byte}
use tcp_port.Dubbo.Java.Blocks.{
  is_primitive_type_code, read_field_value, read_raw_primitive, skip_block_data,
  skip_object_annotation,
}
use tcp_port.Dubbo.Java.Class.{has_write_method, read_class_desc}
use tcp_port.Dubbo.Java.State.{
  ClassInfo, FieldInfo, Fields, Step, Value, advance, array, expect, get_state, modify_at,
  new_handle, null, object, out_of_rounds, parsed, peek, pure, read_bytes, tc_array, tc_block_data,
  tc_block_data_long, tc_class, tc_enum, tc_exception, tc_long_string, tc_null, tc_object,
  tc_proxy_class_desc, tc_reference, tc_string, text, throw, wrap_error,
}
use tcp_port.Dubbo.Java.Strings.{
  read_java_string, read_long_string, read_object_string, read_reference,
}

abbrev pub class_at : List ClassInfo → ℕ → ClassInfo
class_at cs a = get_or cs a (record { class_name = []; flags = 0; fields = []; super = none })

abbrev pub has_key : Bytes → Fields → Bool
has_key k [] = false
has_key k ((j, v) ∷ fs) = if equal j k then true else has_key k fs

-- `if _, exists := m[k]; !exists { m[k] = v }`
unfoldable pub set_new : Bytes → Value → Fields → Fields
set_new k v fs = if has_key k fs then fs else fs ++ ((k, v) ∷ [])

unfoldable pub set_field : ℕ → Bytes → Value → Step (Unit {0})
set_field o k v s = parsed tt (record s { objects = modify_at o (set_new k v) s.objects })

-- A new map.
unfoldable pub new_object : Fields → Step ℕ
new_object fs s = parsed (length s.objects) (record s { objects = s.objects ++ (fs ∷ []) })

-- The test for block data in the place of fields.
abbrev pub is_block_data : Bytes → ℕ → Bool
is_block_data bytes i =
    ltb i (length bytes) && (at bytes i == tc_block_data || at bytes i == tc_block_data_long)

-- The values of the fields, in the order of their declaration.
unfoldable pub read_fields : Bytes → Step Value → ℕ → List FieldInfo → Step (Unit {0})
read_fields bytes content o [] = pure tt
read_fields bytes content o (f ∷ fs) =
    wrap_error (codes "field " ++ f.name) (read_field_value bytes content f.type_code) >>= λ v.
    set_field o f.name v >> read_fields bytes content o fs

-- The annotation behind the fields of a class with `writeObject`.
unfoldable pub annotation_of : Bytes → ClassInfo → Step (Unit {0})
annotation_of bytes c = if has_write_method c.flags then skip_object_annotation bytes else pure tt

-- `readClassData`, given the call for the super class.
unfoldable pub class_data_round :
    Bytes → Step Value → (Option ℕ → Step (Unit {0})) → ℕ → ℕ → Step (Unit {0})
class_data_round bytes content next a o = get_state >>= λ d.
    let c = class_at d.classes a in
    if has_write_method c.flags && is_block_data bytes d.pos
    then (skip_object_annotation bytes >> next c.super)
    else (read_fields bytes content o c.fields >> (annotation_of bytes c >> next c.super))

-- `readClassData`, in a number of rounds: a chain of super classes may be a circle.
unfoldable pub read_class_data : Bytes → Step Value → ℕ → ℕ → Option ℕ → Step (Unit {0})
read_class_data bytes content o n none = pure tt
read_class_data bytes content o zero (some a) = out_of_rounds
read_class_data bytes content o (suc n) (some a) =
    class_data_round bytes content (read_class_data bytes content o n) a o

-- `readObject`
unfoldable pub read_object : Bytes → Step Value → ℕ → Step Value
read_object bytes content n =
    expect bytes tc_object (codes "expected TC_OBJECT")
    >> wrap_error (codes "reading object classdesc") (read_class_desc bytes)
    >>= λ desc. new_object [] >>= λ o.
        new_handle (object o)
        >> wrap_error (codes "reading classdata") (read_class_data bytes content o n desc)
        >> pure (object o)

-- The type of an array's elements, from the name of its class.
unfoldable pub elem_type : Bytes → ℕ
elem_type n = if leb 2 (length n) && at n 0 == b'[' then at n 1 else b'L'

unfoldable pub read_elements : Bytes → Step Value → ℕ → ℕ → ℕ → Step (List Value)
read_elements bytes content t i zero = pure []
read_elements bytes content t i (suc n) =
    wrap_error (codes "array[" ++ (dec i ++ codes "]"))
      (if is_primitive_type_code t then read_raw_primitive bytes t else content)
    >>= λ v. read_elements bytes content t (suc i) n >>= λ vs. pure (v ∷ vs)

-- `d.handles[handle] = result` with the slice made.
unfoldable pub set_array : ℕ → List Value → Step Value
set_array h vs s = parsed (array (length s.arrays)) (record s {
  handles = modify_at h (λ _. array (length s.arrays)) s.handles;
  arrays = s.arrays ++ (vs ∷ []);
})

unfoldable pub class_or : Bytes → Option ℕ → Step ℕ
class_or t none = throw t
class_or t (some a) = pure a

-- `readArray`
unfoldable pub read_array : Bytes → Step Value → Step Value
read_array bytes content =
    expect bytes tc_array (codes "expected TC_ARRAY")
    >> wrap_error (codes "array classdesc") (read_class_desc bytes)
    >>= λ p. class_or (codes "null array classdesc") p >>= λ a.
        read_bytes bytes 4 (codes "unexpected end reading array size") >>= λ w. get_state >>= λ d.
        new_handle null
        >> read_elements bytes content (elem_type (class_at d.classes a).class_name) 0 (be32 w 0)
        >>= set_array (length d.handles)

-- `readEnum`
unfoldable pub read_enum : Bytes → Step Value
read_enum bytes =
    expect bytes tc_enum (codes "expected TC_ENUM")
    >> wrap_error (codes "enum classdesc") (read_class_desc bytes)
    >>= λ _. wrap_error (codes "enum name") (read_object_string bytes) >>= λ s.
        new_handle (text s) >> pure (text s)

abbrev name_of : List ClassInfo → Option ℕ → Bytes
name_of cs none = []
name_of cs (some a) = (class_at cs a).class_name

-- `readClass`
unfoldable pub read_class : Bytes → Step Value
read_class bytes =
    expect bytes tc_class (codes "expected TC_CLASS")
    >> wrap_error (codes "class literal") (read_class_desc bytes)
    >>= λ desc. get_state >>= λ d.
        new_handle (text (name_of d.classes desc))
        >> new_object ((codes "class", text (name_of d.classes desc)) ∷ [])
        >>= λ o. pure (object o)

unfoldable pub as_text : Step Bytes → Step Value
as_text m = m >>= λ s. pure (text s)

-- A tag that is refused at the position `i`.
unfoldable pub refuse_tag : ℕ → ℕ → Step Value
refuse_tag tc i =
    if tc == tc_exception
    then throw (codes "TC_EXCEPTION at pos " ++ (dec i ++ codes " not supported"))
    else if tc == tc_proxy_class_desc
    then throw (codes "TC_PROXYCLASSDESC at pos " ++ (dec i ++ codes " not supported"))
    else throw (codes "unknown type code 0x" ++ (hex_byte tc ++ (codes " at pos " ++ dec i)))

-- `readContent`, given the calls that it makes of itself, in a number of rounds.
unfoldable pub content_round : Bytes → Step Value → ℕ → Step Value
content_round bytes content n = get_state >>= λ d.
    peek bytes (codes "unexpected end of data at pos " ++ dec d.pos) >>= λ tc.
    if tc == tc_null
    then (advance 1 >> pure null)
    else if tc == tc_reference
    then read_reference bytes
    else if tc == tc_object
    then read_object bytes content n
    else if tc == tc_string
    then as_text (read_java_string bytes)
    else if tc == tc_long_string
    then as_text (read_long_string bytes)
    else if tc == tc_array
    then read_array bytes content
    else if tc == tc_enum
    then read_enum bytes
    else if tc == tc_class
    then read_class bytes
    else if tc == tc_block_data || tc == tc_block_data_long
    then skip_block_data bytes
    else refuse_tag tc d.pos

unfoldable pub read_content : Bytes → ℕ → Step Value
read_content bytes zero = out_of_rounds
read_content bytes (suc n) = content_round bytes (read_content bytes n) n
