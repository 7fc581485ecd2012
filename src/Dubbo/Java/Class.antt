-- ===== src/Dubbo/Java/Class.antt =====
-- dubboport/java_deserializer.go: class descriptors (`readClassDesc`).
use tcp_port.Dubbo.Java.State.{◌>>=◌, ◌>>◌}
use tcp_port.Base.{
  Bool, List, Option, [], if◌then◌else◌, length, none, some, suc, zero, ℕ, ◌%◌, ◌&&◌, ◌++◌, ◌/◌,
  ◌==◌, ◌||◌, ◌∷◌,
}
use tcp_port.Base.Slice.{Bytes, at, be16, be32}
use tcp_port.Base.Text.{codes, dec}
use tcp_port.Dubbo.Java.Blocks.{skip_object_annotation}
use tcp_port.Dubbo.Java.State.{
  ClassInfo, FieldInfo, Step, Value, advance, class_desc, modify_at, out_of_rounds, parsed, peek,
  pure, read_bytes, tc_class_desc, tc_null, tc_reference, throw, wrap_error,
}
use tcp_port.Dubbo.Java.Strings.{lookup_handle, read_object_string, read_utf, wrong_tag}

-- A new descriptor with a handle.
unfoldable pub new_class : Bytes → Step ℕ
new_class n s = parsed (length s.classes) (record s {
  handles = s.handles ++ (class_desc (length s.classes) ∷ []);
  classes = s.classes ++ (record { class_name = n; flags = 0; fields = []; super = none } ∷ []);
})

unfoldable pub set_class : ℕ → (ClassInfo → ClassInfo) → Step (Unit {0})
set_class a f s = parsed tt (record s { classes = modify_at a f s.classes })

-- `flags & _scWriteMethod != 0`, `flags & _scSerializable != 0`
abbrev pub has_write_method : ℕ → Bool
has_write_method w = w % 2 == 1

abbrev pub is_serializable : ℕ → Bool
is_serializable w = w / 2 % 2 == 1

-- The descriptor that a handle names.
unfoldable pub class_of : ℕ → Value → Step (Option ℕ)
class_of h (class_desc a) = pure (some a)
class_of h _ = throw (codes "handle " ++ (dec h ++ codes " is not a classdesc"))

unfoldable pub class_reference : Bytes → Step (Option ℕ)
class_reference bytes =
    advance 1 >> read_bytes bytes 4 (codes "unexpected end reading classdesc ref handle") >>= λ w.
    lookup_handle (codes "invalid classdesc handle: ") (be32 w 0) >>= class_of (be32 w 0)

-- The field number `i`.
unfoldable pub read_field_info : Bytes → ℕ → Step FieldInfo
read_field_info bytes i =
    let field = codes "field " ++ dec i in
    read_bytes bytes 1 (codes "unexpected end reading " ++ (field ++ codes " type code")) >>= λ c.
    wrap_error (field ++ codes " name") (read_utf bytes) >>= λ n.
    (if at c 0 == b'[' || at c 0 == b'L'
      then wrap_error (field ++ codes " classname") (read_object_string bytes)
      else pure [])
    >>= λ cn. pure (record { type_code = at c 0; name = n; class_name1 = cn })

unfoldable pub read_field_infos : Bytes → ℕ → ℕ → Step (List FieldInfo)
read_field_infos bytes i zero = pure []
read_field_infos bytes i (suc n) =
    read_field_info bytes i >>= λ f. read_field_infos bytes (suc i) n >>= λ fs. pure (f ∷ fs)

-- The annotation of a class, if its flags say that there is one.
unfoldable pub read_class_annotation : Bytes → ℕ → Step (Unit {0})
read_class_annotation bytes w =
    if is_serializable w && has_write_method w
    then wrap_error (codes "class annotation") (skip_object_annotation bytes)
    else pure tt

-- What stands behind the fields: the annotation, if there is one, and the super class.
unfoldable pub read_class_end : Bytes → Step (Option ℕ) → ℕ → ℕ → Step (Option ℕ)
read_class_end bytes read_super a w =
    read_class_annotation bytes w >> wrap_error (codes "super classdesc") read_super >>= λ p.
    set_class a (λ c. record c { super = p }) >> pure (some a)

-- What stands behind the handle of the new descriptor `a`. The fields are set when all are read,
-- since nothing looks at them before.
unfoldable pub read_class_body : Bytes → Step (Option ℕ) → ℕ → Step (Option ℕ)
read_class_body bytes read_super a =
    read_bytes bytes 1 (codes "unexpected end reading classDescFlags") >>= λ w.
    set_class a (λ c. record c { flags = at w 0 })
    >> read_bytes bytes 2 (codes "unexpected end reading field count")
    >>= λ k. read_field_infos bytes 0 (be16 k 0) >>= λ fs.
        set_class a (λ c. record c { fields = fs }) >> read_class_end bytes read_super a (at w 0)

-- What stands behind the tag of a new descriptor.
unfoldable pub read_new_class : Bytes → Step (Option ℕ) → Step (Option ℕ)
read_new_class bytes read_super =
    advance 1 >> wrap_error (codes "classdesc name") (read_utf bytes) >>= λ n.
    read_bytes bytes 8 (codes "unexpected end reading serialVersionUID") >>= λ _.
    new_class n >>= read_class_body bytes read_super

-- `readClassDesc`, given the call for the super class.
unfoldable pub class_desc_round : Bytes → Step (Option ℕ) → Step (Option ℕ)
class_desc_round bytes read_super = peek bytes (codes "unexpected end reading classdesc") >>= λ tc.
    if tc == tc_null
    then (advance 1 >> pure none)
    else if tc == tc_reference
    then class_reference bytes
    else if tc == tc_class_desc
    then read_new_class bytes read_super
    else wrong_tag (codes "expected classdesc tag, got 0x") tc

unfoldable pub read_class_descs : Bytes → ℕ → Step (Option ℕ)
read_class_descs bytes zero = out_of_rounds
read_class_descs bytes (suc n) = class_desc_round bytes (read_class_descs bytes n)

-- `readClassDesc`: each call for a super class stands behind at least one more byte.
unfoldable pub read_class_desc : Bytes → Step (Option ℕ)
read_class_desc bytes = read_class_descs bytes (suc (length bytes))
