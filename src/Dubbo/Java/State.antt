-- ===== src/Dubbo/Java/State.antt =====
-- dubboport/java_deserializer.go: the values that are read, the state of `javaDeserializer`, and a
-- monad for its methods. What Go shares by pointers (class descriptors, maps, slices) stands in
-- lists of the state, and a value names its place there.
use tcp_port.Base.{
  Bool, List, Option, [], if◌then◌else◌, leb, length, ltb, suc, zero, ℕ, ◌++◌, ◌+◌, ◌==◌, ◌∷◌,
}
use tcp_port.Base.Int.{ℤ}
use tcp_port.Base.Outcome.{Error, errorf, wrapped}
use tcp_port.Base.Slice.{Bytes, at, cut}
use tcp_port.Base.Text.{codes, dec}

-- What the reader returns as `interface{}`. A double or a float is given by its bits.
pub data Value : Type 0 where
  null : Value
  integer : ℤ → Value
  char : ℕ → Value
  double : ℕ → Value
  float : ℕ → Value
  boolean : Bool → Value
  text : Bytes → Value
  object : ℕ → Value
  array : ℕ → Value
  class_desc : ℕ → Value

-- `javaFieldInfo`
pub record FieldInfo : Type 0 where
  pub type_code : ℕ
  pub name : Bytes
  pub class_name1 : Bytes

-- `classDescInfo`; `super` is the place of the super class.
pub record ClassInfo : Type 0 where
  pub class_name : Bytes
  pub flags : ℕ
  pub fields : List FieldInfo
  pub super : Option ℕ

-- A map from field names to values, in the order of insertion.
abbrev pub Fields : Type 0
Fields = List (Bytes × Value)

-- `javaDeserializer` without its bytes, which never change, and the classes, maps and slices made.
pub record Deser : Type 0 where
  pub pos : ℕ
  pub handles : List Value
  pub classes : List ClassInfo
  pub objects : List Fields
  pub arrays : List (List Value)

-- What a method comes to: a value, an error, a run-time panic, or no end within the rounds given.
pub data Parse (A : Type 0) : Type 0 where
  parsed : A → Deser → Parse A
  refused : Error → Deser → Parse A
  crashed : Parse A
  exhausted : Parse A

abbrev pub Step : Type 0 → Type 0
Step A = Deser → Parse A

abbrev pub and_then : {A B : Type 0} → Parse A → (A → Step B) → Parse B
and_then (parsed a s) f = f a s
and_then (refused e s) f = refused e s
and_then crashed f = crashed
and_then exhausted f = exhausted

infixr 5 ◌>>=◌ ◌>>◌
abbrev pub ◌>>=◌ : {A B : Type 0} → Step A → (A → Step B) → Step B
◌>>=◌ m f s = and_then (m s) f

abbrev pub ◌>>◌ : {B : Type 0} → Step (Unit {0}) → Step B → Step B
m >> k = m >>= λ _. k

abbrev pub pure : {A : Type 0} → A → Step A
pure a s = parsed a s

unfoldable pub throw : {A : Type 0} → Bytes → Step A
throw t s = refused (errorf t) s

-- `fmt.Errorf("…: %w", err)` around a call.
abbrev pub wrap_result : {A : Type 0} → Bytes → Parse A → Parse A
wrap_result t (parsed a s) = parsed a s
wrap_result t (refused e s) = refused (wrapped t e) s
wrap_result t crashed = crashed
wrap_result t exhausted = exhausted

abbrev pub wrap_error : {A : Type 0} → Bytes → Step A → Step A
wrap_error t m s = wrap_result t (m s)

abbrev pub out_of_rounds : {A : Type 0} → Step A
out_of_rounds s = exhausted

abbrev pub get_state : Step Deser
get_state s = parsed s s

-- `d.pos += n`
abbrev pub advance : ℕ → Step (Unit {0})
advance n s = parsed tt (record s { pos = s.pos + n })

-- `d.handles = append(d.handles, v)`
abbrev pub new_handle : Value → Step (Unit {0})
new_handle v s = parsed tt (record s { handles = s.handles ++ (v ∷ []) })

abbrev pub modify_at : {A : Type 0} → ℕ → (A → A) → List A → List A
modify_at i f [] = []
modify_at zero f (x ∷ xs) = f x ∷ xs
modify_at (suc i) f (x ∷ xs) = x ∷ modify_at i f xs

-- The next `n` bytes of `bytes`, if `d.pos+n > len(d.data)` does not hold.
unfoldable pub read_bytes : Bytes → ℕ → Bytes → Step Bytes
read_bytes bytes n t s =
    if ltb (length bytes) (s.pos + n)
    then refused (errorf t) s
    else parsed (cut bytes s.pos (s.pos + n)) (record s { pos = s.pos + n })

-- The tag at the position, if `d.pos >= len(d.data)` does not hold.
unfoldable pub peek : Bytes → Bytes → Step ℕ
peek bytes t s =
    if leb (length bytes) s.pos then refused (errorf t) s else parsed (at bytes s.pos) s

-- `if d.pos >= len(d.data) || d.data[d.pos] != tag { return err }`, and the step over the tag.
unfoldable pub expect : Bytes → ℕ → Bytes → Step (Unit {0})
expect bytes tag t s =
    if leb (length bytes) s.pos
    then refused (errorf (t ++ (codes " at pos " ++ dec s.pos))) s
    else if at bytes s.pos == tag
    then parsed tt (record s { pos = s.pos + 1 })
    else refused (errorf (t ++ (codes " at pos " ++ dec s.pos))) s

abbrev pub tc_null : ℕ
tc_null = 0x70

abbrev pub tc_reference : ℕ
tc_reference = 0x71

abbrev pub tc_class_desc : ℕ
tc_class_desc = 0x72

abbrev pub tc_object : ℕ
tc_object = 0x73

abbrev pub tc_string : ℕ
tc_string = 0x74

abbrev pub tc_array : ℕ
tc_array = 0x75

abbrev pub tc_class : ℕ
tc_class = 0x76

abbrev pub tc_block_data : ℕ
tc_block_data = 0x77

abbrev pub tc_end_block_data : ℕ
tc_end_block_data = 0x78

abbrev pub tc_reset : ℕ
tc_reset = 0x79

abbrev pub tc_block_data_long : ℕ
tc_block_data_long = 0x7a

abbrev pub tc_exception : ℕ
tc_exception = 0x7b

abbrev pub tc_long_string : ℕ
tc_long_string = 0x7c

abbrev pub tc_proxy_class_desc : ℕ
tc_proxy_class_desc = 0x7d

abbrev pub tc_enum : ℕ
tc_enum = 0x7e
