-- ===== src/Tests/Java.antt =====
-- Java's object streams, read from their bytes.
use tcp_port.Base.{[], arith, none, refl, some, ◌++◌, ◌∷◌, ◌≡◌}
use tcp_port.Base.Slice.{Bytes, put_be32}
use tcp_port.Base.Text.{codes}
use tcp_port.Dubbo.Java.Args.{new_deser}
use tcp_port.Dubbo.Java.Bounds.{read_content-Ends}
use tcp_port.Dubbo.Java.Circle.{read_class_desc-encode, read_content-circle}
use tcp_port.Dubbo.Java.Class.{read_class_desc}
use tcp_port.Dubbo.Java.Classes.{class_of_encoding, encode_class, with_class}
use tcp_port.Dubbo.Java.Content.{read_content}
use tcp_port.Dubbo.Java.Encode.{IsPrimitiveField, encode_fields, size_of_fields}
use tcp_port.Dubbo.Java.Runs.{Ends}
use tcp_port.Dubbo.Java.State.{exhausted, parsed, tc_null, tc_object, tc_reference, tc_string}

abbrev uid : Bytes
uid = 1 ∷ 2 ∷ 3 ∷ 4 ∷ 5 ∷ 6 ∷ 7 ∷ 8 ∷ []

-- A class A with an int field x.
abbrev class_a : Bytes
class_a = encode_class (codes "A") uid 2 ((b'I', codes "x") ∷ []) (tc_null ∷ 9 ∷ [])

-- An object of a class A that is its own super class.
abbrev circle_a : Bytes
circle_a = tc_object ∷ encode_class (codes "A") uid 2 [] (tc_reference ∷ (put_be32 0 ++ []))

read_content-Ends_example :
    Ends
      (Unit {0})
      (tc_string ∷ 0 ∷ 1 ∷ 65 ∷ [])
      0
      1
      (read_content (tc_string ∷ 0 ∷ 1 ∷ 65 ∷ []) 3 (new_deser 0))
read_content-Ends_example =
    read_content-Ends (tc_string ∷ 0 ∷ 1 ∷ 65 ∷ []) 3 (new_deser 0) (omega arith)

read_class_desc-encode_example :
    read_class_desc class_a (new_deser 0)
    ≡ parsed (some 0) (
        with_class (new_deser 0) 20 (class_of_encoding (codes "A") 2 ((b'I', codes "x") ∷ []) none))
unfolding encode_fields size_of_fields IsPrimitiveField
read_class_desc-encode_example =
    read_class_desc-encode class_a 2 (codes "A") uid ((b'I', codes "x") ∷ []) (9 ∷ []) (new_deser 0)
      refl refl (omega arith) (omega arith) ((omega arith, omega arith, omega arith), tt)
      (omega arith) refl

read_content-circle_example : read_content circle_a 100 (new_deser 0) ≡ exhausted
unfolding encode_fields
read_content-circle_example =
    read_content-circle circle_a 2 (codes "A") uid [] (new_deser 0) 100 refl refl (omega arith)
      (omega arith) (omega arith) refl

abbrev two_strings : Bytes
two_strings = tc_string ∷ 0 ∷ 1 ∷ 65 ∷ tc_string ∷ 0 ∷ 1 ∷ 66 ∷ []
