-- ===== src/Dubbo/Java/Blocks.antt =====
-- dubboport/java_deserializer.go: block data, and the values of primitive types.
use tcp_port.Dubbo.Java.State.{◌>>=◌, ◌>>◌}
use tcp_port.Base.Int.{pos, negsuc}
use tcp_port.Base.{
  Bool, [], if◌then◌else◌, length, ltb, not, suc, zero, ℕ, ◌%◌, ◌++◌, ◌+◌, ◌-◌, ◌/◌, ◌==◌, ◌||◌,
  ◌∷◌,
}
use tcp_port.Base.Int.{to_int32, to_int64, ℤ}
use tcp_port.Base.Slice.{Bytes, at, be16, be32, be64}
use tcp_port.Base.Text.{codes, dec, hex_byte}
use tcp_port.Dubbo.Java.State.{
  Step, Value, advance, boolean, char, double, expect, float, integer, null, out_of_rounds, peek,
  read_bytes, tc_block_data, tc_block_data_long, tc_end_block_data,
}
use tcp_port.Dubbo.Java.Strings.{wrong_tag}
use tcp_port.Dubbo.Java.State.{pure, throw}

-- `skipBlockDataLong`
unfoldable pub skip_block_data_long : Bytes → Step Value
skip_block_data_long bytes =
    expect bytes tc_block_data_long (codes "expected TC_BLOCKDATALONG")
    >> read_bytes bytes 4 (codes "unexpected end reading blockdata long size")
    >>= λ w.
        read_bytes bytes (be32 w 0)
          (codes "blockdata long size " ++ (dec (be32 w 0) ++ codes " exceeds data"))
        >>= λ _. pure null

-- `skipBlockData`
unfoldable pub skip_block_data : Bytes → Step Value
skip_block_data bytes = peek bytes (codes "unexpected end at blockdata") >>= λ tc.
    if tc == tc_block_data
    then (advance 1 >> read_bytes bytes 1 (codes "unexpected end reading blockdata size") >>= λ w.
        read_bytes bytes (at w 0)
          (codes "blockdata size " ++ (dec (at w 0) ++ codes " exceeds data"))
        >>= λ _. pure null)
    else if tc == tc_block_data_long
    then skip_block_data_long bytes
    else if tc == tc_end_block_data
    then (advance 1 >> pure null)
    else wrong_tag (codes "expected blockdata, got 0x") tc

-- One round of the loop of `skipObjectAnnotation`, with the rounds behind it.
unfoldable pub annotation_round : Bytes → Step (Unit {0}) → Step (Unit {0})
annotation_round bytes next = peek bytes (codes "unexpected end of data in annotation") >>= λ tc.
    if tc == tc_end_block_data
    then advance 1
    else if tc == tc_block_data
    then (skip_block_data bytes >>= λ _. next)
    else if tc == tc_block_data_long
    then (skip_block_data_long bytes >>= λ _. next)
    else λ d.
        throw
          (codes "unexpected tag 0x"
            ++ (hex_byte tc ++ (codes " in annotation at pos " ++ dec d.pos)))
          d

-- `skipObjectAnnotation`, in a number of rounds.
unfoldable pub skip_annotation : Bytes → ℕ → Step (Unit {0})
skip_annotation bytes zero = out_of_rounds
skip_annotation bytes (suc n) = annotation_round bytes (skip_annotation bytes n)

-- Every round but the last skips a byte or more.
unfoldable pub skip_object_annotation : Bytes → Step (Unit {0})
skip_object_annotation bytes = skip_annotation bytes (suc (length bytes))

-- `int8`, `int16` of a word.
abbrev pub to_int8 : ℕ → ℤ
to_int8 w = if ltb w 128 then pos w else negsuc (255 - w)

abbrev pub to_int16 : ℕ → ℤ
to_int16 w = if ltb w 32768 then pos w else negsuc (65535 - w)

-- A word of `n` bytes, and the value that is made of it.
unfoldable pub read_word : Bytes → Bytes → ℕ → Bytes → (Bytes → Value) → Step Value
read_word bytes raw n name f =
    read_bytes bytes n (codes "unexpected end reading " ++ (raw ++ name)) >>= λ w. pure (f w)

-- The primitive types of both `readFieldValue` and `readRawPrimitive`, whose code is the same but
-- for the word `raw` in the errors; `other` is the default.
unfoldable pub read_primitive : Bytes → Bytes → Step Value → ℕ → Step Value
read_primitive bytes raw other c =
    if c == b'B'
    then read_word bytes raw 1 (codes "byte") (λ w. integer (to_int8 (at w 0)))
    else if c == b'C'
    then read_word bytes raw 2 (codes "char") (λ w. char (be16 w 0))
    else if c == b'D'
    then read_word bytes raw 8 (codes "double") (λ w. double (be64 w 0))
    else if c == b'F'
    then read_word bytes raw 4 (codes "float") (λ w. float (be32 w 0))
    else if c == b'I'
    then read_word bytes raw 4 (codes "int") (λ w. integer (to_int32 (be32 w 0)))
    else if c == b'J'
    then read_word bytes raw 8 (codes "long") (λ w. integer (to_int64 (be64 w 0)))
    else if c == b'S'
    then read_word bytes raw 2 (codes "short") (λ w. integer (to_int16 (be16 w 0)))
    else if c == b'Z'
    then read_word bytes raw 1 (codes "boolean") (λ w. boolean (not (at w 0 == 0)))
    else other

-- `%c` of a byte, in UTF-8.
abbrev utf8 : ℕ → Bytes
utf8 c = if ltb c 128 then c ∷ [] else (192 + c / 64) ∷ (128 + c % 64) ∷ []

-- `readFieldValue`, with `readContent` as `content`.
unfoldable pub read_field_value : Bytes → Step Value → ℕ → Step Value
read_field_value bytes content c =
    read_primitive bytes []
      (if c == b'[' || c == b'L'
        then content
        else throw (
            codes "unknown field type 0x" ++ (hex_byte c ++ (codes " (" ++ (utf8 c ++ codes ")")))))
      c

-- `readRawPrimitive`
unfoldable pub read_raw_primitive : Bytes → ℕ → Step Value
read_raw_primitive bytes c =
    read_primitive bytes (codes "raw ") (throw (codes "not a primitive type: 0x" ++ hex_byte c)) c

-- `isPrimitiveTypeCode`
unfoldable pub is_primitive_type_code : ℕ → Bool
is_primitive_type_code c =
    c == b'B'
    || c == b'C'
    || c == b'D'
    || c == b'F'
    || c == b'I'
    || c == b'J'
    || c == b'S'
    || c == b'Z'
