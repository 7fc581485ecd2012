-- ===== src/Dubbo/Java/Strings.antt =====
-- dubboport/java_deserializer.go: strings and references to what was read before.
use tcp_port.Dubbo.Java.State.{◌>>=◌, ◌>>◌}
use tcp_port.Base.{[], get_elem?, if◌then◌else◌, leb, length, none, some, ℕ, ◌++◌, ◌+◌, ◌==◌, ◌^◌}
use tcp_port.Base.Int.{to_int64}
use tcp_port.Base.Outcome.{errorf}
use tcp_port.Base.Slice.{Bytes, be16, be32, be64}
use tcp_port.Base.Text.{codes, dec, dec_ℤ, hex_byte}
use tcp_port.Dubbo.Java.State.{
  Step, Value, advance, expect, get_state, new_handle, parsed, peek, read_bytes, refused,
  tc_long_string, tc_reference, tc_string, text,
}
use tcp_port.Dubbo.Java.State.{crashed, pure, throw}

-- `readUTF`
unfoldable pub read_utf : Bytes → Step Bytes
read_utf bytes = read_bytes bytes 2 (codes "unexpected end reading UTF length") >>= λ w.
    if be16 w 0 == 0
    then pure []
    else read_bytes bytes (be16 w 0)
        (codes "UTF length " ++ (dec (be16 w 0) ++ codes " exceeds data"))

-- `readString`
unfoldable pub read_java_string : Bytes → Step Bytes
read_java_string bytes =
    expect bytes tc_string (codes "expected TC_STRING")
    >> read_bytes bytes 2 (codes "unexpected end reading string length")
    >>= λ w. get_state >>= λ d.
        read_bytes bytes (be16 w 0) (
          codes "string length "
          ++ (dec (be16 w 0) ++ (codes " exceeds data at pos " ++ dec d.pos)))
        >>= λ s. new_handle (text s) >> pure s

-- The bytes of a long string. Its length is an `int`, and so is `d.pos+length`, which gets negative
-- from 2^63 on: the test lets it pass, and the slice panics.
unfoldable pub read_long : Bytes → ℕ → Step Bytes
read_long bytes n d =
    let t = codes "long string length " ++ (dec_ℤ (to_int64 n) ++ codes " exceeds data") in
    if leb (2 ^ 63) n
    then refused (errorf t) d
    else if leb (2 ^ 63) (d.pos + n)
    then crashed
    else read_bytes bytes n t d

-- `readLongString`
unfoldable pub read_long_string : Bytes → Step Bytes
read_long_string bytes =
    expect bytes tc_long_string (codes "expected TC_LONGSTRING")
    >> read_bytes bytes 8 (codes "unexpected end reading long string length")
    >>= λ w. read_long bytes (be64 w 0) >>= λ s. new_handle (text s) >> pure s

-- The value of a handle: `h >= len(d.handles)` is the error with `text`.
unfoldable pub lookup_handle : Bytes → ℕ → Step Value
lookup_handle t h d = elim (get_elem? d.handles h) [
  | none ↦
      refused (errorf (t ++ (dec h ++ (codes " (have " ++ (dec (length d.handles) ++ codes ")")))))
        d
  | some v ↦ parsed v d
]

-- `readReference`
unfoldable pub read_reference : Bytes → Step Value
read_reference bytes =
    expect bytes tc_reference (codes "expected TC_REFERENCE")
    >> read_bytes bytes 4 (codes "unexpected end reading ref handle")
    >>= λ w. lookup_handle (codes "invalid handle: ") (be32 w 0)

unfoldable pub text_of : ℕ → Value → Step Bytes
text_of h (text s) = pure s
text_of h _ = throw (codes "handle " ++ (dec h ++ codes " is not a string"))

-- The error of a tag that does not fit.
unfoldable pub wrong_tag : {A : Type 0} → Bytes → ℕ → Step A
wrong_tag t tc d = throw (t ++ (hex_byte tc ++ (codes " at pos " ++ dec d.pos))) d

-- `readObjectString`
unfoldable pub read_object_string : Bytes → Step Bytes
read_object_string bytes = peek bytes (codes "unexpected end reading object string") >>= λ tc.
    if tc == tc_string
    then read_java_string bytes
    else if tc == tc_long_string
    then read_long_string bytes
    else if tc == tc_reference
    then (advance 1
        >> read_bytes bytes 4 (codes "unexpected end reading string ref handle")
        >>= λ w. lookup_handle (codes "invalid string handle: ") (be32 w 0) >>= text_of (be32 w 0))
    else wrong_tag (codes "expected string tag, got 0x") tc
