-- ===== src/Mongo/Json.antt =====
-- The JSON texts of mongoport/mongo_protocol.go: `jsonEscape`, `writeJSONValue`, `bsonToJSON`.
-- `to_valid` stands for the decoding of a string by `range` and the encoding of its runes by
-- `WriteRune`, which differ from the string in bytes that are not UTF-8, `format_float` for
-- `strconv.FormatFloat` of the double with these bits, and `order` for the order in which `range`
-- goes through the members of a map.
use tcp_port.Base.Outcome.{◌>>=◌}
use tcp_port.Base.{List, Option, [], if◌then◌else◌, ltb, none, some, ℕ, ◌++◌, ◌==◌, ◌∷◌}
use tcp_port.Base.Int.{ℤ}
use tcp_port.Base.Outcome.{Outcome, ok}
use tcp_port.Base.Slice.{Bytes}
use tcp_port.Base.Text.{codes, dec_ℤ, hex_byte, join}
use tcp_port.Mongo.Value.{
  Fields, Items, Value, boolean, bson_to_map, document, double, field, int32, int64, item,
  no_fields, no_items, nothing, sequence, string,
}

unfoldable pub escape_byte : ℕ → Bytes
escape_byte c =
    if c == 34
    then 92 ∷ 34 ∷ []
    else if c == 92
    then 92 ∷ 92 ∷ []
    else if c == 10
    then 92 ∷ b'n' ∷ []
    else if c == 13
    then 92 ∷ b'r' ∷ []
    else if c == 9
    then 92 ∷ b't' ∷ []
    else if ltb c 32
    then 92 ∷ b'u' ∷ b'0' ∷ b'0' ∷ hex_byte c
    else c ∷ []

-- The loop of `jsonEscape`; only ASCII is escaped.
unfoldable pub escape : Bytes → Bytes
escape [] = []
escape (c ∷ cs) = escape_byte c ++ escape cs

module _ (to_valid : Bytes → Bytes) (format_time : ℤ → Bytes) (format_float : ℕ → Bytes)
    (order : List Bytes → List Bytes) where
  abbrev pub quoted : Bytes → Bytes
  quoted s = 34 ∷ (escape (to_valid s) ++ (34 ∷ []))

  unfoldable mutual
    -- `writeJSONValue`
    pub write_value : Value → Bytes
    write_value nothing = codes "null"
    write_value (boolean b) = if b then codes "true" else codes "false"
    write_value (int32 n) = dec_ℤ n
    write_value (int64 n) = dec_ℤ n
    write_value (double n) = format_float n
    write_value (string s) = quoted s
    write_value (document fs) = b'{' ∷ (join (b',' ∷ []) (order (members fs)) ++ (b'}' ∷ []))
    write_value (sequence vs) = b'[' ∷ (join (b',' ∷ []) (elements vs) ++ (b']' ∷ []))

    pub members : Fields → List Bytes
    members no_fields = []
    members (field k v fs) = (quoted k ++ (b':' ∷ write_value v)) ∷ members fs

    pub elements : Items → List Bytes
    elements no_items = []
    elements (item v vs) = write_value v ∷ elements vs

  -- `mapToJSON`
  abbrev pub map_to_json : Fields → Bytes
  map_to_json m = write_value (document m)

  abbrev pub json_of : Option Fields → Bytes
  json_of none = []
  json_of (some m) = map_to_json m

  -- `bsonToJSON`
  unfoldable pub bson_to_json : Bytes → ℕ → Outcome Bytes
  bson_to_json s spare = bson_to_map format_time s spare >>= λ m. ok (json_of m)
