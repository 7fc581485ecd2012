-- ===== src/Tests/Mongo.antt =====
-- Documents and handlers of MongoDB at short inputs.
use tcp_port.Base.Int.{pos}
use tcp_port.Mongo.Message.{new_message}
use tcp_port.Base.Outcome.{ok, panic}
use tcp_port.App.Handler.{Env}
use tcp_port.Base.{All, List, [], arith, drop, none, refl, ℕ, ◌++◌, ◌↔◌, ◌∷◌, ◌≡◌, ◌≢◌}
use tcp_port.Base.Int.{ℤ}
use tcp_port.Base.Reader.{Read}
use tcp_port.Base.Slice.{Bytes, until_zero}
use tcp_port.Base.Text.{codes, dec, dec_ℤ, join}
use tcp_port.Mongo.{MongoMessage, type_as}
use tcp_port.Mongo.Json.{bson_to_json, escape, escape_byte, write_value}
use tcp_port.Mongo.Lines.{LineOrPanic, bson_to_json-LineOrPanic}
use tcp_port.Mongo.Reader.{read_mongo_message}
use tcp_port.Mongo.Rounds.{parse_regex-panic_iff}
use tcp_port.Mongo.Value.{bson_to_map, map_loop, parse_bson_element, parse_regex, parse_value, put}

abbrev same : Bytes → Bytes
same s = s

abbrev no_time : ℤ → Bytes
no_time n = codes "time"

abbrev no_float : ℕ → Bytes
no_float n = codes "0.5"

abbrev as_is : List Bytes → List Bytes
as_is ss = ss

-- {"a": 7}, with a line feed in the key.
abbrev small : Bytes
small = 13 ∷ 0 ∷ 0 ∷ 0 ∷ 16 ∷ 97 ∷ 10 ∷ 0 ∷ 7 ∷ 0 ∷ 0 ∷ 0 ∷ 0 ∷ []

bson_to_json-LineOrPanic_example : LineOrPanic (bson_to_json same no_time no_float as_is small 0)
bson_to_json-LineOrPanic_example =
    bson_to_json-LineOrPanic same no_time no_float as_is
      (λ n. (omega arith, (omega arith, (omega arith, tt)))) (λ ss h. h) small 0

-- The text of the document.
small-text :
    bson_to_json same no_time no_float as_is small 0
    ≡ ok (codes "{" ++ (34 ∷ 97 ∷ 92 ∷ 110 ∷ 34 ∷ codes ":7}"))
unfolding bson_to_json bson_to_map map_loop parse_bson_element parse_value write_value escape
    escape_byte put dec_ℤ dec until_zero join
small-text = refl

-- A pattern without a zero byte behind it.
parse_regex-panic_iff_example :
    (parse_regex no_time (0x0b ∷ 97 ∷ 0 ∷ 120 ∷ 121 ∷ []) 0 3 ≡ panic)
    ↔ All (λ (b : ℕ). b ≢ 0) (drop 3 (0x0b ∷ 97 ∷ 0 ∷ 120 ∷ 121 ∷ []))
parse_regex-panic_iff_example =
    parse_regex-panic_iff no_time (0x0b ∷ 97 ∷ 0 ∷ 120 ∷ 121 ∷ []) 3 (omega arith)

abbrev clock : Env
clock = record {
  src = codes "a:1";
  dst = codes "b:2";
  level = codes "all";
  cost = [];
  stamp = λ k. codes "t";
  elapsed = λ k i. pos 7;
  trim_space = λ s. s;
  parse_int = λ s. none;
}

-- A message of its header only, with this number.
abbrev bare : ℕ → Bytes → Bytes
bare id rest = 16 ∷ 0 ∷ 0 ∷ 0 ∷ id ∷ 0 ∷ 0 ∷ 0 ∷ 0 ∷ 0 ∷ 0 ∷ 0 ∷ 0xd5 ∷ 0x07 ∷ 0 ∷ 0 ∷ rest

abbrev bare_message : ℕ → Bytes → MongoMessage
bare_message id direction = type_as (codes "GET_MORE") (
    new_message
      (record {
        message_length = pos 16;
        request_id = pos id;
        response_to = pos 0;
        op_code = pos 2005;
      })
      direction 0)

abbrev read_mongo : Bytes → Read MongoMessage
read_mongo direction = read_mongo_message same no_time no_float as_is direction
