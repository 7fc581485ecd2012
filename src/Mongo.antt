-- ===== src/Mongo.antt =====
-- mongoport/mongo_protocol.go: the wire messages, less the BSON bodies that `bsonToJSON` prints.
use tcp_port.Base.Int.{pos}
use tcp_port.Base.Outcome.{◌>>=◌}
pub mod Bson
pub mod Bodies
pub mod Value
pub mod Json
pub mod Lines
pub mod Format
pub mod Message
pub mod Reader
pub mod Rounds
use tcp_port.Base.{
  Bool, List, Option, [], drop, false, if◌then◌else◌, leb, length, ltb, none, not, some, suc, ℕ,
  ◌&&◌, ◌*◌, ◌++◌, ◌+◌, ◌==◌, ◌∷◌,
}
use tcp_port.Base.Int.{eq_ℤ, leb_ℤ, to_int32, ℤ}
use tcp_port.Base.Outcome.{Outcome, ok}
use tcp_port.Base.Slice.{Bytes, cut, le32, slice}
use tcp_port.Base.Text.{codes, dec, dec_ℤ}
use tcp_port.Base.Slice.{until_zero}
use tcp_port.Base.Text.{find_name_ℤ}

abbrev pub msg_header_size : ℕ
msg_header_size = 16

abbrev pub max_msg_size : ℕ
max_msg_size = 48 * 1024 * 1024

abbrev pub op_reply : ℤ
op_reply = pos 1

abbrev pub op_reserved : ℤ
op_reserved = pos 2003

unfoldable pub opcode_names : List (ℤ × Bytes)
opcode_names =
    (pos 1, codes "OP_REPLY")
    ∷ (pos 2001, codes "OP_UPDATE")
    ∷ (pos 2002, codes "OP_INSERT")
    ∷ (pos 2003, codes "RESERVED")
    ∷ (pos 2004, codes "OP_QUERY")
    ∷ (pos 2005, codes "OP_GET_MORE")
    ∷ (pos 2006, codes "OP_DELETE")
    ∷ (pos 2007, codes "OP_KILL_CURSORS")
    ∷ (pos 2010, codes "OP_COMMAND")
    ∷ (pos 2011, codes "OP_COMMANDREPLY")
    ∷ (pos 2013, codes "OP_MSG")
    ∷ []

unfoldable pub opcode_name : ℤ → Bytes
opcode_name op = elim (find_name_ℤ op opcode_names) [
  | none ↦ codes "UNKNOWN(" ++ (dec_ℤ op ++ codes ")")
  | some name ↦ name
]

pub record MsgHeader : Type 0 where
  pub message_length : ℤ
  pub request_id : ℤ
  pub response_to : ℤ
  pub op_code : ℤ

pub record MongoMessage : Type 0 where
  pub header : MsgHeader
  pub flag_bits : ℕ
  pub kind : ℕ
  pub body_size : ℕ
  pub collection : Bytes
  pub command : Bytes
  pub full_collection_name : Bytes
  pub number_to_skip : ℤ
  pub number_to_return : ℤ
  pub bson_body : Bytes
  pub num_docs : ℤ
  pub direction : Bytes
  pub summary : Bytes

abbrev pub int32_at : Bytes → ℕ → ℤ
int32_at s i = to_int32 (le32 s i)

unfoldable pub parse_msg_header : Bytes → MsgHeader
parse_msg_header s = record {
  message_length = int32_at s 0;
  request_id = int32_at s 4;
  response_to = int32_at s 8;
  op_code = int32_at s 12;
}

abbrev pub in_range : ℤ → Bool
in_range len = leb_ℤ (pos msg_header_size) len && leb_ℤ len (pos max_msg_size)

unfoldable pub detect_mongo : Bytes → Bool
unfolding find_name_ℤ opcode_names
detect_mongo s =
    let op_code = int32_at s 12 in
    if ltb (length s) msg_header_size
    then false
    else if not (in_range (int32_at s 0))
    then false
    else elim (find_name_ℤ op_code opcode_names) [
      | none ↦ false
      | some name ↦ not (eq_ℤ op_code op_reserved)
    ]

unfoldable pub type_as : Bytes → MongoMessage → MongoMessage
type_as t msg = record msg {
  summary = t ++ (codes " (body=" ++ (dec msg.body_size ++ codes " bytes)"));
}

abbrev pub zero_from : Bytes → ℕ → ℕ
zero_from body i = i + until_zero (drop i body)

unfoldable pub parse_op_query : Bytes → MongoMessage → MongoMessage
parse_op_query body msg =
    let end = zero_from body 4 in
    let name = cut body 4 end in
    let full = leb (end + 9) (length body) in
    let skip = if full then int32_at body (end + 1) else msg.number_to_skip in
    let batch = if full then int32_at body (end + 5) else msg.number_to_return in
    if ltb (length body) 12
    then type_as (codes "OP_QUERY (truncated, " ++ (dec msg.body_size ++ codes " bytes)")) msg
    else record msg {
      full_collection_name = name;
      number_to_skip = skip;
      number_to_return = batch;
      summary =
          codes "OP_QUERY "
          ++ (name
              ++ (codes " (skip="
                  ++ (dec_ℤ skip ++ (codes ", batch=" ++ (dec_ℤ batch ++ codes ")")))));
    }

unfoldable pub parse_op_insert : Bytes → MongoMessage → Outcome MongoMessage
parse_op_insert body msg = slice body 4 (zero_from body 4) >>= λ name. ok (record msg {
  collection = name;
  summary =
      codes "OP_INSERT " ++ (name ++ (codes " (body=" ++ (dec msg.body_size ++ codes " bytes)")));
})

unfoldable pub parse_op_command : Bytes → MongoMessage → Outcome MongoMessage
parse_op_command body msg =
    let end = until_zero body in
    let cmd_end = zero_from body (end + 1) in
    if ltb (length body) 8
    then ok (type_as (codes "OP_COMMAND (truncated)") msg)
    else slice body 0 end >>= λ db. slice body (end + 1) cmd_end >>= λ name. ok (record msg {
      command = name;
      summary =
          codes "OP_COMMAND "
          ++ (db
              ++ (codes "."
                  ++ (name ++ (codes " (body=" ++ (dec msg.body_size ++ codes " bytes)")))));
    })
