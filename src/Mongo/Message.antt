-- ===== src/Mongo/Message.antt =====
-- `parseBody` of mongoport/mongo_protocol.go, and what it calls on the messages with documents.
use tcp_port.Base.Outcome.{◌>>=◌}
use tcp_port.Base.Int.{pos}
use tcp_port.Base.{
  List, [], drop, if◌then◌else◌, leb, length, ltb, none, not, some, ℕ, ◌&&◌, ◌++◌, ◌==◌, ◌∷◌,
}
use tcp_port.Base.Int.{eq_ℤ, ℤ}
use tcp_port.Base.Outcome.{Outcome, ok}
use tcp_port.Base.Slice.{Bytes, at, le32}
use tcp_port.Base.Text.{codes, dec, dec_ℤ}
use tcp_port.Mongo.{
  MongoMessage, MsgHeader, int32_at, opcode_name, parse_op_command, parse_op_insert, parse_op_query,
  type_as,
}
use tcp_port.Mongo.Bson.{extract_bson_first_key, extract_bson_value, find_body_section}
use tcp_port.Mongo.Json.{bson_to_json}

unfoldable pub new_message : MsgHeader → Bytes → ℕ → MongoMessage
new_message header direction size = record {
  header = header;
  flag_bits = 0;
  kind = 0;
  body_size = size;
  collection = [];
  command = [];
  full_collection_name = [];
  number_to_skip = pos 0;
  number_to_return = pos 0;
  bson_body = [];
  num_docs = pos 0;
  direction = direction;
  summary = [];
}

-- The document of an OP_MSG: behind the first section, when that is a sequence.
unfoldable pub body_data : Bytes → Bytes
body_data body =
    let docs = drop 5 body in
    if at body 4 == 1 && not (length docs == 0)
    then elim (find_body_section docs) [
      | none ↦ docs
      | some i ↦ if ltb i (length docs) then drop i docs else docs
    ]
    else docs

abbrev op_msg_summary : Bytes → ℕ → ℕ → Bytes
op_msg_summary [] size kind =
    codes "OP_MSG (body=" ++ (dec size ++ (codes " bytes, kind=" ++ (dec kind ++ codes ")")))
op_msg_summary (c ∷ cmd) size kind =
    codes "OP_MSG " ++ ((c ∷ cmd) ++ (codes " (body=" ++ (dec size ++ codes " bytes)")))

module _ (to_valid : Bytes → Bytes) (format_time : ℤ → Bytes) (format_float : ℕ → Bytes)
    (order : List Bytes → List Bytes) where
  abbrev json : Bytes → Outcome Bytes
  json s = bson_to_json to_valid format_time format_float order s 0

  -- `parseOpMsg`; `extract_bson_value` always has an answer.
  unfoldable pub parse_op_msg : Bytes → MongoMessage → Outcome MongoMessage
  parse_op_msg body msg =
      let docs = body_data body in
      let name = extract_bson_first_key docs in
      if ltb (length body) 5
      then ok (type_as (codes "OP_MSG (truncated)") msg)
      else (json docs >>= λ text. ok (record msg {
        flag_bits = le32 body 0;
        kind = at body 4;
        bson_body = text;
        command = name;
        collection = elim (extract_bson_value docs name) [ none ↦ [] | some v ↦ v ];
        summary = op_msg_summary name msg.body_size (at body 4);
      }))

  -- `parseOpReply`
  unfoldable pub parse_op_reply : Bytes → MongoMessage → Outcome MongoMessage
  parse_op_reply body msg =
      let num = if leb 20 (length body) then int32_at body 16 else pos 0 in
      (if ltb 20 (length body) then json (drop 20 body) else ok msg.bson_body) >>= λ text.
      ok (record msg {
        num_docs = num;
        bson_body = text;
        summary =
            codes "OP_REPLY (docs="
            ++ (dec_ℤ num ++ (codes ", body=" ++ (dec msg.body_size ++ codes " bytes)")));
      })

  -- `parseBody`
  unfoldable pub parse_body : Bytes → MongoMessage → Outcome MongoMessage
  parse_body body msg =
      let op = msg.header.op_code in
      if eq_ℤ op (pos 2013)
      then parse_op_msg body msg
      else if eq_ℤ op (pos 2004)
      then ok (parse_op_query body msg)
      else if eq_ℤ op (pos 1)
      then parse_op_reply body msg
      else if eq_ℤ op (pos 2002)
      then parse_op_insert body msg
      else if eq_ℤ op (pos 2001)
      then ok (type_as (codes "UPDATE") msg)
      else if eq_ℤ op (pos 2006)
      then ok (type_as (codes "DELETE") msg)
      else if eq_ℤ op (pos 2005)
      then ok (type_as (codes "GET_MORE") msg)
      else if eq_ℤ op (pos 2007)
      then ok (type_as (codes "KILL_CURSORS") msg)
      else if eq_ℤ op (pos 2010)
      then parse_op_command body msg
      else if eq_ℤ op (pos 2011)
      then ok (type_as (codes "COMMAND_REPLY") msg)
      else ok (type_as (opcode_name op) msg)
