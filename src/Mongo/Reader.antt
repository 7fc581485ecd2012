-- ===== src/Mongo/Reader.antt =====
-- `ReadMongoMessage` of mongoport/mongo_protocol.go.
use tcp_port.Base.Reader.{throw, ◌>>=◌}
use tcp_port.Base.{List, if◌then◌else◌, length, not, ℕ, ◌++◌, ◌-◌}
use tcp_port.Base.Int.{pos_part, ℤ}
use tcp_port.Base.Outcome.{errorf}
use tcp_port.Base.Reader.{Read, lift, read_full}
use tcp_port.Base.Slice.{Bytes}
use tcp_port.Base.Text.{codes, dec_ℤ}
use tcp_port.Mongo.{MongoMessage, MsgHeader, in_range, msg_header_size, parse_msg_header}
use tcp_port.Mongo.Message.{new_message, parse_body}

module _ (to_valid : Bytes → Bytes) (format_time : ℤ → Bytes) (format_float : ℕ → Bytes)
    (order : List Bytes → List Bytes) where
  -- The number of bytes behind the header.
  abbrev pub body_len : MsgHeader → ℕ
  body_len header = pos_part header.message_length - msg_header_size

  -- `ReadMongoMessage`, behind the header
  unfoldable pub read_body : Bytes → MsgHeader → Read MongoMessage
  read_body direction header =
      if not (in_range header.message_length)
      then throw (errorf (codes "invalid message length: " ++ dec_ℤ header.message_length))
      else (read_full (body_len header) >>= λ body. lift (
          parse_body to_valid format_time format_float order body
            (new_message header direction (length body))))

  -- `ReadMongoMessage`
  unfoldable pub read_mongo_message : Bytes → Read MongoMessage
  read_mongo_message direction =
      read_full msg_header_size >>= λ buf. read_body direction (parse_msg_header buf)
