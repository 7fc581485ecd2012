-- ===== src/Tests/Protocols.antt =====
-- Messages of the protocols, read from their bytes.
use tcp_port.Zookeeper
use tcp_port.Base.{
  Option, [], arith, equal, false, if◌then◌else◌, none, refl, some, true, ◌++◌, ◌↔◌, ◌∷◌, ◌≡◌,
}
use tcp_port.Base.Int.{pos}
use tcp_port.Base.Outcome.{panic}
use tcp_port.Base.Reader.{done}
use tcp_port.Base.Slice.{Bytes, put_be32}
use tcp_port.Base.Text.{codes, find_name_ℤ}
use tcp_port.Dubbo.Header.{DubboHeader, dubbo_magic_number}
use tcp_port.Mongo.{MongoMessage}
use tcp_port.Mysql.LenEnc.{read_len_enc_int, read_len_enc_int-put}
use tcp_port.Mysql.Message.{MysqlPacket, new_message}
use tcp_port.Mysql.Server.{parse_server_payload}
use tcp_port.Mysql.Server.Kinds.{IsCutError, parse_server_payload-panic_iff}
use tcp_port.Rocketmq.{RemotingCommand, new_command}
use tcp_port.Rocketmq.Frames.{encode_remoting, read_remoting_command-encode_remoting}
use tcp_port.Rocketmq.Reader.{read_remoting_command}
use tcp_port.Zookeeper.{ZkMessage, ZkRequest, detect_zk, is_valid_type, read_zk_message, request}
use tcp_port.Zookeeper.RoundTrip.{detect_zk-IsRead, encode_request, read_zk_message-encode_request}
use tcp_port.Rocketmq.Frames.{previewed}
use tcp_port.Zookeeper.RoundTrip.{IsRead}

read_len_enc_int-put_example : read_len_enc_int (0 ∷ 0xfc ∷ 0x2c ∷ 0x01 ∷ 9 ∷ []) 1 ≡ (300, 4)
read_len_enc_int-put_example = read_len_enc_int-put (0 ∷ []) (9 ∷ []) 300 (omega arith)

abbrev query : Bytes
query = 0x03 ∷ codes "SELECT 1"

abbrev mysql_packet : MysqlPacket
mysql_packet = record { len = 5; sequence_id = 1; payload = []; direction = codes "S->C" }

-- An ERR packet of five bytes with a `#`.
abbrev cut_error : Bytes
cut_error = 0xff ∷ 1 ∷ 4 ∷ b'#' ∷ b'0' ∷ []

parse_server_payload-panic_iff_example :
    (parse_server_payload (new_message mysql_packet) cut_error ≡ panic) ↔ IsCutError cut_error
parse_server_payload-panic_iff_example = parse_server_payload-panic_iff mysql_packet cut_error

abbrev plain : Bytes → Bytes
plain s = b'"' ∷ s ++ (b'"' ∷ [])

abbrev mask_key : Bytes
mask_key = 1 ∷ 2 ∷ 3 ∷ 4 ∷ []

read_zk_message-encode_request_example :
    (req : ZkRequest) × (read_zk_message
        (codes "C->S")
        (encode_request 7 4 (codes "/app") (0 ∷ []) ++ (1 ∷ []))
      ≡ done (request req) (1 ∷ []))
    × (req.xid ≡ pos 7)
    × (req.kind ≡ pos 4)
    × (req.path ≡ codes "/app")
    × (req.len ≡ pos 21)
read_zk_message-encode_request_example =
    read_zk_message-encode_request 7 4 (codes "/app") (0 ∷ []) (1 ∷ []) (omega arith) (omega arith)
      (omega arith)

abbrev ping : Bytes
ping = put_be32 12 ++ (put_be32 1 ++ put_be32 11)

detect_zk-IsRead_example : IsRead (codes "S->C") (ping ++ (9 ∷ []))
detect_zk-IsRead_example =
    detect_zk-IsRead (codes "S->C") (ping ++ (9 ∷ []))
      (unfold detect_zk is_valid_type Zookeeper.opcode_names find_name_ℤ in refl)

-- A decoder that sees no field, but takes the text `null` for nil, as JSON's does for a pointer.
abbrev unmarshal : Bytes → RemotingCommand → Option RemotingCommand
unmarshal s cmd = if equal s (codes "null") then none else some cmd

abbrev blank_command : RemotingCommand
blank_command = new_command 11 6 (codes "{}") (1 ∷ [])

read_remoting_command-encode_remoting_example :
    (read_remoting_command unmarshal (encode_remoting (codes "{}") (1 ∷ []) ++ (9 ∷ []))
      ≡ done (some (previewed (1 ∷ []) blank_command)) (9 ∷ []))
    × ((previewed (1 ∷ []) blank_command).header_json ≡ codes "{}")
    × ((previewed (1 ∷ []) blank_command).body ≡ 1 ∷ [])
unfolding new_command equal
read_remoting_command-encode_remoting_example =
    read_remoting_command-encode_remoting unmarshal (codes "{}") (1 ∷ []) (9 ∷ []) blank_command
      (omega arith) (omega arith) refl refl refl

abbrev short_frame : Bytes
short_frame = put_be32 8 ++ codes "{}"

abbrev swapped_header : DubboHeader
swapped_header = record {
  magic = dubbo_magic_number;
  flag = 0xc2;
  status = 0;
  request_id = 77;
  data_length = 300;
  serialization_id = 2;
  is_twoway = false;
  is_event = true;
  is_request = true;
}

abbrev mongo_message : MongoMessage
mongo_message = record {
  header = record {
    message_length = pos 19;
    request_id = pos 1;
    response_to = pos 0;
    op_code = pos 2002;
  };
  flag_bits = 0;
  kind = 0;
  body_size = 3;
  collection = [];
  command = [];
  full_collection_name = [];
  number_to_skip = pos 0;
  number_to_return = pos 0;
  bson_body = [];
  num_docs = pos 0;
  direction = codes "C->S";
  summary = [];
}
