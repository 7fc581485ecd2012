-- ===== src/Mysql/Message.antt =====
-- The data of mysqlport/mysql_protocol.go. The two text fields that a message is told apart by
-- (`Type`, `Summary`) are texts as in the source.
use tcp_port.Base.{[], ℕ}
use tcp_port.Base.Slice.{Bytes}

pub record MysqlPacket : Type 0 where
  pub len : ℕ
  pub sequence_id : ℕ
  pub payload : Bytes
  pub direction : Bytes

-- `MySQLMessage`. It holds one packet wherever the code makes one, so `Packets` is that packet.
pub record MysqlMessage : Type 0 where
  pub packet : MysqlPacket
  pub kind : Bytes
  pub summary : Bytes
  pub command : ℕ
  pub command_name : Bytes
  pub query : Bytes
  pub protocol_version : ℕ
  pub server_version : Bytes
  pub auth_plugin : Bytes
  pub affected_rows : ℕ
  pub last_insert_id : ℕ
  pub status_flags : ℕ
  pub error_code : ℕ
  pub error_msg : Bytes
  pub sql_state : Bytes

unfoldable pub new_message : MysqlPacket → MysqlMessage
new_message packet = record {
  packet = packet;
  kind = [];
  summary = [];
  command = 0;
  command_name = [];
  query = [];
  protocol_version = 0;
  server_version = [];
  auth_plugin = [];
  affected_rows = 0;
  last_insert_id = 0;
  status_flags = 0;
  error_code = 0;
  error_msg = [];
  sql_state = [];
}

abbrev pub response_ok : ℕ
response_ok = 0x00

abbrev pub response_eof : ℕ
response_eof = 0xfe

abbrev pub response_err : ℕ
response_err = 0xff
