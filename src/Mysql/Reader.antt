-- ===== src/Mysql/Reader.antt =====
-- `ReadMySQLPacket` and `ReadMySQLMessage` of mysqlport/mysql_protocol.go.
use tcp_port.Base.Reader.{◌>>=◌}
use tcp_port.Base.{[], equal, if◌then◌else◌, length, refl, ℕ, ◌++◌, ◌<◌, ◌^◌, ◌∷◌, ◌≡◌}
use tcp_port.Base.Outcome.{Outcome, ok}
use tcp_port.Base.Reader.{Read, done, lift, pure, read_full, read_full-append}
use tcp_port.Base.Slice.{Bytes, at, le24, put_le24, put_le24-le24}
use tcp_port.Base.Text.{codes}
use tcp_port.Mysql.Client.{parse_client_packet}
use tcp_port.Mysql.Message.{MysqlMessage, MysqlPacket, new_message}
use tcp_port.Mysql.Server.{parse_server_packet}
use tcp_port.Base.{arith}

unfoldable pub read_mysql_packet : Read MysqlPacket
read_mysql_packet = read_full 4 >>= λ header. read_full (le24 header 0) >>= λ payload.
    pure
      (record { len = le24 header 0; sequence_id = at header 3; payload = payload; direction = [] })

-- The message of a packet, read in the direction that the packet goes.
unfoldable pub parse_message : MysqlPacket → Outcome MysqlMessage
parse_message packet =
    if equal packet.direction (codes "C->S")
    then ok (parse_client_packet (new_message packet))
    else parse_server_packet (new_message packet)

unfoldable pub read_mysql_message : Bytes → Read MysqlMessage
read_mysql_message direction =
    read_mysql_packet >>= λ packet. lift (parse_message (record packet { direction = direction }))

-- The bytes of a packet on the wire.
abbrev pub encode_packet : ℕ → Bytes → Bytes
encode_packet sequence_id payload = put_le24 (length payload) ++ sequence_id ∷ payload

-- A packet written to the wire is read back as it was, and what follows it is left unread. The
-- payload fits the 24-bit length.
pub read_mysql_packet-encode_packet :
    (sequence_id : ℕ) (payload rest : Bytes)
    → length payload < 2 ^ 24
    → read_mysql_packet (encode_packet sequence_id payload ++ rest)
      ≡ done
          (record {
            len = length payload;
            sequence_id = sequence_id;
            payload = payload;
            direction = [];
          })
          rest
unfolding read_mysql_packet
read_mysql_packet-encode_packet sequence_id payload rest h =
    let header = put_le24 (length payload) ++ sequence_id ∷ [] in
    ground (
      arith,
      read_full-append header (payload ++ rest) 4 refl,
      put_le24-le24 (length payload) (sequence_id ∷ []) h,
      read_full-append payload rest (length payload) refl,
    )
