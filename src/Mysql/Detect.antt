-- ===== src/Mysql/Detect.antt =====
-- `DetectMySQL` of mysqlport/mysql_protocol.go.
use tcp_port.Base.{Bool, false, if◌then◌else◌, leb, length, ltb, ℕ, ◌&&◌, ◌+◌, ◌==◌, ◌||◌}
use tcp_port.Base.Slice.{Bytes, at, cut, le24}
use tcp_port.Mysql.LenEnc.{read_len_enc_int}
use tcp_port.Mysql.Message.{response_eof, response_err, response_ok}
use tcp_port.Base.{arith, true, ◌++◌, ◌-◌, ◌<◌, ◌^◌, ◌∷◌, ◌≡◌, ◌≤◌}
use tcp_port.Base.Slice.{put_le24-le24}
use tcp_port.Mysql.Reader.{encode_packet}

abbrev max_payload_len : ℕ
max_payload_len = 2 ^ 24 - 1

-- The first bytes that handshakes, commands and responses start with.
abbrev is_marker : ℕ → Bool
is_marker b =
    b == 0x0a
    || leb 0x01 b && leb b 0x1f
    || b == response_ok
    || b == response_eof
    || b == response_err

abbrev is_column_count : Bytes → Bool
is_column_count payload =
    let (col_count, _) = read_len_enc_int payload 0 in ltb 0 col_count && leb col_count 4096

unfoldable pub detect_mysql : Bytes → Bool
detect_mysql bytes =
    let len = le24 bytes 0 in
    if ltb (length bytes) 4
    then false
    else if len == 0 || ltb max_payload_len len
    then false
    else if leb (4 + len) (length bytes)
    then is_marker (at bytes 4) || is_column_count (cut bytes 4 (4 + len))
    else if ltb 4 (length bytes)
    then is_marker (at bytes 4)
    else false

-- Every packet with a command from 0x01 to 0x1f is taken for MySQL, whatever follows it, and so is
-- one of which not all has come. The payload fits the 24-bit length.
pub detect_mysql-encode_packet :
    (sequence_id command : ℕ) (rest more : Bytes)
    → length (command ∷ rest) < 2 ^ 24
    → 1 ≤ command
    → command ≤ 0x1f
    → detect_mysql (encode_packet sequence_id (command ∷ rest) ++ more) ≡ true
unfolding detect_mysql
detect_mysql-encode_packet sequence_id command rest more h low high =
    ground (arith, put_le24-le24 (length (command ∷ rest)) (sequence_id ∷ command ∷ rest ++ more) h)
