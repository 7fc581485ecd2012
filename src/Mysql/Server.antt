-- ===== src/Mysql/Server.antt =====
-- `parseServerPacket` of mysqlport/mysql_protocol.go.
pub mod Kinds
use tcp_port.Base.Outcome.{◌>>=◌}
use tcp_port.Base.{
  [], drop, if◌then◌else◌, leb, length, ltb, not, suc, zero, ℕ, ◌&&◌, ◌++◌, ◌+◌, ◌-◌, ◌==◌, ◌||◌,
  ◌∷◌, ◌≡◌,
}
use tcp_port.Base.Outcome.{Outcome, ok, panic}
use tcp_port.Base.Slice.{Bytes, at, cut, le16, slice, slice_from}
use tcp_port.Base.Text.{codes, dec}
use tcp_port.Mysql.LenEnc.{read_len_enc_int}
use tcp_port.Mysql.Message.{MysqlMessage, response_eof, response_err, response_ok}
use tcp_port.Base.Slice.{until_zero}

-- `for end > pos && payload[end] != 0x00 { end-- }`
pub last_zero : Bytes → ℕ → ℕ → ℕ
last_zero payload i zero = 0
last_zero payload i (suc end) =
    let back = last_zero payload i end in
    if leb (suc end) i then suc end else if at payload (suc end) == 0 then suc end else back

unfoldable pub find_auth_plugin : Bytes → ℕ → Bytes
unfolding last_zero
find_auth_plugin payload i =
    let len = length payload in
    let end = last_zero payload i (len - 1) in
    if ltb (i + 13) len && ltb i end && ltb end (len - 1) then cut payload (end + 1) len else []

unfoldable pub parse_handshake : MysqlMessage → Bytes → MysqlMessage
unfolding until_zero find_auth_plugin
parse_handshake msg payload =
    let end = 1 + until_zero (drop 1 payload) in
    let version = cut payload 1 end in
    let plugin = find_auth_plugin payload (end + 1) in
    record msg {
      kind = codes "handshake";
      protocol_version = at payload 0;
      server_version = version;
      auth_plugin = plugin;
      summary =
          codes "Handshake: MySQL " ++ (version ++ (codes " (plugin=" ++ (plugin ++ codes ")")));
    }

unfoldable pub parse_ok : MysqlMessage → Bytes → MysqlMessage
parse_ok msg payload =
    let (rows, i) = read_len_enc_int payload 1 in
    let (insert_id, j) = read_len_enc_int payload i in
    if ltb (length payload) 7
    then record msg { kind = codes "ok"; summary = codes "OK" }
    else record msg {
      kind = codes "ok";
      affected_rows = rows;
      last_insert_id = insert_id;
      status_flags = if ltb (j + 1) (length payload) then le16 payload j else msg.status_flags;
      summary =
          codes "OK (rows=" ++ (dec rows ++ (codes ", insert_id=" ++ (dec insert_id ++ codes ")")));
    }

-- The part of an ERR packet behind the error code: the SQL state, if it is marked, and the text.
unfoldable pub parse_error_text : MysqlMessage → Bytes → Outcome MysqlMessage
parse_error_text msg payload =
    if not (ltb 3 (length payload))
    then ok msg
    else if at payload 3 == b'#'
    then (slice payload 4 9 >>= λ state.
        slice_from payload 9 >>= λ text. ok (record msg { sql_state = state; error_msg = text }))
    else ok (record msg { error_msg = drop 3 payload })

abbrev error_summary : MysqlMessage → MysqlMessage
error_summary m = record m {
  summary =
      codes "ERROR "
      ++ (dec m.error_code ++ (codes " (" ++ (m.sql_state ++ (codes "): " ++ m.error_msg))));
}

unfoldable pub parse_err : MysqlMessage → Bytes → Outcome MysqlMessage
parse_err msg payload =
    let code = if leb 3 (length payload) then le16 payload 1 else msg.error_code in
    parse_error_text (record msg { kind = codes "error"; error_code = code }) payload >>= λ m.
    ok (error_summary m)

unfoldable pub parse_eof : MysqlMessage → Bytes → MysqlMessage
parse_eof msg payload = record msg {
  kind = codes "eof";
  status_flags = if leb 5 (length payload) then le16 payload 3 else msg.status_flags;
  summary = codes "EOF";
}

unfoldable pub parse_result_set : MysqlMessage → Bytes → MysqlMessage
parse_result_set msg payload =
    let (col_count, _) = read_len_enc_int payload 0 in
    if ltb 0 col_count && ltb col_count 10000
    then record msg {
      kind = codes "resultset";
      affected_rows = col_count;
      summary = codes "ResultSet: " ++ (dec col_count ++ codes " columns");
    }
    else record msg {
      kind = codes "unknown";
      summary = dec (length payload) ++ codes " bytes payload";
    }

unfoldable pub parse_server_payload : MysqlMessage → Bytes → Outcome MysqlMessage
parse_server_payload msg [] = ok msg
parse_server_payload msg (first ∷ rest) =
    let payload = first ∷ rest in
    if first == 0x0a && ltb 4 (length payload)
    then ok (parse_handshake msg payload)
    else if first == response_ok || first == response_eof
    then ok (parse_ok msg payload)
    else if first == response_err
    then parse_err msg payload
    else if first == response_eof
    then ok (parse_eof msg payload)
    else ok (parse_result_set msg payload)

abbrev pub parse_server_packet : MysqlMessage → Outcome MysqlMessage
parse_server_packet msg = parse_server_payload msg msg.packet.payload
