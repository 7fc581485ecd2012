-- ===== src/Mysql/Format.antt =====
-- mysqlport/printer.go, and `SanitizeQuery` of mysqlport/mysql_protocol.go. `trim_space` and `fields`
-- stand for those of package strings.
use tcp_port.Mysql.Message.{MysqlMessage}
use tcp_port.Base.{Bool, List, [], equal, false, if◌then◌else◌, true, ℕ, ◌++◌, ◌==◌, ◌∷◌}
use tcp_port.Base.Slice.{Bytes}
use tcp_port.Base.Text.{codes, dec, join}

-- `strings.ReplaceAll` of one byte.
unfoldable pub replace_all : ℕ → Bytes → Bytes → Bytes
replace_all c new [] = []
replace_all c new (b ∷ bs) =
    if b == c then new ++ replace_all c new bs else b ∷ replace_all c new bs

abbrev has_bytes : Bytes → Bool
has_bytes [] = false
has_bytes (c ∷ cs) = true

module _ (trim_space : Bytes → Bytes) (fields : Bytes → List Bytes) where
  -- `SanitizeQuery`
  unfoldable pub sanitize_query : Bytes → Bytes
  sanitize_query q =
      let lines = replace_all 10 (32 ∷ []) (trim_space q) in
      join (32 ∷ []) (fields (replace_all 9 (32 ∷ []) (replace_all 13 [] lines)))

  abbrev is_kind : MysqlMessage → Bytes → Bool
  is_kind msg name = equal msg.kind name

  -- `FormatMySQLMessage`
  unfoldable pub format_mysql_message : MysqlMessage → Bytes
  format_mysql_message msg =
      let auth =
        if has_bytes msg.auth_plugin
        then codes "  Auth: " ++ (msg.auth_plugin ++ (10 ∷ []))
        else [] in
      let query = if has_bytes msg.query then codes "  " ++ sanitize_query msg.query else [] in
      if is_kind msg (codes "handshake")
      then codes "  Handshake v"
        ++ (dec msg.protocol_version
            ++ (10 ∷ (codes "  Server: " ++ (msg.server_version ++ (10 ∷ auth)))))
      else if is_kind msg (codes "command")
      then codes "  " ++ (msg.command_name ++ (query ++ (10 ∷ [])))
      else if is_kind msg (codes "ok")
      then codes "  OK  rows="
        ++ (dec msg.affected_rows
            ++ (codes "  insert_id=" ++ (dec msg.last_insert_id ++ (10 ∷ []))))
      else if is_kind msg (codes "error")
      then codes "  ERROR "
        ++ (dec msg.error_code
            ++ (codes " (" ++ (msg.sql_state ++ (codes "): " ++ (msg.error_msg ++ (10 ∷ []))))))
      else if is_kind msg (codes "resultset")
      then codes "  ResultSet: " ++ (dec msg.affected_rows ++ (codes " columns" ++ (10 ∷ [])))
      else if is_kind msg (codes "eof")
      then codes "  EOF" ++ (10 ∷ [])
      else codes "  " ++ (msg.summary ++ (10 ∷ []))

  -- `FormatMySQLURL`
  unfoldable pub format_mysql_url : MysqlMessage → Bytes
  format_mysql_url msg =
      if is_kind msg (codes "command")
      then (if has_bytes msg.query then sanitize_query msg.query else msg.command_name) ++ (10 ∷ [])
      else if is_kind msg (codes "error")
      then codes "ERROR " ++ (dec msg.error_code ++ (codes ": " ++ (msg.error_msg ++ (10 ∷ []))))
      else if is_kind msg (codes "handshake")
      then codes "Handshake " ++ (msg.server_version ++ (10 ∷ []))
      else msg.summary ++ (10 ∷ [])
