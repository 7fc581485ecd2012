-- ===== src/Mysql/Client.antt =====
-- `CommandName` and `parseClientPacket` of mysqlport/mysql_protocol.go.
use tcp_port.Base.{
  List, [], if◌then◌else◌, leb, length, none, some, ℕ, ◌++◌, ◌==◌, ◌||◌, ◌∷◌, ◌≡◌, ◌≤◌,
}
use tcp_port.Base.Slice.{Bytes, le32}
use tcp_port.Base.Text.{codes, dec, find_name, hex_byte, shorten}
use tcp_port.Mysql.Message.{MysqlMessage}
use tcp_port.Base.{arith}
use tcp_port.Base.Text.{length-shorten}

abbrev pub com_quit : ℕ
com_quit = 0x01

abbrev pub com_init_db : ℕ
com_init_db = 0x02

abbrev pub com_query : ℕ
com_query = 0x03

abbrev pub com_ping : ℕ
com_ping = 0x0e

abbrev pub com_binlog_dump : ℕ
com_binlog_dump = 0x12

abbrev pub com_register_slave : ℕ
com_register_slave = 0x15

abbrev pub com_stmt_prepare : ℕ
com_stmt_prepare = 0x16

abbrev pub com_stmt_execute : ℕ
com_stmt_execute = 0x17

abbrev pub com_binlog_dump_gtid : ℕ
com_binlog_dump_gtid = 0x1e

unfoldable pub command_names : List (ℕ × Bytes)
command_names =
    (0x00, codes "Sleep")
    ∷ (0x01, codes "Quit")
    ∷ (0x02, codes "InitDB")
    ∷ (0x03, codes "Query")
    ∷ (0x04, codes "FieldList")
    ∷ (0x05, codes "CreateDB")
    ∷ (0x06, codes "DropDB")
    ∷ (0x07, codes "Refresh")
    ∷ (0x08, codes "Shutdown")
    ∷ (0x09, codes "Statistics")
    ∷ (0x0a, codes "ProcessInfo")
    ∷ (0x0b, codes "Connect")
    ∷ (0x0c, codes "ProcessKill")
    ∷ (0x0d, codes "Debug")
    ∷ (0x0e, codes "Ping")
    ∷ (0x0f, codes "Time")
    ∷ (0x10, codes "DelayedInsert")
    ∷ (0x11, codes "ChangeUser")
    ∷ (0x12, codes "BinlogDump")
    ∷ (0x13, codes "TableDump")
    ∷ (0x14, codes "ConnectOut")
    ∷ (0x15, codes "RegisterSlave")
    ∷ (0x16, codes "StmtPrepare")
    ∷ (0x17, codes "StmtExecute")
    ∷ (0x18, codes "StmtSendLongData")
    ∷ (0x19, codes "StmtClose")
    ∷ (0x1a, codes "StmtReset")
    ∷ (0x1b, codes "SetOption")
    ∷ (0x1c, codes "StmtFetch")
    ∷ (0x1d, codes "Daemon")
    ∷ (0x1e, codes "BinlogDumpGTID")
    ∷ (0x1f, codes "ResetConnection")
    ∷ []

unfoldable pub command_name_of : ℕ → Bytes
command_name_of b = elim (find_name b command_names) [
  | none ↦ codes "UNKNOWN(0x" ++ (hex_byte b ++ codes ")")
  | some name ↦ name
]

-- The `switch` of `parseClientPacket` on a payload `command ∷ rest`.
unfoldable pub parse_command : MysqlMessage → ℕ → Bytes → MysqlMessage
parse_command msg command rest =
    let payload = command ∷ rest in
    let text = shorten 200 rest in
    if command == com_query
    then record msg { query = text; summary = codes "Query: " ++ text }
    else if command == com_stmt_prepare
    then record msg { query = text; summary = codes "Prepare: " ++ text }
    else if command == com_stmt_execute
    then (if leb 5 (length payload)
        then record msg { summary = codes "Execute stmt_id=" ++ dec (le32 payload 1) }
        else msg)
    else if command == com_init_db
    then record msg { query = rest; summary = codes "Use DB: " ++ rest }
    else if command == com_quit
    then record msg { summary = codes "Quit" }
    else if command == com_ping
    then record msg { summary = codes "Ping" }
    else if command == com_binlog_dump || command == com_binlog_dump_gtid
    then record msg { summary = codes "BinlogDump" }
    else if command == com_register_slave
    then record msg { summary = codes "RegisterSlave" }
    else record msg { summary = msg.command_name }

unfoldable pub parse_client_payload : MysqlMessage → Bytes → MysqlMessage
parse_client_payload msg [] = msg
parse_client_payload msg (command ∷ rest) =
    let named = record msg {
      command = command;
      command_name = command_name_of command;
      kind = codes "command";
    } in
    parse_command named command rest

abbrev pub parse_client_packet : MysqlMessage → MysqlMessage
parse_client_packet msg = parse_client_payload msg msg.packet.payload

-- Of any payload at least the command is kept: a client message with a payload is a command, with
-- the first byte for its code, and the text of a query is at most 203 bytes long.
pub parse_client_payload-command :
    (msg : MysqlMessage) (command : ℕ) (rest : Bytes)
    → let m = parse_client_payload msg (command ∷ rest) in
      (m.command ≡ command)
      × (m.kind ≡ codes "command")
      × (m.command_name ≡ command_name_of command)
      × (command ≡ com_query → length m.query ≤ 203)
unfolding parse_client_payload parse_command
parse_client_payload-command msg command rest = ground (arith, length-shorten 200 rest)
