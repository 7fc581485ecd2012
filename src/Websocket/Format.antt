-- ===== src/Websocket/Format.antt =====
-- websocketport/printer.go. `quote` stands for the verb %q of package fmt.
use tcp_port.Websocket.Frame.{WebSocketMessage}
use tcp_port.Base.{[], equal, if◌then◌else◌, ◌++◌, ◌==◌, ◌||◌, ◌∷◌}
use tcp_port.Base.Slice.{Bytes}
use tcp_port.Base.Text.{codes, dec}
use tcp_port.Websocket.Frame.{op_close}

-- The arrows, in UTF-8.
abbrev arrow : Bytes → Bytes
arrow direction =
    if equal direction (b'S' ∷ 0xe2 ∷ 0x86 ∷ 0x92 ∷ b'C' ∷ []) || equal direction (codes "response")
    then 0xe2 ∷ 0x86 ∷ 0x90 ∷ []
    else 0xe2 ∷ 0x86 ∷ 0x92 ∷ []

abbrev sized : WebSocketMessage → Bytes
sized msg = codes " (" ++ (dec msg.payload_len ++ codes " bytes)")

-- `FormatWebSocketMessage`
unfoldable pub format_websocket_message : (Bytes → Bytes) → WebSocketMessage → Bytes
format_websocket_message quote msg =
    let fin = if msg.fin then codes " [FIN]" else [] in
    let payload =
      if msg.is_text
      then 32 ∷ quote msg.payload
      else if msg.is_binary
      then sized msg
      else if msg.op_code == op_close
      then 32 ∷ msg.payload
      else sized msg in
    codes "  WS "
    ++ (arrow msg.direction ++ (32 ∷ (msg.op_name ++ (fin ++ (payload ++ (10 ∷ []))))))

-- `FormatWebSocketURL`
unfoldable pub format_websocket_url : WebSocketMessage → Bytes
format_websocket_url msg = codes "WS " ++ (msg.summary ++ (10 ∷ []))
