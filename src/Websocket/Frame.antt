-- ===== src/Websocket/Frame.antt =====
-- `ReadWebSocketMessage` of websocketport/websocket_protocol.go. `quote` stands for the verb `%q`
-- of package fmt.
use tcp_port.Base.Reader.{◌>>=◌}
use tcp_port.Base.{
  Bool, [], drop, false, if◌then◌else◌, leb, length, ltb, suc, true, zero, ℕ, ◌%◌, ◌&&◌, ◌*◌, ◌++◌,
  ◌+◌, ◌/◌, ◌==◌, ◌||◌, ◌∷◌,
}
use tcp_port.Base.Int.{negsuc, pos, to_int64, ℤ}
use tcp_port.Base.Outcome.{errorf, panic}
use tcp_port.Base.Reader.{Read, lift, pure, read_full, throw, wrap_error}
use tcp_port.Base.Slice.{Bytes, at, be16, be64}
use tcp_port.Base.Text.{codes, dec, hex, shorten}

abbrev pub op_continuation : ℕ
op_continuation = 0x0

abbrev pub op_text : ℕ
op_text = 0x1

abbrev pub op_binary : ℕ
op_binary = 0x2

abbrev pub op_close : ℕ
op_close = 0x8

abbrev pub op_ping : ℕ
op_ping = 0x9

abbrev pub op_pong : ℕ
op_pong = 0xa

unfoldable pub opcode_name : ℕ → Bytes
opcode_name op =
    if op == op_continuation
    then codes "Continuation"
    else if op == op_text
    then codes "Text"
    else if op == op_binary
    then codes "Binary"
    else if op == op_close
    then codes "Close"
    else if op == op_ping
    then codes "Ping"
    else if op == op_pong
    then codes "Pong"
    else codes "Unknown(0x" ++ (hex op ++ codes ")")

pub record WebSocketMessage : Type 0 where
  pub op_code : ℕ
  pub op_name : Bytes
  pub payload_len : ℕ
  pub payload : Bytes
  pub is_text : Bool
  pub is_binary : Bool
  pub is_control : Bool
  pub fin : Bool
  pub direction : Bytes
  pub summary : Bytes

-- `a ^ b` of two numbers below `2 ^ n`.
unfoldable pub xor : ℕ → ℕ → ℕ → ℕ
xor zero a b = 0
xor (suc n) a b = (a % 2 + b % 2) % 2 + 2 * xor n (a / 2) (b / 2)

-- `for i := range payload { payload[i] ^= maskKey[i%4] }` from position `i` on.
unfoldable pub unmask_from : ℕ → Bytes → Bytes → Bytes
unfolding xor
unmask_from i key [] = []
unmask_from i key (b ∷ bs) = xor 8 b (at key (i % 4)) ∷ unmask_from (suc i) key bs

-- The payload, unmasked if the frame is masked.
abbrev pub unmask : Bool → Bytes → Bytes → Bytes
unmask masked key payload = if masked then unmask_from 0 key payload else payload

-- The length behind the first two bytes: the seven bits of it, or what follows as a signed number.
unfoldable pub read_length : ℕ → Read ℤ
read_length len7 =
    if len7 == 126
    then (wrap_error (codes "websocket: failed to read extended length (16-bit)") (read_full 2)
        >>= λ ext. pure (pos (be16 ext 0)))
    else if len7 == 127
    then (wrap_error (codes "websocket: failed to read extended length (64-bit)") (read_full 8)
        >>= λ ext. pure (to_int64 (be64 ext 0)))
    else pure (pos len7)

unfoldable pub read_mask_key : Bool → Read Bytes
read_mask_key masked =
    if masked
    then wrap_error (codes "websocket: failed to read mask key") (read_full 4)
    else pure (0 ∷ 0 ∷ 0 ∷ 0 ∷ [])

-- The payload, not more than 64 KB of it. `make` panics on a negative length.
unfoldable pub read_payload : ℤ → Read Bytes
read_payload (pos n) =
    if ltb 65536 n
    then throw (errorf (codes "websocket: payload too large: " ++ (dec n ++ codes " bytes")))
    else if n == 0
    then pure []
    else wrap_error (codes "websocket: failed to read payload") (read_full n)
read_payload (negsuc n) = lift panic

-- `%v` of a Boolean.
abbrev format_bool : Bool → Bytes
format_bool b = if b then codes "true" else codes "false"

module _ (quote : Bytes → Bytes) where
  -- The `switch opcode` that fills in the text of the message.
  unfoldable pub describe : WebSocketMessage → Bytes → WebSocketMessage
  describe msg payload =
      let op = msg.op_code in
      let sized = msg.op_name ++ (codes " frame: " ++ (dec msg.payload_len ++ codes " bytes")) in
      let text = shorten 200 payload in
      let code = dec (be16 payload 0) in
      let reason = drop 2 payload in
      let quoted = if ltb 2 (length payload) then codes " reason=" ++ quote reason else [] in
      if op == op_text
      then record msg {
        is_text = true;
        payload = text;
        summary = msg.op_name ++ (codes " frame: " ++ quote text);
      }
      else if op == op_binary
      then record msg { is_binary = true; summary = sized }
      else if op == op_close
      then (if leb 2 (length payload)
          then record msg {
            is_control = true;
            payload = codes "code=" ++ (code ++ quoted);
            summary = msg.op_name ++ (codes " frame: code=" ++ (code ++ (codes " " ++ reason)));
          }
          else record msg { is_control = true; summary = msg.op_name ++ codes " frame" })
      else if op == op_ping || op == op_pong
      then record msg { is_control = true; summary = sized }
      else if op == op_continuation
      then record msg { summary = sized ++ (codes " (FIN=" ++ (format_bool msg.fin ++ codes ")")) }
      else record msg { summary = sized }

  -- The message of a frame that has been read.
  unfoldable pub make_message : Bytes → Bool → ℕ → Bytes → WebSocketMessage
  make_message direction fin op payload =
      describe
        (record {
          op_code = op;
          op_name = opcode_name op;
          payload_len = length payload;
          payload = [];
          is_text = false;
          is_binary = false;
          is_control = leb 0x8 op;
          fin = fin;
          direction = direction;
          summary = [];
        })
        payload

  -- What follows the first two bytes of a frame.
  unfoldable pub read_rest : Bytes → ℕ → ℕ → Read WebSocketMessage
  read_rest direction b0 b1 =
      let masked = leb 128 b1 in
      read_length (b1 % 128) >>= λ payload_len. read_mask_key masked >>= λ key.
      read_payload payload_len >>= λ payload.
      pure (make_message direction (leb 128 b0) (b0 % 16) (unmask masked key payload))

  unfoldable pub read_websocket_message : Bytes → Read WebSocketMessage
  read_websocket_message direction =
      wrap_error (codes "websocket: failed to read header") (read_full 2) >>= λ header.
      let op = at header 0 % 16 in
      if ltb 0xa op || ltb 2 op && ltb op 8
      then throw (errorf (codes "websocket: invalid opcode 0x" ++ hex op))
      else read_rest direction (at header 0) (at header 1)
