-- ===== src/Websocket/Ends.antt =====
-- A frame that `ReadWebSocketMessage` (websocketport/websocket_protocol.go) reads takes bytes.
use tcp_port.Base.Leaves.{
  Eats, Eats-bind, Frugal, bind-Frugal, if-Frugal, pure-Frugal, throw-Frugal, wrap_error-Frugal,
  wrapped_full-Eats, lift-Leaves, read_full-Leaves,
}
use tcp_port.Base.Reader.{wrap_error, read_full}
use tcp_port.Websocket.Frame.{read_rest, read_length}
use tcp_port.Base.{
  Bool, [], arith, false, leb, length, ltb, refl, true, ℕ, ◌%◌, ◌&&◌, ◌++◌, ◌==◌, ◌||◌, ◌∷◌,
}
use tcp_port.Base.Int.{negsuc, pos, to_int64, ℤ}
use tcp_port.Base.Outcome.{errorf, panic}
use tcp_port.Base.Slice.{Bytes, at, be16, be64}
use tcp_port.Base.Text.{codes, dec, hex}
use tcp_port.Websocket.Frame.{
  WebSocketMessage, make_message, read_mask_key, read_payload, read_websocket_message, unmask,
}

read_payload-Frugal : (n : ℤ) → Frugal (read_payload n)
unfolding read_payload
read_payload-Frugal (negsuc n) = lift-Leaves panic
read_payload-Frugal (pos n) =
    if-Frugal (ltb 65536 n) _ _
      (throw-Frugal Bytes
        (errorf (codes "websocket: payload too large: " ++ (dec n ++ codes " bytes"))))
      (if-Frugal (n == 0) _ _ (pure-Frugal {A = Bytes} []) (
        wrap_error-Frugal (codes "websocket: failed to read payload") (read_full n)
          (read_full-Leaves n)))

read_length-Frugal : (n : ℕ) → Frugal (read_length n)
unfolding read_length
read_length-Frugal n =
    if-Frugal (n == 126) _ _
      (bind-Frugal
        (wrap_error (codes "websocket: failed to read extended length (16-bit)") (read_full 2)) _
        (wrap_error-Frugal (codes "websocket: failed to read extended length (16-bit)")
          (read_full 2) (read_full-Leaves 2))
        (λ ext. pure-Frugal (pos (be16 ext 0))))
      (if-Frugal (n == 127) _ _
        (bind-Frugal
          (wrap_error (codes "websocket: failed to read extended length (64-bit)") (read_full 8)) _
          (wrap_error-Frugal (codes "websocket: failed to read extended length (64-bit)")
            (read_full 8) (read_full-Leaves 8))
          (λ ext. pure-Frugal (to_int64 (be64 ext 0))))
        (pure-Frugal (pos n)))

read_mask_key-Frugal : (masked : Bool) → Frugal (read_mask_key masked)
unfolding read_mask_key
read_mask_key-Frugal true =
    wrap_error-Frugal (codes "websocket: failed to read mask key") (read_full 4)
      (read_full-Leaves 4)
read_mask_key-Frugal false = pure-Frugal (0 ∷ 0 ∷ 0 ∷ 0 ∷ [])

module _ (quote : Bytes → Bytes) (direction : Bytes) where
  read_rest-Frugal : (b0 b1 : ℕ) → Frugal (read_rest quote direction b0 b1)
  unfolding read_rest
  read_rest-Frugal b0 b1 =
      bind-Frugal (read_length (b1 % 128)) _ (read_length-Frugal (b1 % 128)) (λ len.
        bind-Frugal (read_mask_key (leb 128 b1)) _ (read_mask_key-Frugal (leb 128 b1)) (λ key.
          bind-Frugal (read_payload len) _ (read_payload-Frugal len) (λ payload. pure-Frugal (
            make_message quote direction (leb 128 b0) (b0 % 16)
              (unmask (leb 128 b1) key payload)))))

  -- A frame takes a byte at least.
  pub read_websocket_message-Eats :
      (r : Bytes) → Eats (length r) (read_websocket_message quote direction r)
  unfolding read_websocket_message
  read_websocket_message-Eats r =
      let first = wrap_error (codes "websocket: failed to read header") (read_full 2) in
      Eats-bind (length r) (first r) first _ r refl
        (wrapped_full-Eats 2 (codes "websocket: failed to read header") r (omega arith))
        (λ l.
          let op = at l 0 % 16 in
          if-Frugal (ltb 0xa op || ltb 2 op && ltb op 8) _ _
            (throw-Frugal WebSocketMessage
              (errorf (codes "websocket: invalid opcode 0x" ++ hex op)))
            (read_rest-Frugal (at l 0) (at l 1)))
