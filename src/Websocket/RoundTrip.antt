-- ===== src/Websocket/RoundTrip.antt =====
-- Frames that `ReadWebSocketMessage` reads back, and frames that it refuses or panics on.
use tcp_port.Base.Reader.{◌>>=◌, pure}
use tcp_port.Base.Int.{to_int64}
use tcp_port.Base.{
  [], arith, if◌then◌else◌, length, ltb, refl, suc, zero, ℕ, ◌%◌, ◌*◌, ◌+◌, ◌/◌, ◌<◌, ◌^◌, ◌∷◌, ◌≡◌,
}
use tcp_port.Base.Slice.{Bytes, IsBytes, at, put_be16, put_be64}
use tcp_port.Websocket.Frame.{unmask_from, xor}
use tcp_port.Base.{leb, ◌++◌, ◌≤◌}
use tcp_port.Base.Reader.{done}
use tcp_port.Websocket.Frame.{read_length}
use tcp_port.Base.{Bool}
use tcp_port.Websocket.Frame.{unmask}
use tcp_port.Base.{false}
use tcp_port.Base.Reader.{read_full-append}
use tcp_port.Websocket.Frame.{make_message, read_mask_key, read_payload, read_rest}
use tcp_port.Base.{◌∙◌}
use tcp_port.Base.Reader.{bind-done}
use tcp_port.Base.{◌⊎◌}
use tcp_port.Base.Outcome.{errorf}
use tcp_port.Base.Reader.{failed, panicked}
use tcp_port.Base.Text.{codes, dec}
use tcp_port.Websocket.Frame.{read_websocket_message}
use tcp_port.Base.Reader.{read_full}
use tcp_port.Base.Reader.{wrap_error, wrap_error-done}
use tcp_port.Base.Slice.{put_be64-be64}

xor-lt : (n a b : ℕ) → xor n a b < 2 ^ n
unfolding xor
xor-lt zero a b = omega arith
xor-lt (suc n) a b = omega (arith, xor-lt n (a / 2) (b / 2))

-- Masking twice with the same key gives the byte back.
xor-xor : (n a b : ℕ) → a < 2 ^ n → xor n (xor n a b) b ≡ a
unfolding xor
xor-xor zero a b h = omega arith
xor-xor (suc n) a b h =
    let rest = xor n (a / 2) (b / 2) in
    let bit = (a % 2 + b % 2) % 2 in
    let low : (bit + 2 * rest) % 2 ≡ bit = omega arith in
    let high : (bit + 2 * rest) / 2 ≡ rest = omega arith in
    rw (low, high, xor-xor n (a / 2) (b / 2) (omega (arith, h))) (omega arith)

-- Unmasking a masked payload gives the payload back, from any position on. The payload is of bytes.
pub unmask_from-unmask_from :
    (i : ℕ) (key s : Bytes) → IsBytes s → unmask_from i key (unmask_from i key s) ≡ s
unfolding unmask_from
unmask_from-unmask_from i key [] h = refl
unmask_from-unmask_from i key (b ∷ bs) h =
    ground (arith, xor-xor 8 b (at key (i % 4)) h.0, unmask_from-unmask_from (suc i) key bs h.1)

-- The seven bits of a length in the second byte of a frame, and the bytes behind it.
abbrev len7 : ℕ → ℕ
len7 n = if ltb n 126 then n else if ltb n (2 ^ 16) then 126 else 127

abbrev extension : ℕ → Bytes
extension n = if ltb n 126 then [] else if ltb n (2 ^ 16) then put_be16 n else put_be64 n

abbrev top_bit : Bool → ℕ
top_bit b = if b then 128 else 0

-- The frame that carries a payload, masked with a key or not.
abbrev pub encode_frame : Bool → ℕ → Bool → Bytes → Bytes → Bytes
encode_frame fin op masked key payload =
    (top_bit fin + op) ∷ (top_bit masked + len7 (length payload)) ∷ extension (length payload)
    ++ ((if masked then key else []) ++ unmask masked key payload)

read_length-long :
    (n : ℕ) (rest : Bytes)
    → n < 2 ^ 64
    → read_length 127 (put_be64 n ++ rest) ≡ done (to_int64 n) rest
unfolding read_length
read_length-long n rest h =
    ground (arith, read_full-append (put_be64 n) rest 8 refl, put_be64-be64 n [] h)

module _ (quote : Bytes → Bytes) where
  -- The opcodes that the reader accepts.
  abbrev pub IsKnown : ℕ → Type 0
  IsKnown op = (op ≤ 2) ⊎ ((8 ≤ op) × (op ≤ 10))

  read_websocket_message-header :
      (direction : Bytes) (b0 b1 : ℕ) (tail : Bytes)
      → IsKnown (b0 % 16)
      → read_websocket_message quote direction (b0 ∷ b1 ∷ tail)
        ≡ read_rest quote direction b0 b1 tail
  unfolding read_websocket_message
  read_websocket_message-header direction b0 b1 tail h =
      let header = read_full-append (b0 ∷ b1 ∷ []) tail 2 refl in
      bind-done (wrap_error _ (read_full 2)) _ _ _ _ (wrap_error-done _ (read_full 2) _ _ _ header)
      ∙ ground (arith, h)

  read_websocket_message-long :
      (direction : Bytes) (op n : ℕ) (rest : Bytes)
      → IsKnown op
      → n < 2 ^ 64
      → read_websocket_message quote direction (op ∷ 127 ∷ put_be64 n ++ rest)
        ≡ (read_mask_key false >>= λ key. read_payload (to_int64 n) >>= λ payload.
              pure (make_message quote direction false op payload))
            rest
  unfolding read_rest
  read_websocket_message-long direction op n rest h l =
      let code : op % 16 ≡ op = ground (arith, h) in
      let top : leb 128 op ≡ false = ground (arith, h) in
      read_websocket_message-header direction op 127 (put_be64 n ++ rest) (rw code h)
      ∙ bind-done (read_length 127) _ _ _ _ (read_length-long n rest l)
      ∙ rw (code, top) refl

  -- A frame that announces 2 ^ 63 bytes or more makes the reader panic. The opcode is known, and the
  -- frame is not masked.
  pub read_websocket_message-panic :
      (direction : Bytes) (op n : ℕ) (rest : Bytes)
      → IsKnown op
      → 2 ^ 63 ≤ n
      → n < 2 ^ 64
      → read_websocket_message quote direction (op ∷ 127 ∷ put_be64 n ++ rest) ≡ panicked
  unfolding read_mask_key read_payload
  read_websocket_message-panic direction op n rest h k l =
      read_websocket_message-long direction op n rest h l ∙ ground arith

  -- A frame that announces more than 65536 bytes, but fewer than 2 ^ 63, is refused, and none of its
  -- payload is read. The opcode is known, and the frame is not masked.
  pub read_websocket_message-failed :
      (direction : Bytes) (op n : ℕ) (rest : Bytes)
      → IsKnown op
      → 65536 < n
      → n < 2 ^ 63
      → read_websocket_message quote direction (op ∷ 127 ∷ put_be64 n ++ rest)
        ≡ failed (errorf (codes "websocket: payload too large: " ++ (dec n ++ codes " bytes"))) rest
  unfolding read_mask_key read_payload
  read_websocket_message-failed direction op n rest h k l =
      read_websocket_message-long direction op n rest h (omega (arith, l)) ∙ ground arith
