-- ===== src/Mongo/Bodies.antt =====
-- Which bodies `parseOpInsert` and `parseOpCommand` panic on, and queries that are read back.
use tcp_port.Base.{
  All, [], arith, drop, length, length-drop, refl, ◌++◌, ◌<◌, ◌↔◌, ◌∷◌, ◌≡◌, ◌≢◌, ◌≤◌,
}
use tcp_port.Base.Outcome.{panic}
use tcp_port.Base.Slice.{Bytes, slice}
use tcp_port.Base.{◌+◌}
use tcp_port.Base.Slice.{until_zero, until_zero-le}
use tcp_port.Mongo.{MongoMessage, parse_op_command, parse_op_insert}

until_zero-append :
    (name rest : Bytes) → All (λ b. b ≢ 0) name → until_zero (name ++ 0 ∷ rest) ≡ length name
unfolding until_zero
until_zero-append [] rest h = refl
until_zero-append (b ∷ name) rest h = ground (arith, until_zero-append name rest h.1, h.0)

-- A body has no zero byte exactly when the scan for one ends behind it.
pub until_zero_iff : (s : Bytes) → (until_zero s ≡ length s) ↔ All (λ b. b ≢ 0) s
unfolding until_zero
until_zero_iff [] = (λ e. tt, λ h. refl)
until_zero_iff (b ∷ bs) = ground (arith, until_zero_iff bs, until_zero-le bs)

-- Exactly the OP_INSERT bodies of fewer than four bytes make the parser panic.
pub parse_op_insert-panic_iff :
    (body : Bytes) (msg : MongoMessage) → (parse_op_insert body msg ≡ panic) ↔ (length body < 4)
unfolding parse_op_insert slice
parse_op_insert-panic_iff body msg = ground (arith, until_zero-le (drop 4 body), length-drop 4 body)

-- Exactly the OP_COMMAND bodies of at least eight bytes, none of which is zero, make the parser
-- panic.
pub parse_op_command-panic_iff :
    (body : Bytes) (msg : MongoMessage)
    → (parse_op_command body msg ≡ panic) ↔ ((8 ≤ length body) × All (λ b. b ≢ 0) body)
unfolding parse_op_command slice
parse_op_command-panic_iff body msg =
    let end = until_zero body in
    let behind = drop (end + 1) body in
    ground (
      arith,
      until_zero-le body,
      until_zero_iff body,
      until_zero-le behind,
      length-drop (end + 1) body,
    )
