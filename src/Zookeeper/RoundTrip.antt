-- ===== src/Zookeeper/RoundTrip.antt =====
-- Which messages `DetectZK` accepts, and that `ReadZKMessage` reads them.
use tcp_port.Base.{
  arith, length, length-append, take-append, true, ℕ, ◌++◌, ◌+◌, ◌<◌, ◌^◌, ◌↔◌, ◌≡◌, ◌≤◌, ◌⊎◌,
}
use tcp_port.Base.Int.{negsuc, pos, to_int32, ℤ}
use tcp_port.Base.Reader.{done}
use tcp_port.Base.Slice.{Bytes, put_be32, put_be32-be32}
use tcp_port.Base.Text.{codes}
use tcp_port.Zookeeper.{
  ZkRequest, extract_first_string, is_valid_type, max_zk_message_size, opcode_names,
  read_zk_message, request,
}
use tcp_port.Base.{[], drop, take, ◌-◌, ◌∷◌}
use tcp_port.Base.Int.{pos_part}
use tcp_port.Base.Reader.{read_full-append}
use tcp_port.Zookeeper.{detect_zk, int32_at, parse_zk_message, parse_zk_request}
use tcp_port.Base.{ap, equal, length-drop, length-take, refl, take-append-drop, ◌∙◌}
use tcp_port.Base.Slice.{be32}
use tcp_port.Base.Cuts.{get_or-take}
use tcp_port.Base.Text.{find_name_ℤ}
use tcp_port.Base.Cuts.{drop-drop}

-- The opcodes: -1, 1 to 9, 11 to 16 and 20.
abbrev pub IsOpcode : ℤ → Type 0
IsOpcode (pos n) = ((1 ≤ n) × (n ≤ 9)) ⊎ (((11 ≤ n) × (n ≤ 16)) ⊎ (n ≡ 20))
IsOpcode (negsuc n) = n ≡ 0

-- The valid message types are -1, 1 to 9, 11 to 16 and 20, so 10 is none of them.
pub is_valid_type_iff : (t : ℤ) → (is_valid_type t ≡ true) ↔ IsOpcode t
unfolding is_valid_type find_name_ℤ opcode_names
is_valid_type_iff (pos n) = ground arith
is_valid_type_iff (negsuc n) = ground arith

-- The bytes of a request with a path and more arguments behind it.
abbrev pub encode_request : ℕ → ℕ → Bytes → Bytes → Bytes
encode_request xid kind path args =
    put_be32 (16 + length path + length args)
    ++ (put_be32 xid ++ (put_be32 kind ++ (put_be32 (length path) ++ (path ++ args))))

extract_first_string-append :
    (path args : Bytes)
    → length path < 2 ^ 31
    → extract_first_string (put_be32 (length path) ++ (path ++ args)) ≡ path
unfolding extract_first_string
extract_first_string-append path args h = ground (
  arith,
  put_be32-be32 (length path) (path ++ args),
  length-append path args,
  take-append path args,
)

-- A header and a body of the length that the header gives are read.
read_zk_message-append :
    (direction header body rest : Bytes) (len : ℕ)
    → length header ≡ 12
    → int32_at header 0 ≡ pos len
    → 12 ≤ len
    → len ≤ max_zk_message_size
    → length body ≡ len - 12
    → read_zk_message direction (header ++ (body ++ rest))
      ≡ done (parse_zk_message direction header body) rest
unfolding read_zk_message
read_zk_message-append direction header [] rest len h e low high k =
    ground (arith, read_full-append header rest 12)
read_zk_message-append direction header (b ∷ bs) rest len h e low high k = ground (
  arith,
  read_full-append header ((b ∷ bs) ++ rest) 12,
  read_full-append (b ∷ bs) rest (len - 12),
)

-- The bytes that the first four bytes announce are read as one message, and the others are left.
abbrev pub IsRead : Bytes → Bytes → Type 0
IsRead direction s =
    let len = pos_part (int32_at s 0) in
    (12 ≤ len)
    × (len ≤ length s)
    × (read_zk_message direction s
        ≡ done (parse_zk_message direction (take 12 s) (take (len - 12) (drop 12 s))) (drop len s))

-- Every message that is detected is read, in both directions: the stream has all bytes that the
-- message announces, at least 12, they are taken as the message, the first 12 as its header, and
-- exactly those behind them are left unread.
pub detect_zk-IsRead : (direction s : Bytes) → detect_zk s ≡ true → IsRead direction s
unfolding detect_zk
detect_zk-IsRead direction s h =
    let len = pos_part (int32_at s 0) in
    let header = take 12 s in
    let body = take (len - 12) (drop 12 s) in
    let rest = drop (len - 12) (drop 12 s) in
    let split : header ++ (body ++ rest) ≡ s =
      ap (λ t. header ++ t) (take-append-drop (len - 12) (drop 12 s)) ∙ take-append-drop 12 s in
    let word : be32 header 0 ≡ be32 s 0 =
      rw
        (
          get_or-take 12 s 0 0 (omega arith),
          get_or-take 12 s 1 0 (omega arith),
          get_or-take 12 s 2 0 (omega arith),
          get_or-take 12 s 3 0 (omega arith),
        )
        refl in
    let bounds : (int32_at s 0 ≡ pos len)
        × (12 ≤ len)
        × (len ≤ max_zk_message_size)
        × (len ≤ length s) =
      ground arith in
    let read =
      read_zk_message-append direction header body rest len (ground (arith, length-take 12 s))
        (ground (arith, word)) bounds.1 bounds.2
        (ground (arith, length-take (len - 12) (drop 12 s), length-drop 12 s)) in
    let behind : rest ≡ drop len s =
      drop-drop 12 (len - 12) s ∙ ap (λ n. drop n s) (omega (arith, bounds.1)) in
    (bounds.1, bounds.3, (rw (split, behind) at read))

-- A request written to the wire, with a path and more arguments, is read back with its number, its
-- type and its path, and what follows it is left unread. The message has at most 1 MB, the number and the type are
-- 32-bit words.
pub read_zk_message-encode_request :
    (xid kind : ℕ) (path args rest : Bytes)
    → xid < 2 ^ 32
    → kind < 2 ^ 32
    → 16 + length path + length args ≤ max_zk_message_size
    → (req : ZkRequest) × (read_zk_message
          (codes "C->S")
          (encode_request xid kind path args ++ rest)
        ≡ done (request req) rest)
      × (req.xid ≡ to_int32 xid)
      × (req.kind ≡ to_int32 kind)
      × (req.path ≡ path)
      × (req.len ≡ pos (16 + length path + length args))
unfolding parse_zk_message parse_zk_request equal
read_zk_message-encode_request xid kind path args rest h k l =
    let size = 16 + length path + length args in
    let header = put_be32 size ++ (put_be32 xid ++ put_be32 kind) in
    let body = put_be32 (length path) ++ (path ++ args) in
    let req =
      parse_zk_request (int32_at header 0) (int32_at header 4) (int32_at header 8) body
        (codes "C->S") in
    let len : int32_at header 0 ≡ pos size = ground (arith, put_be32-be32 size []) in
    let size_body : length body ≡ size - 12 = ground (arith, length-append path args) in
    let read =
      read_zk_message-append (codes "C->S") header body rest size refl len (omega arith) l
        size_body in
    (
      req,
      read,
      ap to_int32 (put_be32-be32 xid [] h),
      ap to_int32 (put_be32-be32 kind [] k),
      extract_first_string-append path args (omega (arith, l)),
      len,
    )
