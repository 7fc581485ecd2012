-- ===== src/Zookeeper.antt =====
-- `zookeeperport/zookeeper_protocol.go`.
use tcp_port.Base.Reader.{◌>>=◌}
pub mod RoundTrip
pub mod Format
use tcp_port.Base.{
  Bool, List, Option, [], equal, false, if◌then◌else◌, leb, length, ltb, none, not, some, true, ℕ,
  ◌&&◌, ◌++◌, ◌+◌, ◌-◌, ◌==◌, ◌^◌, ◌||◌, ◌∷◌,
}
use tcp_port.Base.Int.{eq_ℤ, leb_ℤ, ltb_ℤ, neg_part, negsuc, pos, pos_part, to_int32, to_int64, ℤ}
use tcp_port.Base.Outcome.{errorf}
use tcp_port.Base.Reader.{Read, pure, read_full, throw}
use tcp_port.Base.Slice.{Bytes, be32, be64, cut}
use tcp_port.Base.Text.{codes, dec, dec_ℤ, hex}
use tcp_port.Base.Text.{find_name_ℤ}

unfoldable pub opcode_names : List (ℤ × Bytes)
opcode_names =
    (negsuc 0, codes "notification")
    ∷ (pos 1, codes "create")
    ∷ (pos 2, codes "delete")
    ∷ (pos 3, codes "exists")
    ∷ (pos 4, codes "getData")
    ∷ (pos 5, codes "setData")
    ∷ (pos 6, codes "getACL")
    ∷ (pos 7, codes "setACL")
    ∷ (pos 8, codes "getChildren")
    ∷ (pos 9, codes "sync")
    ∷ (pos 11, codes "ping")
    ∷ (pos 12, codes "getChildren2")
    ∷ (pos 13, codes "check")
    ∷ (pos 14, codes "multi")
    ∷ (pos 15, codes "create2")
    ∷ (pos 16, codes "reconfig")
    ∷ (pos 20, codes "removeWatches")
    ∷ []

unfoldable pub opcode_name : ℤ → Bytes
opcode_name t = elim (find_name_ℤ t opcode_names) [
  | none ↦ codes "unknown(" ++ (dec_ℤ t ++ codes ")")
  | some name ↦ name
]

unfoldable pub is_valid_type : ℤ → Bool
unfolding find_name_ℤ opcode_names
is_valid_type t = elim (find_name_ℤ t opcode_names) [ none ↦ false | some name ↦ true ]

pub record ZkRequest : Type 0 where
  pub len : ℤ
  pub xid : ℤ
  pub kind : ℤ
  pub op_name : Bytes
  pub path : Bytes
  pub summary : Bytes
  pub direction : Bytes

pub record ZkResponse : Type 0 where
  pub len : ℤ
  pub xid : ℤ
  pub zxid : ℤ
  pub err : ℤ
  pub op_name : Bytes
  pub summary : Bytes
  pub direction : Bytes

-- The `interface{}` that `ReadZKMessage` returns.
pub data ZkMessage : Type 0 where
  request : ZkRequest → ZkMessage
  response : ZkResponse → ZkMessage

abbrev pub zk_header_size : ℕ
zk_header_size = 12

abbrev pub max_zk_message_size : ℕ
max_zk_message_size = 2 ^ 20

abbrev pub int32_at : Bytes → ℕ → ℤ
int32_at xs i = to_int32 (be32 xs i)

abbrev pub in_range : ℤ → Bool
in_range len = leb_ℤ (pos zk_header_size) len && leb_ℤ len (pos max_zk_message_size)

unfoldable pub detect_zk : Bytes → Bool
detect_zk s =
    let total_len = int32_at s 0 in
    if ltb (length s) 4
    then false
    else if not (in_range total_len)
    then false
    else if ltb_ℤ total_len (pos 4) || ltb_ℤ (pos (length s)) total_len
    then false
    else if ltb (length s) 12
    then false
    else is_valid_type (int32_at s 8)

unfoldable pub extract_first_string : Bytes → Bytes
extract_first_string body =
    let end = 4 + pos_part (int32_at body 0) in
    if ltb (length body) 4
    then []
    else if ltb_ℤ (int32_at body 0) (pos 0)
    then []
    else if ltb (length body) end
    then []
    else cut body 4 end

-- `%x` of a signed number.
abbrev pub hex_ℤ : ℤ → Bytes
hex_ℤ n = if ltb_ℤ n (pos 0) then b'-' ∷ hex (neg_part n) else hex (pos_part n)

unfoldable pub parse_zk_request : ℤ → ℤ → ℤ → Bytes → Bytes → ZkRequest
unfolding opcode_name extract_first_string
parse_zk_request len xid kind body direction =
    let op_name = opcode_name kind in
    let path = extract_first_string body in
    let id = codes "xid=" ++ dec_ℤ xid in
    let size = codes ", body=" ++ (dec (length body) ++ codes " bytes)") in
    let summary =
      if length path == 0
      then op_name ++ (codes " (" ++ (id ++ size))
      else op_name ++ (codes " " ++ (path ++ (codes " (" ++ (id ++ codes ")")))) in
    record {
      len = len;
      xid = xid;
      kind = kind;
      op_name = op_name;
      path = path;
      summary = summary;
      direction = direction;
    }

unfoldable pub parse_zk_response : ℤ → ℤ → ℤ → Bytes → Bytes → ZkResponse
unfolding opcode_name
parse_zk_response len xid kind body direction =
    let op_name = opcode_name kind in
    let zxid = if leb 12 (length body) then to_int64 (be64 body 0) else pos 0 in
    let err = if leb 12 (length body) then int32_at body 8 else pos 0 in
    let error = if eq_ℤ err (pos 0) then [] else codes ", err=" ++ dec_ℤ err in
    let id = codes ", xid=" ++ (dec_ℤ xid ++ codes ")") in
    record {
      len = len;
      xid = xid;
      zxid = zxid;
      err = err;
      op_name = op_name;
      summary = op_name ++ (codes " response (zxid=0x" ++ (hex_ℤ zxid ++ (error ++ id)));
      direction = direction;
    }

-- What `ReadZKMessage` makes of the header and the body that it has read.
unfoldable pub parse_zk_message : Bytes → Bytes → Bytes → ZkMessage
unfolding parse_zk_request parse_zk_response
parse_zk_message direction header body =
    let total_len = int32_at header 0 in
    let xid = int32_at header 4 in
    let kind = int32_at header 8 in
    if equal direction (codes "C->S")
    then request (parse_zk_request total_len xid kind body direction)
    else response (parse_zk_response total_len xid kind body direction)

-- `if bodyLen > 0 { io.ReadFull(r, body) }`
abbrev read_body : ℕ → Read Bytes
read_body n = if ltb 0 n then read_full n else pure []

unfoldable pub read_zk_message : Bytes → Read ZkMessage
read_zk_message direction = read_full zk_header_size >>= λ header.
    let total_len = int32_at header 0 in
    if not (in_range total_len)
    then throw (errorf (codes "invalid ZK message length: " ++ dec_ℤ total_len))
    else (read_body (pos_part total_len - zk_header_size) >>= λ body.
        pure (parse_zk_message direction header body))
