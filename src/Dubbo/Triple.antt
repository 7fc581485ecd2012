-- ===== src/Dubbo/Triple.antt =====
-- dubboport/triple_protocol.go: frame headers, gRPC messages and paths.
use tcp_port.Base.Outcome.{◌>>=◌}
use tcp_port.Base.{
  All, Bool, Option, [], equal, false, if◌then◌else◌, leb, length, ltb, none, some, take, ℕ, ◌%◌,
  ◌&&◌, ◌*◌, ◌++◌, ◌+◌, ◌<◌, ◌==◌, ◌^◌, ◌∷◌, ◌≡◌, ◌≢◌,
}
use tcp_port.Base.Outcome.{Outcome, errorf, fail, ok}
use tcp_port.Base.Slice.{Bytes, at, be16, be32, put_be32, slice}
use tcp_port.Base.Text.{codes, dec, find_name, hex}
use tcp_port.Base.{arith, length-append, refl, take-append}
use tcp_port.Base.Slice.{put_be32-be32}

pub record Http2FrameHeader : Type 0 where
  pub len : ℕ
  pub kind : ℕ
  pub flags : ℕ
  pub stream_id : ℕ

abbrev pub http2_frame_header_size : ℕ
http2_frame_header_size = 9

unfoldable pub parse_http2_frame_header : Bytes → Outcome Http2FrameHeader
parse_http2_frame_header s =
    if ltb (length s) http2_frame_header_size
    then fail
        (errorf (codes "HTTP/2 frame header too short: " ++ (dec (length s) ++ codes " bytes")))
    else ok (record {
      len = at s 0 * 2 ^ 16 + be16 s 1;
      kind = at s 3;
      flags = at s 4;
      stream_id = be32 s 5 % 2 ^ 31;
    })

-- "PRI * HTTP/2.0\r\n\r\nSM\r\n\r\n"
abbrev http2_preface : Bytes
http2_preface =
    codes "PRI * HTTP/2.0" ++ (13 ∷ 10 ∷ 13 ∷ 10 ∷ codes "SM" ++ (13 ∷ 10 ∷ 13 ∷ 10 ∷ []))

unfoldable pub is_triple_preface : Bytes → Bool
is_triple_preface s =
    leb (length http2_preface) (length s) && equal (take (length http2_preface) s) http2_preface

unfoldable pub detect_triple : Bytes → Bool
detect_triple s = if ltb (length s) 24 then false else is_triple_preface s

unfoldable pub frame_type_string : ℕ → Bytes
frame_type_string ft =
    elim (find_name ft (
      (0, codes "DATA")
      ∷ (1, codes "HEADERS")
      ∷ (2, codes "PRIORITY")
      ∷ (3, codes "RST_STREAM")
      ∷ (4, codes "SETTINGS")
      ∷ (5, codes "PUSH_PROMISE")
      ∷ (6, codes "PING")
      ∷ (7, codes "GOAWAY")
      ∷ (8, codes "WINDOW_UPDATE")
      ∷ (9, codes "CONTINUATION")
      ∷ [])) [ none ↦ codes "UNKNOWN(0x" ++ (hex ft ++ codes ")") | some name ↦ name ]

pub record GrpcMessageFrame : Type 0 where
  pub compressed : Bool
  pub len : ℕ
  pub payload : Bytes

-- `5+length` is a number of 32 bits in the slice and in the message, and an int in the guard.
unfoldable pub parse_grpc_message : Bytes → Outcome GrpcMessageFrame
parse_grpc_message s =
    let len = be32 s 1 in
    let end = (5 + len) % 2 ^ 32 in
    if ltb (length s) 5
    then fail (errorf (codes "gRPC frame too short: " ++ (dec (length s) ++ codes " bytes")))
    else if ltb (length s) (5 + len)
    then fail (
        errorf (
          codes "gRPC frame payload too short: need "
          ++ (dec end ++ (codes ", got " ++ dec (length s)))))
    else slice s 5 end >>= λ payload.
        ok (record { compressed = at s 0 == 1; len = len; payload = payload })

-- `strings.LastIndex(path, "/")`: the bytes before and behind the last slash, if there is one.
unfoldable pub split_last : Bytes → Option (Bytes × Bytes)
split_last [] = none
split_last (c ∷ cs) = elim (split_last cs) [
  | none ↦ if c == b'/' then some ([], cs) else none
  | some parts ↦ some (c ∷ parts.0, parts.1)
]

-- `strings.TrimPrefix(path, "/")`
abbrev pub trim_slash : Bytes → Bytes
trim_slash [] = []
trim_slash (c ∷ cs) = if c == b'/' then cs else c ∷ cs

unfoldable pub parse_triple_path : Bytes → Bytes × Bytes
unfolding split_last
parse_triple_path path = elim (split_last (trim_slash path)) [
  | none ↦ (trim_slash path, [])
  | some parts ↦ parts
]

-- A gRPC message written with its prefix is read back, and what follows it is not part of it. The
-- message and its prefix have fewer than 2 ^ 32 bytes.
pub parse_grpc_message-encode :
    (compressed : Bool) (payload rest : Bytes)
    → length payload + 5 < 2 ^ 32
    → parse_grpc_message
        ((if compressed then 1 else 0) ∷ put_be32 (length payload) ++ (payload ++ rest))
      ≡ ok (record { compressed = compressed; len = length payload; payload = payload })
unfolding parse_grpc_message slice
parse_grpc_message-encode compressed payload rest h = ground (
  arith,
  put_be32-be32 (length payload) (payload ++ rest),
  length-append payload rest,
  take-append payload rest,
)

split_last-none : (s : Bytes) → All (λ c. c ≢ b'/') s → split_last s ≡ none
unfolding split_last
split_last-none [] h = refl
split_last-none (c ∷ cs) h = ground (arith, split_last-none cs h.1, h.0)

split_last-append :
    (service method : Bytes)
    → All (λ c. c ≢ b'/') method
    → split_last (service ++ b'/' ∷ method) ≡ some (service, method)
unfolding split_last
split_last-append [] method h = rw (split_last-none method h) refl
split_last-append (c ∷ service) method h = rw (split_last-append service method h) refl

-- The path of a method is split at its last slash: into the service, which may have slashes, and
-- the method, which has none.
pub parse_triple_path-join :
    (service method : Bytes)
    → All (λ c. c ≢ b'/') method
    → parse_triple_path (b'/' ∷ service ++ b'/' ∷ method) ≡ (service, method)
unfolding parse_triple_path
parse_triple_path-join service method h = rw (split_last-append service method h) refl
