-- ===== src/Dubbo/Header.antt =====
-- `DubboHeader`, `ParseDubboHeader` and `fixupFlags` of dubboport/dubbo_protocol.go.
use tcp_port.Base.{
  Bool, false, if◌then◌else◌, leb, length, ltb, not, true, ℕ, ◌%◌, ◌&&◌, ◌++◌, ◌/◌, ◌<◌, ◌==◌, ◌^◌,
  ◌||◌, ◌∷◌, ◌≡◌,
}
use tcp_port.Base.Outcome.{Outcome, errorf, fail, ok}
use tcp_port.Base.Slice.{Bytes, at, be16, be32, be64, put_be16, put_be32, put_be64}
use tcp_port.Base.Text.{codes, dec, hex_byte}
use tcp_port.Base.{[], arith}
use tcp_port.Base.Slice.{put_be32-be32, put_be64-be64}

pub record DubboHeader : Type 0 where
  pub magic : ℕ
  pub flag : ℕ
  pub status : ℕ
  pub request_id : ℕ
  pub data_length : ℕ
  pub serialization_id : ℕ
  pub is_twoway : Bool
  pub is_event : Bool
  pub is_request : Bool

abbrev pub dubbo_magic_number : ℕ
dubbo_magic_number = 0xdabb

abbrev pub dubbo_header_size : ℕ
dubbo_header_size = 16

-- `flag & 0x20 != 0` and `flag & 0x40 != 0`.
abbrev pub bit_5 : ℕ → Bool
bit_5 flag = flag / 32 % 2 == 1

abbrev pub bit_6 : ℕ → Bool
bit_6 flag = flag / 64 % 2 == 1

unfoldable pub parse_dubbo_header : Bytes → Outcome DubboHeader
parse_dubbo_header s =
    if ltb (length s) dubbo_header_size
    then fail (errorf (codes "dubbo header too short: " ++ (dec (length s) ++ codes " bytes")))
    else if not (be16 s 0 == dubbo_magic_number)
    then fail
        (errorf (codes "not dubbo protocol: magic=0x" ++ (hex_byte (at s 0) ++ hex_byte (at s 1))))
    else ok (record {
      magic = be16 s 0;
      flag = at s 2;
      status = at s 3;
      request_id = be64 s 4;
      data_length = be32 s 12;
      serialization_id = at s 2 % 32;
      is_twoway = bit_5 (at s 2);
      is_event = bit_6 (at s 2);
      is_request = at s 3 == 0;
    })

abbrev differs : Bool → Bool → Bool
differs a b = if a then not b else b

-- The end of `fixupFlags`, for a body of more than 200 bytes.
unfoldable pub prefer_twoway : DubboHeader → Bool → Bool → DubboHeader
prefer_twoway h apache_twoway apache_event =
    if not (ltb 200 h.data_length)
    then h
    else if not (differs apache_twoway h.is_twoway || differs apache_event h.is_event)
    then h
    else if apache_twoway && not h.is_twoway
    then record h { is_twoway = apache_twoway; is_event = apache_event }
    else h

-- In the Apache layout the two bits are swapped.
unfoldable pub fixup_flags : DubboHeader → DubboHeader
fixup_flags h =
    let apache_twoway = bit_6 h.flag in
    let apache_event = bit_5 h.flag in
    if not h.is_request || leb h.data_length 50
    then h
    else if h.is_twoway && not h.is_event
    then h
    else if apache_twoway && not apache_event && ltb 50 h.data_length
    then record h { is_twoway = apache_twoway; is_event = apache_event }
    else prefer_twoway h apache_twoway apache_event

-- The header's bytes on the wire.
abbrev pub encode_header : ℕ → ℕ → ℕ → ℕ → Bytes
encode_header flag status request_id data_length =
    put_be16 dubbo_magic_number ++ (flag ∷ status ∷ put_be64 request_id ++ put_be32 data_length)

-- A header written to the wire is read back, whatever follows it: the flag is split into the
-- serialization, the two-way bit 5 and the event bit 6, and a status of 0 is a request. The
-- request id fits 64 bits and the length of the body 32.
pub parse_dubbo_header-encode_header :
    (flag status request_id data_length : ℕ) (rest : Bytes)
    → request_id < 2 ^ 64
    → data_length < 2 ^ 32
    → parse_dubbo_header (encode_header flag status request_id data_length ++ rest)
      ≡ ok (record {
        magic = dubbo_magic_number;
        flag = flag;
        status = status;
        request_id = request_id;
        data_length = data_length;
        serialization_id = flag % 32;
        is_twoway = bit_5 flag;
        is_event = bit_6 flag;
        is_request = status == 0;
      })
unfolding parse_dubbo_header
parse_dubbo_header-encode_header flag status request_id data_length rest h k =
    rw (put_be64-be64 request_id [] h, put_be32-be32 data_length rest k) (ground arith)

-- What `ParseDubboHeader` has made of the flag.
pub record IsParsed (h : DubboHeader) : Type 0 where
  pub twoway : h.is_twoway ≡ bit_5 h.flag
  pub event : h.is_event ≡ bit_6 h.flag

pub parse_dubbo_header-IsParsed :
    (s : Bytes) (h : DubboHeader) → parse_dubbo_header s ≡ ok h → IsParsed h
unfolding parse_dubbo_header
parse_dubbo_header-IsParsed s h e = record { twoway = ground arith; event = ground arith }

-- The flags of a parsed header are swapped for exactly the requests with a body of more than 50
-- bytes that have bit 6 set and bit 5 clear, and left alone otherwise: the rule for bodies of more
-- than 200 bytes never changes anything.
pub fixup_flags_lem :
    (h : DubboHeader)
    → IsParsed h
    → fixup_flags h ≡ (
        if h.is_request && (ltb 50 h.data_length && (bit_6 h.flag && not (bit_5 h.flag)))
        then record h { is_twoway = true; is_event = false }
        else h)
unfolding fixup_flags prefer_twoway
fixup_flags_lem h parsed = ground (arith, parsed.twoway, parsed.event)
