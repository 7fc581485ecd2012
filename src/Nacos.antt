-- ===== src/Nacos.antt =====
-- nacosport/nacos_protocol.go. `trim_space` and `to_lower` stand for those of package strings,
-- `unescape` for `url.QueryUnescape`, `to_int` for the number that `strconv.Atoi` returns, with an
-- error or without, and `scan_int` for `fmt.Sscanf` with the verb %d: the number that is stored.
pub mod Format
pub mod Ends
pub mod Panics
use tcp_port.Base.Reader.{pure, ◌>>=◌, throw, failed, done, panicked}
use tcp_port.Tcp.Assembler.Dict.{insert}
use tcp_port.Base.Text.{contains, has_prefix}
use tcp_port.Base.{
  Bool, List, Option, [], equal, false, if◌then◌else◌, length, ltb, none, not, some, suc, true,
  zero, ℕ, ◌++◌, ◌==◌, ◌∷◌,
}
use tcp_port.Base.Int.{leb_ℤ, ltb_ℤ, negsuc, pos, ℤ}
use tcp_port.Base.Outcome.{Outcome, eof, errorf, fail, ok}
use tcp_port.Base.Reader.{Read, Reading, lift, read_full, read_string}
use tcp_port.Base.Slice.{Bytes}
use tcp_port.Base.Text.{codes, dec_ℤ, split_first, trim_line}
use tcp_port.Http.{http_methods, is_method, scanned}
use tcp_port.Redis.{max_alloc}
use tcp_port.Redis.Format.{second}

pub record NacosMessage : Type 0 where
  pub method : Bytes
  pub path : Bytes
  pub api_type : Bytes
  pub params : List (Bytes × Bytes)
  pub body : Bytes
  pub status_code : ℤ
  pub is_json : Bool
  pub summary : Bytes
  pub direction : Bytes

-- `classifyNacosPath`
unfoldable pub classify_nacos_path : Bytes → Bytes
classify_nacos_path p =
    if contains p (codes "/instance/beat")
    then codes "heartbeat"
    else if contains p (codes "/instance/list")
    then codes "discovery"
    else if contains p (codes "/instance")
    then codes "service"
    else if contains p (codes "/cs/configs")
    then codes "config"
    else if contains p (codes "/service/list")
    then codes "service_list"
    else if contains p (codes "/auth/login")
    then codes "auth"
    else if contains p (codes "/nacos/v2/")
    then codes "nacos2"
    else codes "nacos"

abbrev pub blank_message : Bytes → NacosMessage
blank_message direction = record {
  method = [];
  path = [];
  api_type = [];
  params = [];
  body = [];
  status_code = pos 0;
  is_json = false;
  summary = [];
  direction = direction;
}

-- `strings.Split` at one byte.
abbrev cons_first : ℕ → List Bytes → List Bytes
cons_first b [] = (b ∷ []) ∷ []
cons_first b (s ∷ ss) = (b ∷ s) ∷ ss

unfoldable pub split : ℕ → Bytes → List Bytes
split c [] = [] ∷ []
split c (b ∷ bs) = if b == c then [] ∷ split c bs else cons_first b (split c bs)

-- The line at its first space, with what is up to the next space, if there is one.
abbrev pub second_part : Bytes → Option (Bytes × Bytes) → Bytes
second_part rest none = rest
second_part rest (some p) = p.0

-- `buildSummary`
unfoldable pub build_summary : NacosMessage → Bytes
build_summary msg =
    if equal msg.method (codes "GRPC")
    then codes "[Nacos 2.x gRPC]"
    else if not (length msg.method == 0)
    then codes "[Nacos "
      ++ (msg.api_type ++ (codes "] " ++ (msg.method ++ (codes " " ++ msg.path))))
    else if ltb_ℤ (pos 0) msg.status_code
    then codes "[Nacos] HTTP "
      ++ (dec_ℤ msg.status_code
          ++ (codes " ("
              ++ ((if leb_ℤ (pos 400) msg.status_code then codes "error" else codes "ok")
                  ++ codes ")")))
    else codes "[Nacos]"

-- What the headers say of the body.
pub record Head : Type 0 where
  pub content_length : ℤ
  pub content_type : Bytes

module _ (trim_space to_lower : Bytes → Bytes) (unescape : Bytes → Option Bytes)
    (to_int : Bytes → ℤ) (scan_int : Bytes → Option ℤ) where
  abbrev unescaped : Option Bytes → Bytes
  unescaped none = []
  unescaped (some v) = v

  abbrev put_pair : Bytes → Option (Bytes × Bytes) → List (Bytes × Bytes) → List (Bytes × Bytes)
  put_pair pair none m = insert pair [] m
  put_pair pair (some p) m = insert p.0 (unescaped (unescape p.1)) m

  unfoldable pub put_pairs : List Bytes → List (Bytes × Bytes) → List (Bytes × Bytes)
  put_pairs [] m = m
  put_pairs (pair ∷ pairs) m =
      put_pairs pairs (if length pair == 0 then m else put_pair pair (split_first b'=' pair) m)

  -- `parseQueryParams`
  unfoldable pub parse_query_params : List (Bytes × Bytes) → Bytes → List (Bytes × Bytes)
  parse_query_params m query = put_pairs (split b'&' query) m

  -- The path of a request and its query.
  abbrev with_path : Bytes → Option (Bytes × Bytes) → NacosMessage → NacosMessage
  with_path raw none msg = record msg { path = raw; api_type = classify_nacos_path raw }
  with_path raw (some p) msg = record msg {
    path = p.0;
    params = parse_query_params msg.params p.1;
    api_type = classify_nacos_path p.0;
  }

  -- What is at the first space of the first line makes a request, a response, or an error.
  abbrev pub message_of : Bytes → Bytes → Option (Bytes × Bytes) → Outcome NacosMessage
  message_of direction line none = fail (errorf (codes "malformed HTTP line: " ++ line))
  message_of direction line (some p) =
      let second = second_part p.1 (split_first 32 p.1) in
      if is_method p.0 http_methods
      then ok (
          with_path second (split_first b'?' second)
            (record (blank_message direction) { method = p.0 }))
      else if has_prefix p.0 (codes "HTTP/")
      then ok (record (blank_message direction) { status_code = scanned (scan_int second) })
      else fail (errorf (codes "not HTTP: " ++ line))

  -- A header, unless it has no colon or starts with it.
  abbrev pub set_field : Bytes → Bytes → Head → Head
  set_field key val h =
      if equal key (codes "content-length")
      then record h { content_length = to_int val }
      else if equal key (codes "content-type")
      then record h { content_type = to_lower val }
      else h

  abbrev pub put_head : Option (Bytes × Bytes) → Head → Head
  put_head none h = h
  put_head (some ([], value)) h = h
  put_head (some (c ∷ name, value)) h =
      set_field (to_lower (trim_space (c ∷ name))) (trim_space value) h

  -- A round of the loop over the headers, given the next: the loop ends at an empty line, or at an
  -- error.
  abbrev pub after_head : (Head → Read Head) → Head → Reading Bytes → Reading Head
  after_head next h (done l r) =
      if length (trim_line l) == 0
      then done h r
      else next (put_head (split_first b':' (trim_line l)) h) r
  after_head next h (failed e r) = done h r
  after_head next h panicked = panicked

  -- The loop over the headers, with a bound on its rounds.
  unfoldable pub read_head : ℕ → Head → Read Head
  read_head zero h r = panicked
  read_head (suc n) h r = after_head (read_head n) h (read_string 10 r)

  abbrev pub set_body : Head → Bytes → NacosMessage → NacosMessage
  set_body h body msg = record msg {
    body = body;
    params =
        if contains h.content_type (codes "application/x-www-form-urlencoded")
        then parse_query_params msg.params body
        else msg.params;
    is_json = if contains h.content_type (codes "application/json") then true else msg.is_json;
  }

  abbrev pub summed : NacosMessage → NacosMessage
  summed msg = record msg { summary = build_summary msg }

  -- A body that is cut short is left out.
  abbrev pub after_body : Head → NacosMessage → Reading Bytes → Reading NacosMessage
  after_body h msg (done body r) = done (summed (set_body h body msg)) r
  after_body h msg (failed e r) = done (summed msg) r
  after_body h msg panicked = panicked

  -- The body; `make` panics on more bytes than the address space has.
  abbrev pub read_content : Head → NacosMessage → ℤ → Read NacosMessage
  read_content h msg (negsuc n) r = done (summed msg) r
  read_content h msg (pos n) r =
      if n == 0
      then done (summed msg) r
      else if ltb max_alloc n
      then panicked
      else after_body h msg (read_full n r)

  abbrev pub blank_head : Head
  blank_head = record { content_length = pos 0; content_type = [] }

  -- What follows the first line; a header takes a byte at least.
  abbrev pub read_behind : NacosMessage → Read NacosMessage
  read_behind msg r =
      (read_head (suc (length r)) blank_head >>= λ h. read_content h msg h.content_length) r

  -- `readNacosGRPC`
  abbrev pub read_nacos_grpc : Bytes → Read NacosMessage
  read_nacos_grpc direction = read_full 24 >>= λ preface. pure (record (blank_message direction) {
    method = codes "GRPC";
    path = codes "/nacos/v2/grpc";
    api_type = codes "nacos2";
    summary = codes "[Nacos 2.x gRPC] connection established";
  })

  abbrev pub read_nacos_http : Bytes → Read NacosMessage
  read_nacos_http direction = read_string 10 >>= λ l.
      let line = trim_line l in
      if length line == 0
      then throw eof
      else (lift (message_of direction line (split_first 32 line)) >>= read_behind)

  -- `ReadNacosMessage`
  unfoldable pub read_nacos_message : Bytes → Read NacosMessage
  read_nacos_message direction r =
      if has_prefix r (codes "PRI * HTTP/2.0")
      then read_nacos_grpc direction r
      else read_nacos_http direction r
