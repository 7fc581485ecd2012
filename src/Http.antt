-- ===== src/Http.antt =====
-- httpport/http_protocol.go. `trim_space` stands for `strings.TrimSpace`, `to_lower` for
-- `strings.ToLower`, and `scan_int` for `fmt.Sscanf` with the verb %d: the number that is stored, if
-- one is.
pub mod Ends
pub mod RoundTrip
use tcp_port.Base.Reader.{◌>>=◌}
use tcp_port.Tcp.Assembler.Dict.{insert, lookup}
use tcp_port.Base.{
  Bool, List, Option, [], equal, false, if◌then◌else◌, length, none, some, suc, true, zero, ℕ, ◌++◌,
  ◌==◌, ◌∷◌,
}
use tcp_port.Base.Int.{pos, ℤ}
use tcp_port.Base.Outcome.{Outcome, eof, errorf, fail, ok}
use tcp_port.Base.Reader.{Read, done, failed, lift, panicked, pure, read_string, throw}
use tcp_port.Base.Slice.{Bytes}
use tcp_port.Base.Text.{codes, dec_ℤ, has_prefix, split_first, trim_line}
use tcp_port.Base.Reader.{Reading}

pub data Kind : Type 0 where
  request response : Kind

pub record HttpMessage : Type 0 where
  pub kind : Kind
  pub raw_line : Bytes
  pub method : Bytes
  pub path : Bytes
  pub status_code : ℤ
  pub status_text : Bytes
  pub headers : List (Bytes × Bytes)
  pub raw_headers : List Bytes
  pub body_size : ℤ

-- `httpMethods`
unfoldable pub http_methods : List Bytes
http_methods =
    codes "GET"
    ∷ codes "POST"
    ∷ codes "PUT"
    ∷ codes "DELETE"
    ∷ codes "HEAD"
    ∷ codes "OPTIONS"
    ∷ codes "PATCH"
    ∷ codes "TRACE"
    ∷ codes "CONNECT"
    ∷ []

unfoldable pub is_method : Bytes → List Bytes → Bool
is_method s [] = false
is_method s (m ∷ ms) = if equal m s then true else is_method s ms

abbrev pub new_message : Kind → Bytes → HttpMessage
new_message kind line = record {
  kind = kind;
  raw_line = line;
  method = [];
  path = [];
  status_code = pos 0;
  status_text = [];
  headers = [];
  raw_headers = [];
  body_size = pos 0;
}

-- What `fmt.Sscanf` leaves in a variable that was zero.
abbrev pub scanned : Option ℤ → ℤ
scanned none = pos 0
scanned (some n) = n

module _ (trim_space to_lower : Bytes → Bytes) (scan_int : Bytes → Option ℤ) where
  -- The parts of the first line behind its first space: the second, and the third if there is one.
  abbrev pub request_of : Bytes → Bytes → Option (Bytes × Bytes) → Bytes → HttpMessage
  request_of line method none rest = record (new_message request line) {
    method = method;
    path = rest;
  }
  request_of line method (some p) rest = record (new_message request line) {
    method = method;
    path = p.0;
  }

  abbrev pub response_of : Bytes → Option (Bytes × Bytes) → Bytes → HttpMessage
  response_of line none rest = record (new_message response line) {
    status_code = scanned (scan_int rest);
  }
  response_of line (some p) rest = record (new_message response line) {
    status_code = scanned (scan_int p.0);
    status_text = p.1;
  }

  -- What is at the first space of the first line makes a request, a response, or an error.
  abbrev pub parse_parts : Bytes → Option (Bytes × Bytes) → Outcome HttpMessage
  parse_parts line none = fail (errorf (codes "malformed HTTP line: " ++ line))
  parse_parts line (some p) =
      if is_method p.0 http_methods
      then ok (request_of line p.0 (split_first 32 p.1) p.1)
      else if has_prefix p.0 (codes "HTTP/")
      then ok (response_of line (split_first 32 p.1) p.1)
      else fail (errorf (codes "not HTTP: " ++ line))

  unfoldable pub parse_first_line : Bytes → Outcome HttpMessage
  parse_first_line line = parse_parts line (split_first 32 line)

  -- The name and the value of a header, unless it has no colon or starts with it.
  abbrev pub put_field : Option (Bytes × Bytes) → List (Bytes × Bytes) → List (Bytes × Bytes)
  put_field none m = m
  put_field (some ([], value)) m = m
  put_field (some (c ∷ name, value)) m =
      insert (to_lower (trim_space (c ∷ name))) (trim_space value) m

  unfoldable pub add_header : Bytes → HttpMessage → HttpMessage
  add_header line msg = record msg {
    raw_headers = msg.raw_headers ++ (line ∷ []);
    headers = put_field (split_first b':' line) msg.headers;
  }

  -- A round of the loop over the headers, given the next: the loop ends at an empty line, or at an
  -- error.
  abbrev pub after_line :
      (HttpMessage → Read HttpMessage) → HttpMessage → Reading Bytes → Reading HttpMessage
  after_line next msg (done l r) =
      if length (trim_line l) == 0 then done msg r else next (add_header (trim_line l) msg) r
  after_line next msg (failed e r) = done msg r
  after_line next msg panicked = panicked

  -- The loop over the headers, with a bound on its rounds.
  unfoldable pub read_headers : ℕ → HttpMessage → Read HttpMessage
  read_headers zero msg r = panicked
  read_headers (suc n) msg r = after_line (read_headers n) msg (read_string 10 r)

  abbrev pub body_size_of : Option Bytes → ℤ
  body_size_of none = pos 0
  body_size_of (some value) = scanned (scan_int value)

  abbrev pub set_body_size : HttpMessage → HttpMessage
  set_body_size msg = record msg {
    body_size = body_size_of (lookup (codes "content-length") msg.headers);
  }

  -- The headers behind the first line; a header takes a byte at least.
  abbrev pub read_rest : HttpMessage → Read HttpMessage
  read_rest msg r = (read_headers (suc (length r)) msg >>= λ m. pure (set_body_size m)) r

  -- `ReadHTTPMessage`
  unfoldable pub read_http_message : Read HttpMessage
  read_http_message = read_string 10 >>= λ l.
      let line = trim_line l in
      if length line == 0 then throw eof else (lift (parse_first_line line) >>= read_rest)

-- `FormatHTTP`
abbrev shown_headers : List Bytes
shown_headers =
    codes "host"
    ∷ codes "content-type"
    ∷ codes "content-length"
    ∷ codes "user-agent"
    ∷ codes "server"
    ∷ codes "location"
    ∷ []

unfoldable pub show_headers : List (Bytes × Bytes) → List Bytes → Bytes
show_headers m [] = []
show_headers m (k ∷ ks) = elim (lookup k m) [
  | none ↦ show_headers m ks
  | some v ↦ codes "  " ++ (k ++ (codes ": " ++ (v ++ (10 ∷ show_headers m ks))))
]

-- `FormatHTTPURL`
unfoldable pub format_http_url : HttpMessage → Bytes
format_http_url msg = elim msg.kind [
  | request ↦ msg.method ++ (codes " " ++ (msg.path ++ (10 ∷ [])))
  | response ↦ dec_ℤ msg.status_code ++ (codes " " ++ (msg.status_text ++ (10 ∷ [])))
]

unfoldable pub format_http : HttpMessage → Bytes
format_http msg = codes "  " ++ (format_http_url msg ++ show_headers msg.headers shown_headers)
