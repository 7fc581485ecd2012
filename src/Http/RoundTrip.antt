-- ===== src/Http/RoundTrip.antt =====
-- Requests that `ReadHTTPMessage` (httpport/http_protocol.go) reads back.
use tcp_port.Redis.RoundTrip.{IsPlain, encode_line}
use tcp_port.Base.{
  All, List, Option, [], arith, false, length, refl, some, suc, true, ℕ, ◌++◌, ◌<◌, ◌==◌, ◌∷◌, ◌≡◌,
  ◌≢◌,
}
use tcp_port.Base.Int.{ℤ}
use tcp_port.Base.Reader.{done}
use tcp_port.Base.Slice.{Bytes}
use tcp_port.Base.Text.{split_first}
use tcp_port.Http.{HttpMessage, put_field, read_headers}
use tcp_port.Base.{append-nil, append_assoc, zero, ◌∙◌}
use tcp_port.Base.Int.{pos}
use tcp_port.Base.Reader.{bind-done, read_string}
use tcp_port.Base.Text.{codes}
use tcp_port.Http.{
  add_header, body_size_of, http_methods, is_method, parse_first_line, read_http_message, request,
}
use tcp_port.Redis.RoundTrip.{read_string-plain, trim_line-plain}
use tcp_port.Tcp.Assembler.Dict.{lookup}
use tcp_port.Base.{length-append, ◌≤◌}
use tcp_port.Base.Outcome.{ok}
use tcp_port.Base.Reader.{lift}
use tcp_port.Http.{new_message, read_rest}

-- The part in front of the first space.
pub split_first-append :
    (c : ℕ) (s rest : Bytes) → All (λ b. b ≢ c) s → split_first c (s ++ (c ∷ rest)) ≡ some (s, rest)
unfolding split_first
split_first-append c [] rest h = let same : (c == c) ≡ true = ground arith in rw same refl
split_first-append c (b ∷ s) rest h =
    let other : (b == c) ≡ false = ground (arith, h.0) in
    rw (other, split_first-append c s rest h.1) refl

-- Header lines and the empty line behind them, on the wire.
unfoldable pub encode_headers : List Bytes → Bytes → Bytes
encode_headers [] rest = encode_line [] rest
encode_headers (line ∷ ls) rest = encode_line line (encode_headers ls rest)

pub length-encode_headers :
    (ls : List Bytes) (rest : Bytes) → length ls ≤ length (encode_headers ls rest)
unfolding encode_headers
length-encode_headers [] rest = omega arith
length-encode_headers (line ∷ ls) rest =
    omega
      (arith, length-encode_headers ls rest, length-append line (13 ∷ 10 ∷ encode_headers ls rest))

-- A line that the loop over the headers does not end at.
abbrev pub IsHeaderLine : Bytes → Type 0
IsHeaderLine line = (0 < length line) × All IsPlain line

module _ (trim_space to_lower : Bytes → Bytes) (scan_int : Bytes → Option ℤ) where
  -- The names and values of header lines, a later one in the place of an earlier one.
  unfoldable pub fields_of : List (Bytes × Bytes) → List Bytes → List (Bytes × Bytes)
  fields_of m [] = m
  fields_of m (line ∷ ls) =
      fields_of (put_field trim_space to_lower scan_int (split_first b':' line) m) ls

  read_headers-encode :
      (ls : List Bytes) (msg : HttpMessage) (rest : Bytes) (n : ℕ)
      → All IsHeaderLine ls
      → length ls < n
      → read_headers trim_space to_lower scan_int n msg (encode_headers ls rest)
        ≡ done
            (record msg { raw_headers = msg.raw_headers ++ ls; headers = fields_of msg.headers ls })
            rest
  unfolding read_headers encode_headers fields_of add_header
  read_headers-encode ls msg rest zero h k = absurd (omega (arith, k))
  read_headers-encode [] msg rest (suc n) h k =
      rw (read_string-plain [] rest tt, trim_line-plain [] tt, append-nil msg.raw_headers) refl
  read_headers-encode (line ∷ ls) msg rest (suc n) h k =
      let next = encode_headers ls rest in
      let read = read_string-plain line next h.0.1 in
      let some_bytes : (length line == 0) ≡ false = ground (arith, h.0.0) in
      let msg' = add_header trim_space to_lower scan_int line msg in
      rw (read, trim_line-plain line h.0.1, some_bytes)
        (read_headers-encode ls msg' rest n h.1 (omega (arith, k))
          ∙ rw (append_assoc msg.raw_headers (line ∷ []) ls) refl)

  parse_first_line-request :
      (method path version : Bytes)
      → is_method method http_methods ≡ true
      → All (λ b. b ≢ 32) method
      → All (λ b. b ≢ 32) path
      → parse_first_line trim_space to_lower scan_int (method ++ (32 ∷ (path ++ (32 ∷ version))))
        ≡ ok (record (new_message request (method ++ (32 ∷ (path ++ (32 ∷ version))))) {
          method = method;
          path = path;
        })
  unfolding parse_first_line
  parse_first_line-request method path version known m p =
      rw
        (
          split_first-append 32 method (path ++ (32 ∷ version)) m,
          known,
          split_first-append 32 path version p,
        )
        refl

  -- A request with a method that is known, a path, the version, and header lines is read back: its
  -- method and path, the header lines as they stand, their names and values, and the size that is
  -- announced. What follows the empty line is left unread, the body too. The lines hold no byte of
  -- a line's end, the method and the path no space, and no header line is empty.
  pub read_http_message-encode :
      (method path version rest : Bytes) (ls : List Bytes)
      → is_method method http_methods ≡ true
      → All (λ b. b ≢ 32) method
      → All (λ b. b ≢ 32) path
      → All IsPlain (method ++ (32 ∷ (path ++ (32 ∷ version))))
      → All IsHeaderLine ls
      → read_http_message trim_space to_lower scan_int
          (encode_line (method ++ (32 ∷ (path ++ (32 ∷ version)))) (encode_headers ls rest))
        ≡ done
            (record {
              kind = request;
              raw_line = method ++ (32 ∷ (path ++ (32 ∷ version)));
              method = method;
              path = path;
              status_code = pos 0;
              status_text = [];
              headers = fields_of [] ls;
              raw_headers = ls;
              body_size =
                  body_size_of trim_space to_lower scan_int
                    (lookup (codes "content-length") (fields_of [] ls));
            })
            rest
  unfolding read_http_message parse_first_line
  read_http_message-encode method path version rest ls known m p h k =
      let line = method ++ (32 ∷ (path ++ (32 ∷ version))) in
      let next = encode_headers ls rest in
      let msg = record (new_message request line) { method = method; path = path } in
      let first = parse_first_line-request method path version known m p in
      let some_bytes : (length line == 0) ≡ false =
        ground (arith, length-append method (32 ∷ (path ++ (32 ∷ version)))) in
      bind-done (read_string 10) _ (encode_line line next) next (line ++ (13 ∷ 10 ∷ []))
        (read_string-plain line next h)
      ∙ rw (trim_line-plain line h, some_bytes)
          (bind-done (lift (parse_first_line trim_space to_lower scan_int line))
              (read_rest trim_space to_lower scan_int) next next msg (rw first refl)
            ∙ bind-done (read_headers trim_space to_lower scan_int (suc (length next)) msg) _ next
                rest _
                (read_headers-encode ls msg rest (suc (length next)) k
                  (omega (arith, length-encode_headers ls rest))))
