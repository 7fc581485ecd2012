-- ===== src/Redis/Reply.antt =====
-- redisport/resp_protocol.go: `ReadRESPResponse`.
use tcp_port.Base.Reader.{◌>>=◌, pure, throw}
use tcp_port.Base.Int.{pos, negsuc}
use tcp_port.Base.{
  List, Option, [], drop, if◌then◌else◌, length, ltb, none, some, suc, take, zero, ℕ, ◌*◌, ◌++◌,
  ◌==◌, ◌||◌, ◌∷◌,
}
use tcp_port.Base.Int.{ℤ}
use tcp_port.Base.Outcome.{eof}
use tcp_port.Base.Reader.{Read, done, failed, panicked, read_string}
use tcp_port.Base.Slice.{Bytes, at}
use tcp_port.Base.Text.{atoi, codes, dec, join, trim_line}
use tcp_port.Redis.{
  RespResponse, max_alloc, read_bulk, type_array, type_bulk_string, type_error, type_integer,
  type_simple_string,
}
use tcp_port.Base.Reader.{Reading}
use tcp_port.Mongo.Value.{count}

abbrev pub new_response : Bytes → Bytes → RespResponse
new_response line v = record {
  raw = line;
  kind = at line 0;
  value = v;
  is_error = at line 0 == type_error;
}

unfoldable pub bulk_reply : Bytes → Option ℤ → Read RespResponse
bulk_reply line none = pure (new_response line [])
bulk_reply line (some (negsuc n)) = pure (new_response line (codes "(nil)"))
bulk_reply line (some (pos n)) = read_bulk n >>= λ v. pure (new_response line v)

-- What follows an element: the other elements, or nothing after an error, which is dropped.
abbrev pub after_value : Read (List Bytes) → Reading RespResponse → Reading (List Bytes)
after_value next (done sub r) = (next >>= λ vs. pure (sub.value ∷ vs)) r
after_value next (failed e r) = done [] r
after_value next panicked = panicked

-- The values of the elements, up to the first error.
unfoldable pub read_values : Read RespResponse → ℕ → Read (List Bytes)
read_values reply zero r = done [] r
read_values reply (suc n) r = after_value (read_values reply n) (reply r)

-- The value of an array reply of `count` elements, of which these were read.
unfoldable pub show_values : ℕ → List Bytes → Bytes
show_values count parts =
    if ltb 4 (length parts)
    then codes "["
      ++ (dec count
          ++ (codes " elements: " ++ (join (codes ", ") (take 3 parts) ++ codes ", ...]")))
    else codes "[" ++ (join (codes ", ") parts ++ codes "]")

unfoldable pub array_reply : Read RespResponse → Bytes → Option ℤ → Read RespResponse
array_reply reply line none r = done (new_response line []) r
array_reply reply line (some (negsuc n)) r = done (new_response line (codes "(nil array)")) r
array_reply reply line (some (pos n)) r =
    if ltb max_alloc (n * 16)
    then panicked
    else (read_values reply n >>= λ vs. pure (new_response line (show_values n vs))) r

-- The reply that begins with `line`; `reply` are the calls for its elements.
unfoldable pub reply_to : Read RespResponse → Bytes → Read RespResponse
reply_to reply line =
    if length line == 0
    then throw eof
    else if at line 0 == type_bulk_string
    then bulk_reply line (atoi (drop 1 line))
    else if at line 0 == type_array
    then array_reply reply line (atoi (drop 1 line))
    else if at line 0 == type_simple_string || at line 0 == type_error || at line 0 == type_integer
    then pure (new_response line (drop 1 line))
    else pure (new_response line [])

-- `ReadRESPResponse`, given the calls that it makes of itself.
unfoldable pub reply_round : Read RespResponse → Read RespResponse
reply_round reply = read_string 10 >>= λ l. reply_to reply (trim_line l)

-- Arrays may nest; `out` is what comes when the rounds are used up.
unfoldable pub read_replies : Read RespResponse → ℕ → Read RespResponse
read_replies out zero r = out r
read_replies out (suc n) r = reply_round (read_replies out n) r

-- `ReadRESPResponse`: each level of nesting takes a line, so that the rounds are never used up.
unfoldable pub read_resp_response : Read RespResponse
read_resp_response r = read_replies (λ r'. panicked) (suc (length r)) r
