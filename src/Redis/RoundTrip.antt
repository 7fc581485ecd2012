-- ===== src/Redis/RoundTrip.antt =====
-- Commands that `ReadRESPCommand` (redisport/resp_protocol.go) reads back.
use tcp_port.Base.{
  All, List, [], arith, false, length, refl, ℕ, ◌++◌, ◌+◌, ◌==◌, ◌∷◌, ◌≡◌, ◌≢◌, ◌≤◌,
}
use tcp_port.Base.Digits.{IsDigit, dec-IsDigit}
use tcp_port.Base.Reader.{done, find_line, found, read_string}
use tcp_port.Base.Slice.{Bytes}
use tcp_port.Base.Text.{dec, trim_line}
use tcp_port.Redis.{max_alloc, read_arg, read_args, read_bulk}
use tcp_port.Base.{ap, append_assoc, length-append, le→ltb_false, sym, take-append, ◌<◌, ◌^◌, ◌∙◌}
use tcp_port.Base.Digits.{atoi-dec}
use tcp_port.Base.Reader.{bind-done, read_full, read_full-append}
use tcp_port.Base.{◌*◌}
use tcp_port.Base.Text.{join}
use tcp_port.Redis.{line_mark, read_resp_command}

-- A line on the wire, and what follows it.
abbrev pub encode_line : Bytes → Bytes → Bytes
encode_line line rest = line ++ (13 ∷ 10 ∷ rest)

-- A bulk string: its length and its bytes.
abbrev pub bulk_header : Bytes → Bytes
bulk_header a = b'$' ∷ dec (length a)

unfoldable pub encode_args : List Bytes → Bytes → Bytes
encode_args [] rest = rest
encode_args (a ∷ ss) rest = encode_line (bulk_header a) (encode_line a (encode_args ss rest))

-- The lines of the arguments, as they stand in `Raw`.
unfoldable pub lines_of : List Bytes → List Bytes
lines_of [] = []
lines_of (a ∷ ss) = bulk_header a ∷ a ∷ lines_of ss

abbrev pub IsPlain : ℕ → Type 0
IsPlain c = (c ≢ 13) × (c ≢ 10)

pub find_line-plain :
    (line rest : Bytes)
    → All IsPlain line
    → find_line 10 (encode_line line rest) ≡ found (line ++ (13 ∷ 10 ∷ [])) rest
unfolding find_line
find_line-plain [] rest h = refl
find_line-plain (c ∷ line) rest h =
    let other : (c == 10) ≡ false = ground (arith, h.0) in
    rw (other, find_line-plain line rest h.1) refl

pub trim_line-plain : (line : Bytes) → All IsPlain line → trim_line (line ++ (13 ∷ 10 ∷ [])) ≡ line
unfolding trim_line
trim_line-plain [] h = refl
trim_line-plain (c ∷ []) h = ground (arith, h.0)
trim_line-plain (c ∷ d ∷ line) h = rw (trim_line-plain (d ∷ line) h.1) refl

pub digits-All-IsPlain : (cs : Bytes) → All IsDigit cs → All IsPlain cs
unfolding IsDigit
digits-All-IsPlain [] h = tt
digits-All-IsPlain (c ∷ cs) h =
    ((ground (arith, h.0), ground (arith, h.0)), digits-All-IsPlain cs h.1)

pub read_string-plain :
    (line rest : Bytes)
    → All IsPlain line
    → read_string 10 (encode_line line rest) ≡ done (line ++ (13 ∷ 10 ∷ [])) rest
unfolding read_string
read_string-plain line rest h = rw (read_string, find_line-plain line rest h) refl

-- A tag and a number.
read_string-number :
    (tag n : ℕ) (rest : Bytes)
    → IsPlain tag
    → read_string 10 (encode_line (tag ∷ dec n) rest) ≡ done ((tag ∷ dec n) ++ (13 ∷ 10 ∷ [])) rest
read_string-number tag n rest h =
    read_string-plain (tag ∷ dec n) rest (h, digits-All-IsPlain (dec n) (dec-IsDigit n))

trim_line-number :
    (tag n : ℕ) → IsPlain tag → trim_line ((tag ∷ dec n) ++ (13 ∷ 10 ∷ [])) ≡ tag ∷ dec n
trim_line-number tag n h =
    trim_line-plain (tag ∷ dec n) (h, digits-All-IsPlain (dec n) (dec-IsDigit n))

read_bulk-encode :
    (a rest : Bytes)
    → length a + 2 ≤ max_alloc
    → read_bulk (length a) (encode_line a rest) ≡ done a rest
unfolding read_bulk
read_bulk-encode a rest h =
    let whole = a ++ (13 ∷ 10 ∷ []) in
    let size : length whole ≡ length a + 2 = length-append a (13 ∷ 10 ∷ []) in
    let all_read : read_full (length a + 2) (a ++ (13 ∷ 10 ∷ rest)) ≡ done whole rest =
      ap (read_full (length a + 2)) (sym (append_assoc a (13 ∷ 10 ∷ []) rest))
      ∙ read_full-append whole rest (length a + 2) (sym size) in
    rw (le→ltb_false max_alloc (length a + 2) h) (
      bind-done (read_full (length a + 2)) _ (encode_line a rest) rest whole all_read
      ∙ ap (λ xs. done xs rest) (take-append a (13 ∷ 10 ∷ [])))

read_arg-encode :
    (a rest : Bytes)
    → length a + 2 ≤ max_alloc
    → read_arg (encode_line (bulk_header a) (encode_line a rest))
      ≡ done (a ∷ [], bulk_header a ∷ a ∷ []) rest
unfolding read_arg
read_arg-encode a rest h =
    let next = encode_line a rest in
    let line = bulk_header a in
    let small : length a < 2 ^ 63 = omega (arith, h) in
    let plain : IsPlain b'$' = omega arith in
    let some_bytes : (length line == 0) ≡ false = ground arith in
    bind-done (read_string 10) _ (encode_line line next) next (line ++ (13 ∷ 10 ∷ []))
      (read_string-number b'$' (length a) next plain)
    ∙ rw (trim_line-number b'$' (length a) plain, atoi-dec (length a) small, some_bytes)
        (bind-done (read_bulk (length a)) _ next rest a (read_bulk-encode a rest h))

read_args-encode :
    (ss : List Bytes) (rest : Bytes)
    → All (λ a. length a + 2 ≤ max_alloc) ss
    → read_args (length ss) (encode_args ss rest) ≡ done (ss, lines_of ss) rest
unfolding read_args encode_args lines_of
read_args-encode [] rest h = refl
read_args-encode (a ∷ ss) rest h =
    let next = encode_args ss rest in
    bind-done read_arg _ (encode_line (bulk_header a) (encode_line a next)) next
      (a ∷ [], bulk_header a ∷ a ∷ []) (read_arg-encode a next h.0)
    ∙ bind-done (read_args (length ss)) _ next rest (ss, lines_of ss) (read_args-encode ss rest h.1)

-- A command written as an array of bulk strings is read back as its arguments, and what follows it
-- is left unread; the arguments may hold any bytes. Their number and lengths are such that `make`
-- can have the memory.
pub read_resp_command-encode :
    (fields : Bytes → List Bytes) (to_upper : Bytes → Bytes) (ss : List Bytes) (rest : Bytes)
    → length ss * 16 ≤ max_alloc
    → All (λ a. length a + 2 ≤ max_alloc) ss
    → read_resp_command fields to_upper (encode_line (b'*' ∷ dec (length ss)) (encode_args ss rest))
      ≡ done
          (record {
            raw = join line_mark ((b'*' ∷ dec (length ss)) ∷ lines_of ss);
            command = elim ss [ [] ↦ [] | s ∷ _ ↦ to_upper s ];
            args = ss;
            arg_count = length ss;
          })
          rest
unfolding read_resp_command
read_resp_command-encode fields to_upper ss rest few h =
    let next = encode_args ss rest in
    let line = b'*' ∷ dec (length ss) in
    let small : length ss < 2 ^ 63 = omega (arith, few) in
    let plain : IsPlain b'*' = omega arith in
    let some_bytes : (length line == 0) ≡ false = ground arith in
    bind-done (read_string 10) _ (encode_line line next) next (line ++ (13 ∷ 10 ∷ []))
      (read_string-number b'*' (length ss) next plain)
    ∙ rw
        (
          trim_line-number b'*' (length ss) plain,
          atoi-dec (length ss) small,
          some_bytes,
          le→ltb_false max_alloc (length ss * 16) few,
        )
        (bind-done (read_args (length ss)) _ next rest (ss, lines_of ss)
          (read_args-encode ss rest h))
