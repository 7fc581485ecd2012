-- ===== src/Redis/Faults.antt =====
-- Commands that `ReadRESPCommand` (redisport/resp_protocol.go) panics on.
use tcp_port.Base.{
  All, List, [], arith, false, length, refl, ℕ, ◌++◌, ◌<◌, ◌==◌, ◌^◌, ◌∙◌, ◌∷◌, ◌≡◌, ◌≤◌,
}
use tcp_port.Base.Digits.{atoi-minus, dec-IsDigit}
use tcp_port.Base.Reader.{bind-done, panicked, read_string}
use tcp_port.Base.Slice.{Bytes}
use tcp_port.Base.Text.{dec}
use tcp_port.Redis.{read_resp_command}
use tcp_port.Redis.RoundTrip.{
  digits-All-IsPlain, IsPlain, encode_line, read_string-plain, trim_line-plain,
}

-- An array whose count is a negative `int` makes the program panic: the count becomes the capacity
-- of the slice of arguments, before it is tested.
pub read_resp_command-panicked :
    (fields : Bytes → List Bytes) (to_upper : Bytes → Bytes) (n : ℕ) (rest : Bytes)
    → 0 < n
    → n ≤ 2 ^ 63
    → read_resp_command fields to_upper (encode_line (b'*' ∷ b'-' ∷ dec n) rest) ≡ panicked
unfolding read_resp_command
read_resp_command-panicked fields to_upper n rest h k =
    let line = b'*' ∷ b'-' ∷ dec n in
    let plain : All IsPlain line =
      (omega arith, (omega arith, digits-All-IsPlain (dec n) (dec-IsDigit n))) in
    let some_bytes : (length line == 0) ≡ false = ground arith in
    bind-done (read_string 10) _ (encode_line line rest) rest (line ++ (13 ∷ 10 ∷ []))
      (read_string-plain line rest plain)
    ∙ rw (trim_line-plain line plain, atoi-minus n h k, some_bytes) refl
