-- ===== src/Redis.antt =====
-- redisport/resp_protocol.go: commands and replies.
pub mod Reply
pub mod RoundTrip
pub mod Format
pub mod Faults
pub mod Leaves
pub mod Ends
use tcp_port.Base.Reader.{◌>>=◌, pure, throw}
use tcp_port.Base.Int.{pos, negsuc}
use tcp_port.Base.{
  Bool, List, Option, [], drop, if◌then◌else◌, length, ltb, none, some, suc, take, zero, ℕ, ◌*◌,
  ◌++◌, ◌+◌, ◌==◌, ◌^◌, ◌∷◌,
}
use tcp_port.Base.Int.{ℤ}
use tcp_port.Base.Outcome.{eof, errorf}
use tcp_port.Base.Reader.{Read, panicked, read_full, read_string}
use tcp_port.Base.Slice.{Bytes, at}
use tcp_port.Base.Text.{atoi, codes, hex, join, trim_line}
use tcp_port.Base.{equal, false, true}

abbrev pub type_simple_string : ℕ
type_simple_string = b'+'

abbrev pub type_error : ℕ
type_error = b'-'

abbrev pub type_integer : ℕ
type_integer = b':'

abbrev pub type_bulk_string : ℕ
type_bulk_string = b'$'

abbrev pub type_array : ℕ
type_array = b'*'

-- `RESPType`
unfoldable pub resp_type : ℕ → Bytes
resp_type b =
    if b == type_simple_string
    then codes "SimpleString"
    else if b == type_error
    then codes "Error"
    else if b == type_integer
    then codes "Integer"
    else if b == type_bulk_string
    then codes "BulkString"
    else if b == type_array
    then codes "Array"
    else codes "Unknown(0x" ++ (hex b ++ codes ")")

pub record RespCommand : Type 0 where
  pub raw : Bytes
  pub command : Bytes
  pub args : List Bytes
  pub arg_count : ℕ

pub record RespResponse : Type 0 where
  pub raw : Bytes
  pub kind : ℕ
  pub value : Bytes
  pub is_error : Bool

-- The largest allocation of `make`, in bytes: it panics above (64-bit Linux).
abbrev pub max_alloc : ℕ
max_alloc = 2 ^ 48

-- `make([]byte, n+2)` and the read into it: a bulk string with the end of its line.
unfoldable pub read_bulk : ℕ → Read Bytes
read_bulk n r =
    if ltb max_alloc (n + 2) then panicked else (read_full (n + 2) >>= λ buf. pure (take n buf)) r

-- What a line of a command adds to the arguments, and to the lines of `Raw`.
abbrev pub Added : Type 0
Added = List Bytes × List Bytes

abbrev pub read_length : Bytes → Option ℤ → Read Added
read_length line none = pure ([], line ∷ [])
read_length line (some (negsuc n)) = pure ([] ∷ [], line ∷ [])
read_length line (some (pos n)) = read_bulk n >>= λ val. pure (val ∷ [], line ∷ val ∷ [])

-- One round of the loop over the elements.
unfoldable pub read_arg : Read Added
read_arg = read_string 10 >>= λ l.
    let line = trim_line l in
    if length line == 0
    then pure ([], line ∷ [])
    else if at line 0 == type_bulk_string
    then read_length line (atoi (drop 1 line))
    else pure ([], line ∷ [])

unfoldable pub read_args : ℕ → Read Added
read_args zero = pure ([], [])
read_args (suc n) = read_arg >>= λ a. read_args n >>= λ b. pure (a.0 ++ b.0, a.1 ++ b.1)

abbrev pub first_or_empty : List Bytes → Bytes
first_or_empty [] = []
first_or_empty (s ∷ ss) = s

-- The text `\r\n`, which stands between the lines in `Raw`: two backslashes and two letters.
abbrev pub line_mark : Bytes
line_mark = 92 ∷ b'r' ∷ 92 ∷ b'n' ∷ []

-- `fields` is `strings.Fields`, `to_upper` is `strings.ToUpper`.
module _ (fields : Bytes → List Bytes) (to_upper : Bytes → Bytes) where
  abbrev pub inline_of : Bytes → List Bytes → RespCommand
  inline_of line [] = record { raw = line; command = []; args = []; arg_count = 0 }
  inline_of line (p ∷ ps) = record {
    raw = line;
    command = to_upper p;
    args = ps;
    arg_count = suc (length ps);
  }

  abbrev pub command_of : Bytes → Added → RespCommand
  command_of line (args, lines) = record {
    raw = join line_mark (line ∷ lines);
    command = elim args [ [] ↦ [] | s ∷ ss ↦ to_upper s ];
    args = args;
    arg_count = length args;
  }

  -- The array of a command, given its count; `make([]string, 0, count)` takes 16 bytes for each.
  abbrev pub read_array : Bytes → Option ℤ → Read RespCommand
  read_array line none r = throw (errorf (codes "bad array count: " ++ line)) r
  read_array line (some (negsuc n)) r = panicked
  read_array line (some (pos n)) r =
      if ltb max_alloc (n * 16) then panicked else (read_args n >>= λ a. pure (command_of line a)) r

  -- `ReadRESPCommand`
  unfoldable pub read_resp_command : Read RespCommand
  read_resp_command = read_string 10 >>= λ l.
      let line = trim_line l in
      if length line == 0
      then throw eof
      else if at line 0 == type_array
      then read_array line (atoi (drop 1 line))
      else pure (inline_of line (fields line))

-- `IsKnownRedisCommand` is a look into a table with `cmd` in upper case.
unfoldable pub is_one_of : Bytes → List Bytes → Bool
is_one_of s [] = false
is_one_of s (t ∷ ts) = if equal s t then true else is_one_of s ts
