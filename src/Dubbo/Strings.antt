-- ===== src/Dubbo/Strings.antt =====
-- dubboport/dubbo_protocol.go: the strings in the body of a message.
use tcp_port.Base.{
  Bool, List, Option, [], false, if◌then◌else◌, leb, length, ltb, none, some, suc, true, ℕ, ◌&&◌,
  ◌++◌, ◌+◌, ◌-◌, ◌==◌, ◌||◌, ◌∷◌,
}
use tcp_port.Base.Slice.{Bytes, at, be16, be32, cut}
use tcp_port.Base.{take, zero}

-- `isReadable`
unfoldable pub is_readable : ℕ → Bool
is_readable b =
    (leb b'a' b && leb b b'z')
    || (leb b'A' b && leb b b'Z')
    || (leb b'0' b && leb b b'9')
    || b == b'.'
    || b == b'_'
    || b == b'/'
    || b == b'$'

-- The string from the start of a run to `i`, if there is a run and it is long enough.
unfoldable pub emit : Bytes → ℕ → Option ℕ → ℕ → List Bytes
emit whole min_len none i = []
emit whole min_len (some start) i = if leb min_len (i - start) then cut whole start i ∷ [] else []

-- The start of the run behind a readable byte at `i`.
abbrev run_start : Option ℕ → ℕ → Option ℕ
run_start none i = some i
run_start (some start) i = some start

-- The loop of `extractReadableStrings`, from byte `i` on; a start of -1 is `none`.
unfoldable pub extract_loop : Bytes → ℕ → ℕ → Option ℕ → Bytes → List Bytes
extract_loop whole min_len i start [] = emit whole min_len start i
extract_loop whole min_len i start (b ∷ bs) =
    (if is_readable b then [] else emit whole min_len start i)
    ++ extract_loop whole min_len (i + 1) (if is_readable b then run_start start i else none) bs

-- `extractReadableStrings`
unfoldable pub extract_readable_strings : Bytes → ℕ → List Bytes
extract_readable_strings s min_len = extract_loop s min_len 0 none s

-- `isReadableString`
unfoldable pub is_printable : Bytes → Bool
is_printable [] = true
is_printable (c ∷ cs) = if leb 0x20 c && leb c 0x7e then is_printable cs else false

unfoldable pub is_readable_string : Bytes → Bool
is_readable_string s = if length s == 0 then false else is_printable s

-- `isNumericDotOnly`; the bytes of longer runes are no digits.
unfoldable pub all_numeric : Bytes → Bool
all_numeric [] = true
all_numeric (c ∷ cs) = if c == b'.' || (leb b'0' c && leb c b'9') then all_numeric cs else false

unfoldable pub is_numeric_dot_only : Bytes → Bool
is_numeric_dot_only s = if length s == 0 then false else all_numeric s

-- A digit at the end, behind a small letter.
unfoldable pub ends_in_digit : Bytes → Bool
ends_in_digit s =
    let last = at s (length s - 1) in
    let before = at s (length s - 2) in
    ltb 1 (length s) && (leb b'0' last && leb last b'9') && (leb b'a' before && leb before b'z')

-- `cleanMethodName`: every round takes a byte away.
unfoldable pub clean_rounds : ℕ → Bytes → Bytes
clean_rounds zero s = s
clean_rounds (suc n) s =
    let shorter = clean_rounds n (take (length s - 1) s) in if ends_in_digit s then shorter else s

unfoldable pub clean_method_name : Bytes → Bytes
clean_method_name s = clean_rounds (length s) s

-- `containsDot`
unfoldable pub contains_dot : Bytes → Bool
contains_dot [] = false
contains_dot (c ∷ cs) = if c == b'.' then true else contains_dot cs

-- The bytes of a string of a known length, and the position behind it; -1 is `none`.
abbrev pub hessian_bytes : Bytes → ℕ → ℕ → Bytes × Option ℕ
hessian_bytes s i len =
    if ltb (length s) (i + len) then ([], none) else (cut s i (i + len), some (i + len))

-- `readHessian2String`
unfoldable pub read_hessian2_string : Bytes → ℕ → Bytes × Option ℕ
read_hessian2_string s i =
    let tag = at s i in
    if leb (length s) i
    then ([], none)
    else if leb tag 0x1f
    then hessian_bytes s (i + 1) tag
    else if tag == 0x30
    then (if leb (length s) (i + 1) then ([], none) else hessian_bytes s (i + 2) (at s (i + 1)))
    else if tag == 0x31
    then (if ltb (length s) (i + 3) then ([], none) else hessian_bytes s (i + 3) (be16 s (i + 1)))
    else if tag == 0x32 || tag == 0x33
    then (if ltb (length s) (i + 5) then ([], none) else hessian_bytes s (i + 5) (be32 s (i + 1)))
    else ([], none)

-- The fields of `DubboMessage` that `parseRequestMetadata` sets.
pub record RequestMetadata : Type 0 where
  pub service_name : Bytes
  pub service_version : Bytes
  pub method_name : Bytes
  pub param_types : Bytes

-- The loop over the strings of the body, `n` of them at most, from position `i`.
unfoldable pub read_strings : Bytes → ℕ → ℕ → List Bytes
read_strings s zero i = []
read_strings s (suc n) i =
    let next = read_hessian2_string s i in
    let rest = λ (j : ℕ). next.0 ∷ read_strings s n j in
    if ltb i (length s) then elim next.1 [ none ↦ [] | some j ↦ rest j ] else []

-- What the strings read are taken for.
unfoldable pub set_metadata : List Bytes → RequestMetadata → RequestMetadata
set_metadata (a ∷ b ∷ c ∷ d ∷ e ∷ ss) m = record {
  service_name = b;
  service_version = c;
  method_name = d;
  param_types = e;
}
set_metadata (a ∷ b ∷ c ∷ d ∷ []) m = record m {
  service_name = b;
  service_version = c;
  method_name = d;
}
set_metadata _ m = m

-- `parseRequestMetadata`
unfoldable pub parse_request_metadata : Bytes → RequestMetadata → RequestMetadata
parse_request_metadata body m =
    if ltb (length body) 2 then m else set_metadata (read_strings body 6 1) m
