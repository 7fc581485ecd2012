-- ===== src/Mongo/Value.antt =====
-- The values of BSON documents, and `bsonToMap` of mongoport/mongo_protocol.go. A slice keeps what
-- stands behind it in its array: `spare` is the number of those bytes. `format_time` stands for the
-- text of a time in milliseconds (package time). A parse that runs out of rounds fails.
use tcp_port.Base.Outcome.{◌>>=◌, Outcome, ok, fail, panic, eof}
use tcp_port.Base.{
  Bool, Option, [], equal, false, if◌then◌else◌, leb, length, ltb, map, none, not, some, suc, true,
  zero, ℕ, ◌&&◌, ◌++◌, ◌+◌, ◌-◌, ◌==◌, ◌||◌, ◌∷◌,
}
use tcp_port.Base.Int.{to_int32, to_int64, ℤ}
use tcp_port.Base.Slice.{Bytes, at, cut, le32, le64}
use tcp_port.Base.Text.{codes, dec}
use tcp_port.Mongo.{zero_from}
use tcp_port.Rocketmq.{hex_bytes}

mutual
  -- What the interface values of the code hold; a double is its bits.
  pub data Value : Type 0 where
    nothing : Value
    boolean : Bool → Value
    int32 int64 : ℤ → Value
    double : ℕ → Value
    string : Bytes → Value
    document : Fields → Value
    sequence : Items → Value

  -- A map with strings for keys, in the order in which the keys came.
  pub data Fields : Type 0 where
    no_fields : Fields
    field : Bytes → Value → Fields → Fields

  pub data Items : Type 0 where
    no_items : Items
    item : Value → Items → Items

unfoldable pub put : Bytes → Value → Fields → Fields
put k v no_fields = field k v no_fields
put k v (field j w fs) = if equal j k then field k v fs else field j w (put k v fs)

unfoldable pub get : Bytes → Fields → Option Value
get k no_fields = none
get k (field j w fs) = if equal j k then some w else get k fs

abbrev pub count : Fields → ℕ
count no_fields = 0
count (field k v fs) = suc (count fs)

abbrev pub cons_item : Option Value → Items → Items
cons_item none rest = no_items
cons_item (some v) rest = item v rest

-- The values of the keys "0", "1", …, up to the first that is missing.
unfoldable pub items_from : ℕ → ℕ → Fields → Items
items_from zero i m = no_items
items_from (suc n) i m = cons_item (get (dec i) m) (items_from n (suc i) m)

unfoldable pub items_of : Fields → Items
items_of m = items_from (suc (count m)) 0 m

abbrev pub fields_of : Option Fields → Fields
fields_of none = no_fields
fields_of (some m) = m

-- A value with the position behind it.
abbrev pub Parsed : Type 0
Parsed = Outcome (Value × ℕ)

abbrev pub int32_value : Bytes → ℕ → ℤ
int32_value s i = to_int32 (le32 s i)

module _ (format_time : ℤ → Bytes) where
  -- A value of `n` bytes at `i`, if they are there.
  abbrev pub fixed : Bytes → ℕ → ℕ → Value → Parsed
  fixed s i n v = ok (if leb (i + n) (length s) then (v, i + n) else (nothing, i))

  -- A value that has its length in its first four bytes, and ends `extra` bytes behind that.
  abbrev pub sized : Bytes → ℕ → ℕ → ℕ → Value → Parsed
  sized s i header extra v =
      let end = i + extra + le32 s i in
      ok (
        if leb (i + header) (length s)
        then (if leb end (length s) then (v, end) else (nothing, end))
        else (nothing, i))

  abbrev pub string_value : Bytes → ℕ → Value
  string_value s i = string (if ltb 1 (le32 s i) then cut s (i + 4) (i + 4 + le32 s i - 1) else [])

  abbrev pub code_value : Bytes → ℕ → Value
  code_value s i = if ltb 1 (le32 s i) then string_value s i else nothing

  -- A nested document, parsed by `map`.
  abbrev pub nested :
      (Bytes → ℕ → Outcome (Option Fields)) → Bytes → ℕ → ℕ → (Option Fields → Value) → Parsed
  nested map s spare i make =
      let end = i + le32 s i in
      if leb (i + 4) (length s)
      then (if leb end (length s)
          then (map (cut s i end) (spare + (length s - end)) >>= λ m. ok (make m, end))
          else ok (nothing, end))
      else ok (nothing, i)

  -- A pattern and its options, each with a zero byte behind it; without the first zero byte, the
  -- slice of the options begins a byte behind the end.
  unfoldable pub parse_regex : Bytes → ℕ → ℕ → Parsed
  parse_regex s spare i =
      let pat_end = zero_from s i in
      let opt_end = zero_from s (pat_end + 1) in
      if ltb (length s + spare) opt_end
      then panic
      else ok
          (string (b'/' ∷ (cut s i pat_end ++ (b'/' ∷ cut s (pat_end + 1) opt_end))), opt_end + 1)

  -- The `switch` on the type of an element.
  unfoldable pub parse_value : (Bytes → ℕ → Outcome (Option Fields)) → ℕ → Bytes → ℕ → ℕ → Parsed
  parse_value map typ s spare i =
      if typ == 0x01
      then fixed s i 8 (double (le64 s i))
      else if typ == 0x02
      then sized s i 4 4 (string_value s i)
      else if typ == 0x03
      then nested map s spare i (λ m. document (fields_of m))
      else if typ == 0x04
      then nested map s spare i (λ m. sequence (items_of (fields_of m)))
      else if typ == 0x05
      then sized s i 5 5 (string (codes "<binary " ++ (dec (le32 s i) ++ codes " bytes>")))
      else if typ == 0x06
      then ok (string (codes "undefined"), i)
      else if typ == 0x07
      then fixed s i 12
          (string (codes "ObjectId(" ++ (34 ∷ (hex_bytes (cut s i (i + 12)) ++ (34 ∷ codes ")")))))
      else if typ == 0x08
      then fixed s i 1 (boolean (not (at s i == 0)))
      else if typ == 0x09
      then fixed s i 8 (string (format_time (to_int64 (le64 s i))))
      else if typ == 0x0b
      then parse_regex s spare i
      else if typ == 0x0d
      then sized s i 4 4 (code_value s i)
      else if typ == 0x0f
      then sized s i 4 0 (string (codes "<javascript with scope>"))
      else if typ == 0x10
      then fixed s i 4 (int32 (int32_value s i))
      else if typ == 0x11 || typ == 0x12
      then fixed s i 8 (int64 (to_int64 (le64 s i)))
      else if typ == 0x13
      then fixed s i 16 (string (codes "<decimal128>"))
      else if typ == 0x7f
      then ok (string (codes "<MinKey>"), i)
      else if typ == 0xff
      then ok (string (codes "<MaxKey>"), i)
      else ok (nothing, i)

  -- `parseBSONElement`: a key, its value, and the position behind it.
  unfoldable pub parse_bson_element :
      (Bytes → ℕ → Outcome (Option Fields)) → Bytes → ℕ → ℕ → Outcome (Bytes × Value × ℕ)
  parse_bson_element map s spare i =
      let key_end = zero_from s (i + 1) in
      if leb (length s) i
      then ok ([], nothing, i)
      else if leb (length s) key_end
      then ok ([], nothing, key_end)
      else (parse_value map (at s i) s spare (key_end + 1) >>= λ p.
          ok (cut s (i + 1) key_end, p.0, (if ltb (length s) p.1 then length s else p.1)))

  abbrev pub put_value : Bytes → Value → Fields → Fields
  put_value [] v m = m
  put_value (c ∷ k) v m = put (c ∷ k) v m

  abbrev pub doc_size : Bytes → ℕ
  doc_size s = let size = le32 s 0 in if ltb size 5 || ltb (length s) size then length s else size

  -- `bsonToMap`, given its loop; a document of fewer than five bytes is nil.
  abbrev pub start_map :
      (Bytes → ℕ → ℕ → ℕ → Fields → Outcome Fields) → Bytes → ℕ → Outcome (Option Fields)
  start_map loop s spare =
      if ltb (length s) 5
      then ok none
      else (loop s spare (doc_size s) 4 no_fields >>= λ m. ok (some m))

  -- The loop of `bsonToMap` from position `i` on, with a bound on the rounds of it and of those for
  -- the documents in it.
  unfoldable pub map_loop : ℕ → Bytes → ℕ → ℕ → ℕ → Fields → Outcome Fields
  map_loop zero s spare size i m = fail eof
  map_loop (suc n) s spare size i m =
      if ltb i (size - 1) && not (at s i == 0)
      then (parse_bson_element (start_map (map_loop n)) s spare i >>= λ p. elim (leb p.2 i) [
        | true ↦ ok (put_value p.0 p.1 m)
        | false ↦ map_loop n s spare size p.2 (put_value p.0 p.1 m)
      ])
      else ok m

  -- `bsonToMap`: every round takes a byte.
  unfoldable pub bson_to_map : Bytes → ℕ → Outcome (Option Fields)
  bson_to_map = λ s spare. start_map (map_loop (suc (length s))) s spare
