-- ===== src/Dubbo/Java/Args.antt =====
-- dubboport/java_deserializer.go: the arguments of a call (`deserializeJavaArgs`,
-- `ParseJavaSerializedArgs`).
use tcp_port.Base.Int.{pos}
use tcp_port.Dubbo.Java.State.{◌>>=◌, ◌>>◌}
use tcp_port.Base.{
  Bool, List, Option, [], drop, get_or, if◌then◌else◌, leb, length, ltb, none, some, suc, zero, ℕ,
  ◌&&◌, ◌++◌, ◌+◌, ◌-◌, ◌==◌, ◌||◌, ◌∷◌,
}
use tcp_port.Base.Int.{leb_ℤ, ltb_ℤ, pos_part, ℤ}
use tcp_port.Base.Outcome.{errorf}
use tcp_port.Base.Slice.{Bytes, at, be16}
use tcp_port.Base.Text.{codes, dec, dec_ℤ}
use tcp_port.Dubbo.Java.Content.{read_content, set_new}
use tcp_port.Dubbo.Java.State.{
  Deser, Fields, Parse, Step, Value, advance, crashed, exhausted, get_state, object, out_of_rounds,
  parsed, pure, refused, tc_end_block_data, tc_object, tc_reset, throw,
}

-- A call whose error ends a loop and is dropped.
abbrev pub attempt_result : {A : Type 0} → Parse A → Parse (Option A)
attempt_result (parsed a s) = parsed (some a) s
attempt_result (refused e s) = parsed none s
attempt_result crashed = crashed
attempt_result exhausted = exhausted

abbrev pub attempt : {A : Type 0} → Step A → Step (Option A)
attempt m s = attempt_result (m s)

abbrev pub fields_at : List Fields → ℕ → Fields
fields_at os o = get_or os o []

-- Entries that are not there yet.
unfoldable pub merge : Fields → Fields → Fields
merge result [] = result
merge result ((k, v) ∷ m) = merge (set_new k v result) m

abbrev merge_value : List Fields → Fields → Value → Fields
merge_value os result (object o) = merge result (fields_at os o)
merge_value os result _ = result

unfoldable pub drop_handles : Step (Unit {0})
drop_handles s = parsed tt (record s { handles = [] })

-- What a round of the loop does with the value that it has read.
abbrev pub after_value : (Fields → Step Fields) → Fields → Option Value → Step Fields
after_value next result none = pure result
after_value next result (some v) = get_state >>= λ d. next (merge_value d.objects result v)

-- One round of the loop of `deserializeJavaArgs`, with the rounds behind it.
unfoldable pub args_round : Bytes → Step Value → (Fields → Step Fields) → Fields → Step Fields
args_round bytes content next result = get_state >>= λ d.
    if leb (length bytes) d.pos
    then pure result
    else if at bytes d.pos == tc_end_block_data
    then (advance 1 >> next result)
    else if at bytes d.pos == tc_reset
    then (advance 1 >> drop_handles >> next result)
    else (attempt content >>= after_value next result)

unfoldable pub args_loop : Bytes → Step Value → ℕ → Fields → Step Fields
args_loop bytes content zero result = out_of_rounds
args_loop bytes content (suc n) result = args_round bytes content (args_loop bytes content n) result

unfoldable pub not_empty : {A : Type 0} → Bytes → List A → Step (List A)
not_empty t [] = throw t
not_empty t (x ∷ xs) = pure (x ∷ xs)

-- `STREAM_MAGIC` and `STREAM_VERSION` at a position.
unfoldable pub is_stream_at : Bytes → ℕ → Bool
is_stream_at bytes i =
    leb (i + 4) (length bytes) && be16 bytes i == 0xaced && be16 bytes (i + 2) == 0x0005

abbrev pub new_deser : ℕ → Deser
new_deser i = record { pos = i; handles = []; classes = []; objects = []; arrays = [] }

-- `deserializeJavaArgs`, with a number of rounds for the nesting of values.
unfoldable pub deserialize_java_args : ℕ → Bytes → Parse Fields
deserialize_java_args n bytes =
    let d = new_deser (if is_stream_at bytes 0 then 4 else 0) in
    if ltb (length bytes) 1
    then refused (errorf (codes "empty data")) (new_deser 0)
    else (args_loop bytes (read_content bytes n) (suc (length bytes)) []
          >>= not_empty (codes "no parseable objects found"))
        d

-- The first position from `i` on, within `n` positions, that passes a test.
unfoldable pub find_from : (ℕ → Bool) → ℕ → ℕ → Option ℕ
find_from test zero i = none
find_from test (suc n) i = if test i then some i else find_from test n (i + 1)

-- Where the stream starts that `ParseJavaSerializedArgs` reads.
unfoldable pub find_stream : Bytes → ℕ → Option ℕ
find_stream body i =
    let is_object = λ (j : ℕ). at body j == tc_object in
    let rest = length body - i in
    if is_stream_at body i || at body i == tc_object
    then some i
    else elim (find_from (is_stream_at body) rest i) [
      | some j ↦ some j
      | none ↦ find_from is_object rest i
    ]

-- `ParseJavaSerializedArgs`
unfoldable pub parse_java_serialized_args : ℕ → Bytes → ℤ → Parse Fields
parse_java_serialized_args n body start =
    if ltb_ℤ start (pos 0) || leb_ℤ (pos (length body)) start
    then refused
        (errorf (
          codes "invalid start position "
          ++ (dec_ℤ start ++ (codes " for body of length " ++ dec (length body)))))
        (new_deser 0)
    else elim (find_stream body (pos_part start)) [
      | some j ↦ deserialize_java_args n (drop j body)
      | none ↦
          refused (errorf (codes "no Java stream found at or after position " ++ dec_ℤ start))
            (new_deser 0)
    ]
