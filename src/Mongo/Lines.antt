-- ===== src/Mongo/Lines.antt =====
-- The JSON texts are on one line.
use tcp_port.Base.Int.{pos}
use tcp_port.Base.Outcome.{◌>>=◌}
use tcp_port.Base.{All, List, [], arith, false, suc, true, ℕ, ◌++◌, ◌∷◌, ◌≡◌, ◌≤◌}
use tcp_port.Base.Digits.{IsDigit, dec-IsDigit}
use tcp_port.Base.Int.{negsuc, ℤ}
use tcp_port.Base.Outcome.{ok}
use tcp_port.Base.Slice.{Bytes}
use tcp_port.Base.Text.{dec, dec_ℤ, join}
use tcp_port.Mongo.Json.{bson_to_json, elements, escape, escape_byte, members, quoted, write_value}
use tcp_port.Mongo.Value.{
  Fields, Items, Value, boolean, document, double, field, int32, int64, item, no_fields, no_items,
  nothing, sequence, string,
}
use tcp_port.Base.{Option, none, some}
use tcp_port.Base.Outcome.{Outcome, fail, panic}
use tcp_port.Mongo.Json.{json_of}
use tcp_port.Mongo.Value.{bson_to_map}
use tcp_port.Base.{inl, inr, refl, ◌⊎◌}
use tcp_port.Mongo.Rounds.{Settles, bson_to_map-Settles}

-- A byte that is not a control character of ASCII.
abbrev pub IsPrintable : ℕ → Type 0
IsPrintable b = 32 ≤ b

abbrev pub IsLine : Bytes → Type 0
IsLine = All IsPrintable

All-append : {A : Type 0} (P : A → Type 0) (xs ys : List A) → All P xs → All P ys → All P (xs ++ ys)
All-append P [] ys h k = k
All-append P (x ∷ xs) ys h k = (h.0, All-append P xs ys h.1 k)

digits-IsLine : (cs : Bytes) → All IsDigit cs → IsLine cs
unfolding IsDigit
digits-IsLine [] h = tt
digits-IsLine (c ∷ cs) h = (omega (arith, h.0), digits-IsLine cs h.1)

dec_ℤ-IsLine : (n : ℤ) → IsLine (dec_ℤ n)
unfolding dec_ℤ
dec_ℤ-IsLine (pos n) = digits-IsLine (dec n) (dec-IsDigit n)
dec_ℤ-IsLine (negsuc n) = (omega arith, digits-IsLine (dec (suc n)) (dec-IsDigit (suc n)))

join-IsLine : (ss : List Bytes) → All IsLine ss → IsLine (join (b',' ∷ []) ss)
unfolding join
join-IsLine [] h = tt
join-IsLine (s ∷ []) h = h.0
join-IsLine (s ∷ t ∷ ss) h = All-append IsPrintable s _ h.0 (omega arith, join-IsLine (t ∷ ss) h.1)

escape_byte-IsLine : (c : ℕ) → IsLine (escape_byte c)
unfolding escape_byte
escape_byte-IsLine c = ground arith

escape-IsLine : (s : Bytes) → IsLine (escape s)
unfolding escape
escape-IsLine [] = tt
escape-IsLine (c ∷ cs) =
    All-append IsPrintable (escape_byte c) (escape cs) (escape_byte-IsLine c) (escape-IsLine cs)

-- A text on one line, or a panic.
abbrev pub LineOrPanic : Outcome Bytes → Type 0
LineOrPanic x = ((t : Bytes) × (x ≡ ok t) × IsLine t) ⊎ (x ≡ panic)

module _ (to_valid : Bytes → Bytes) (format_time : ℤ → Bytes) (format_float : ℕ → Bytes)
    (order : List Bytes → List Bytes) (float-IsLine : (n : ℕ) → IsLine (format_float n))
    (order-All : (ss : List Bytes) → All IsLine ss → All IsLine (order ss)) where
  wrapped-IsLine : (a b : ℕ) (s : Bytes) → 32 ≤ a → 32 ≤ b → IsLine s → IsLine (a ∷ (s ++ (b ∷ [])))
  wrapped-IsLine a b s h k l = (h, All-append IsPrintable s (b ∷ []) l (k, tt))

  quoted-IsLine : (s : Bytes) → IsLine (quoted to_valid format_time format_float order s)
  quoted-IsLine s =
      wrapped-IsLine 34 34 (escape (to_valid s)) (omega arith) (omega arith)
        (escape-IsLine (to_valid s))

  mutual
    unfolding write_value

    write_value-IsLine :
        (v : Value) → IsLine (write_value to_valid format_time format_float order v)
    write_value-IsLine nothing = ground arith
    write_value-IsLine (boolean true) = ground arith
    write_value-IsLine (boolean false) = ground arith
    write_value-IsLine (int32 n) = dec_ℤ-IsLine n
    write_value-IsLine (int64 n) = dec_ℤ-IsLine n
    write_value-IsLine (double n) = float-IsLine n
    write_value-IsLine (string s) = quoted-IsLine s
    write_value-IsLine (document fs) =
        wrapped-IsLine b'{' b'}' _ (omega arith) (omega arith)
          (join-IsLine _ (order-All _ (members-IsLine fs)))
    write_value-IsLine (sequence vs) =
        wrapped-IsLine b'[' b']' _ (omega arith) (omega arith) (join-IsLine _ (elements-IsLine vs))

    members-IsLine : (fs : Fields) → All IsLine (members to_valid format_time format_float order fs)
    members-IsLine no_fields = tt
    members-IsLine (field k v fs) = (
      All-append IsPrintable (quoted to_valid format_time format_float order k)
          (b':' ∷ write_value to_valid format_time format_float order v) (quoted-IsLine k)
          (omega arith, write_value-IsLine v),
      members-IsLine fs,
    )

    elements-IsLine :
        (vs : Items) → All IsLine (elements to_valid format_time format_float order vs)
    elements-IsLine no_items = tt
    elements-IsLine (item v vs) = (write_value-IsLine v, elements-IsLine vs)

  json_of-IsLine : (m : Option Fields) → IsLine (json_of to_valid format_time format_float order m)
  json_of-IsLine none = tt
  json_of-IsLine (some m) = write_value-IsLine (document m)

  after_map-LineOrPanic :
      (x : Outcome (Option Fields))
      → Settles x
      → LineOrPanic (x >>= λ m. ok (json_of to_valid format_time format_float order m))
  unfolding Settles
  after_map-LineOrPanic (ok m) h =
      inl (json_of to_valid format_time format_float order m, refl, json_of-IsLine m)
  after_map-LineOrPanic (fail e) h = absurd h
  after_map-LineOrPanic panic h = inr refl

  -- Any bytes come to a JSON text without control characters, so on one line, or to a panic: the
  -- rounds of the parser are never used up. The texts of the doubles are taken to be on one line,
  -- and so are the members of a map in any order if they are in another.
  pub bson_to_json-LineOrPanic :
      (s : Bytes) (spare : ℕ)
      → LineOrPanic (bson_to_json to_valid format_time format_float order s spare)
  unfolding bson_to_json
  bson_to_json-LineOrPanic s spare =
      after_map-LineOrPanic (bson_to_map format_time s spare)
        (bson_to_map-Settles format_time s spare)
