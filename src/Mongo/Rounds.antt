-- ===== src/Mongo/Rounds.antt =====
-- The rounds of `bsonToMap` (mongoport/mongo_protocol.go) are never used up, and when a regular
-- expression makes it panic.
use tcp_port.Base.Outcome.{◌>>=◌}
use tcp_port.Base.{
  Bool, Option, arith, drop, false, if◌then◌else◌, leb, length, length-drop, ltb, map, true, ℕ, ◌+◌,
  ◌-◌, ◌≢◌, ◌≤◌,
}
use tcp_port.Base.Int.{ℤ}
use tcp_port.Base.Outcome.{Outcome, fail, ok, panic}
use tcp_port.Base.Slice.{Bytes, cut, le32, until_zero-le}
use tcp_port.Mongo.{zero_from}
use tcp_port.Mongo.Value.{Fields, Value, nested, nothing, parse_regex}
use tcp_port.Base.{Bool-cases, inl, inr, length-take, not, suc, zero, ◌&&◌, ◌<◌, ◌==◌, ◌||◌}
use tcp_port.Base.Slice.{at}
use tcp_port.Mongo.Value.{
  bson_to_map, doc_size, document, fields_of, items_of, map_loop, no_fields, parse_bson_element,
  parse_value, put_value, sequence, start_map,
}
use tcp_port.Base.{[], refl, ◌≡◌}
use tcp_port.Base.{All, ◌↔◌}
use tcp_port.Mongo.Bodies.{until_zero_iff}
use tcp_port.Base.{leb_false→lt, ltb_false→le}

-- No error value.
unfoldable pub Settles : {A : Type 0} → Outcome A → Type 0
Settles (ok a) = Unit {0}
Settles (fail e) = ⊥
Settles panic = Unit {0}

-- No error value, and no position behind `l`.
unfoldable Within : ℕ → Outcome (Bytes × Value × ℕ) → Type 0
Within l (ok p) = p.2 ≤ l
Within l (fail e) = ⊥
Within l panic = Unit {0}

if-Settles :
    {A : Type 0} (b : Bool) (x y : Outcome A) → Settles x → Settles y → Settles (if b then x else y)
if-Settles true x y h k = h
if-Settles false x y h k = k

then-Settles :
    {A B : Type 0} (x : Outcome A) (f : A → B) → Settles x → Settles (x >>= λ a. ok (f a))
unfolding Settles
then-Settles (ok a) f h = tt
then-Settles (fail e) f h = h
then-Settles panic f h = tt

then-Within :
    (l : ℕ) (x : Outcome (Value × ℕ)) (f : Value × ℕ → Bytes × Value × ℕ)
    → Settles x
    → ((p : Value × ℕ) → (f p).2 ≤ l)
    → Within l (x >>= λ p. ok (f p))
unfolding Settles Within
then-Within l (ok p) f h k = k p
then-Within l (fail e) f h k = h
then-Within l panic f h k = tt

zero_from-le : (s : Bytes) (i : ℕ) → i ≤ length s → zero_from s i ≤ length s
zero_from-le s i h = omega (arith, h, until_zero-le (drop i s), length-drop i s)

length-cut-le : (s : Bytes) (i j : ℕ) → length (cut s i j) ≤ length s - i
length-cut-le s i j = omega (arith, length-take (j - i) (drop i s), length-drop i s)

if-Within :
    (l : ℕ) (b : Bool) (x y : Outcome (Bytes × Value × ℕ))
    → (b ≡ true → Within l x)
    → (b ≡ false → Within l y)
    → Within l (if b then x else y)
if-Within l true x y h k = h refl
if-Within l false x y h k = k refl

stop-Settles :
    {A : Type 0} (b : Bool) (x y : Outcome A)
    → Settles x
    → (b ≡ false → Settles y)
    → Settles (elim b [ true ↦ x | false ↦ y ])
stop-Settles true x y h k = h
stop-Settles false x y h k = k refl

module _ (format_time : ℤ → Bytes) where
  -- What the parser of the nested documents is called on: at least `k` bytes shorter than `s`.
  abbrev SettlesBelow : ℕ → (Bytes → ℕ → Outcome (Option Fields)) → Type 0
  SettlesBelow l map = (t : Bytes) (spare : ℕ) → length t ≤ l → Settles (map t spare)

  nested-Settles :
      (map : Bytes → ℕ → Outcome (Option Fields)) (s : Bytes) (spare i : ℕ)
      (make : Option Fields → Value)
      → SettlesBelow (length s - i) map
      → Settles (nested format_time map s spare i make)
  unfolding Settles
  nested-Settles map s spare i make h =
      let end = i + le32 s i in
      if-Settles (leb (i + 4) (length s)) _ (ok (nothing, i))
        (if-Settles (leb end (length s)) _ (ok (nothing, end))
          (then-Settles (map (cut s i end) (spare + (length s - end))) (λ m. (make m, end))
            (h (cut s i end) _ (length-cut-le s i end)))
          tt)
        tt

  parse_regex-Settles : (s : Bytes) (spare i : ℕ) → Settles (parse_regex format_time s spare i)
  unfolding parse_regex Settles
  parse_regex-Settles s spare i =
      if-Settles (ltb (length s + spare) (zero_from s (zero_from s i + 1))) _ _ tt tt

  parse_value-Settles :
      (map : Bytes → ℕ → Outcome (Option Fields)) (typ : ℕ) (s : Bytes) (spare i : ℕ)
      → SettlesBelow (length s - i) map
      → Settles (parse_value format_time map typ s spare i)
  unfolding parse_value Settles
  parse_value-Settles map typ s spare i h = if-Settles (typ == 0x01) _ _ tt (
      if-Settles (typ == 0x02) _ _ tt (
        if-Settles (typ == 0x03) _ _ (nested-Settles map s spare i (λ m. document (fields_of m)) h)
          (if-Settles (typ == 0x04) _ _
            (nested-Settles map s spare i (λ m. sequence (items_of (fields_of m))) h)
            (if-Settles (typ == 0x05) _ _ tt (
              if-Settles (typ == 0x06) _ _ tt (
                if-Settles (typ == 0x07) _ _ tt (
                  if-Settles (typ == 0x08) _ _ tt (
                    if-Settles (typ == 0x09) _ _ tt (
                      if-Settles (typ == 0x0b) _ _ (parse_regex-Settles s spare i) (
                        if-Settles (typ == 0x0d) _ _ tt (
                          if-Settles (typ == 0x0f) _ _ tt (
                            if-Settles (typ == 0x10) _ _ tt (
                              if-Settles (typ == 0x11 || typ == 0x12) _ _ tt (
                                if-Settles (typ == 0x13) _ _ tt (
                                  if-Settles (typ == 0x7f) _ _ tt
                                    (if-Settles (typ == 0xff) _ _ tt tt))))))))))))))))

  parse_bson_element-Within :
      (map : Bytes → ℕ → Outcome (Option Fields)) (s : Bytes) (spare i : ℕ)
      → i ≤ length s
      → SettlesBelow (length s - (i + 2)) map
      → Within (length s) (parse_bson_element format_time map s spare i)
  unfolding parse_bson_element Within
  parse_bson_element-Within map s spare i k h =
      let key_end = zero_from s (i + 1) in
      if-Within (length s) (leb (length s) i) (ok ([], nothing, i)) _ (λ end. k)
        (λ more.
          if-Within (length s) (leb (length s) key_end) (ok ([], nothing, key_end)) _
            (λ short. zero_from-le s (i + 1) (omega (arith, leb_false→lt (length s) i more)))
            (λ long.
              then-Within (length s) (parse_value format_time map (at s i) s spare (key_end + 1)) _
                (parse_value-Settles map (at s i) s spare (key_end + 1)
                  (λ t spare' l. h t spare' (omega (arith, l))))
                (λ p. ground arith)))

  after_element-Settles :
      (loop : ℕ → Fields → Outcome Fields) (i l : ℕ) (m : Fields) (x : Outcome (Bytes × Value × ℕ))
      → Within l x
      → ((j : ℕ) (m' : Fields) → i < j → j ≤ l → Settles (loop j m'))
      → Settles (
          x >>= λ p. elim (leb p.2 i) [
            | true ↦ ok (put_value format_time p.0 p.1 m)
            | false ↦ loop p.2 (put_value format_time p.0 p.1 m)
          ])
  unfolding Within Settles
  after_element-Settles loop i l m (ok p) h k =
      stop-Settles (leb p.2 i) (ok _) _ tt
        (λ go. k p.2 (put_value format_time p.0 p.1 m) (leb_false→lt p.2 i go) h)
  after_element-Settles loop i l m (fail e) h k = h
  after_element-Settles loop i l m panic h k = tt

  start_map-Settles :
      (loop : Bytes → ℕ → ℕ → ℕ → Fields → Outcome Fields) (s : Bytes) (spare : ℕ)
      → (4 ≤ length s → Settles (loop s spare (doc_size format_time s) 4 no_fields))
      → Settles (start_map format_time loop s spare)
  unfolding Settles
  start_map-Settles loop s spare h = elim (Bool-cases (ltb (length s) 5)) [
    | inl short ↦ rw short tt
    | inr long ↦ rw long (
        then-Settles (loop s spare (doc_size format_time s) 4 no_fields) _
          (h (omega (arith, ltb_false→le (length s) 5 long))))
  ]

  map_loop-Settles :
      (n : ℕ) (s : Bytes) (spare size i : ℕ) (m : Fields)
      → length s < n + i
      → i ≤ length s
      → Settles (map_loop format_time n s spare size i m)
  unfolding map_loop Settles
  map_loop-Settles zero s spare size i m h k = absurd (omega (arith, h, k))
  map_loop-Settles (suc n) s spare size i m h k =
      if-Settles (ltb i (size - 1) && not (at s i == 0)) _ (ok m)
        (after_element-Settles (λ j m'. map_loop format_time n s spare size j m') i (length s) m
          (parse_bson_element format_time (start_map format_time (map_loop format_time n)) s spare
            i)
          (parse_bson_element-Within (start_map format_time (map_loop format_time n)) s spare i k
            (λ t spare' l. start_map-Settles (map_loop format_time n) t spare' (λ four.
              map_loop-Settles n t spare' (doc_size format_time t) 4 no_fields (omega arith) four)))
          (λ j m' b c. map_loop-Settles n s spare size j m' (omega arith) c))
        tt

  -- A document, of any bytes, comes to a map, to nil, or to a panic: its rounds are never used up.
  pub bson_to_map-Settles : (s : Bytes) (spare : ℕ) → Settles (bson_to_map format_time s spare)
  unfolding bson_to_map
  bson_to_map-Settles s spare =
      start_map-Settles (map_loop format_time (suc (length s))) s spare (λ four.
        map_loop-Settles (suc (length s)) s spare (doc_size format_time s) 4 no_fields (omega arith)
          four)

  -- A regular expression in a document that ends with its array panics exactly when no zero byte
  -- stands behind the pattern.
  pub parse_regex-panic_iff :
      (s : Bytes) (i : ℕ)
      → i ≤ length s
      → (parse_regex format_time s 0 i ≡ panic) ↔ All (λ b. b ≢ 0) (drop i s)
  unfolding parse_regex
  parse_regex-panic_iff s i h = ground (
    arith,
    until_zero_iff (drop i s),
    until_zero-le (drop i s),
    length-drop i s,
    until_zero-le (drop (zero_from s i + 1) s),
    length-drop (zero_from s i + 1) s,
  )
