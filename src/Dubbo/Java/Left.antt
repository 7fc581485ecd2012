-- ===== src/Dubbo/Java/Left.antt =====
-- Reading what is left of the bytes in dubboport/java_deserializer.go.
use tcp_port.Base.Cuts.{get_or-drop}
use tcp_port.Dubbo.Java.State.{◌>>=◌}
use tcp_port.Base.{
  [], ap, arith, drop, drop-append, false, get_or, length, length-append, length-drop, le→ltb_false,
  ltb, lt→leb_false, refl, sym, take, take-append, true, ℕ, ◌++◌, ◌+◌, ◌-◌, ◌<◌, ◌==◌, ◌^◌, ◌∙◌,
  ◌∷◌, ◌≡◌, ◌≤◌,
}
use tcp_port.Base.Cuts.{drop-drop}
use tcp_port.Base.Outcome.{Error}
use tcp_port.Base.Slice.{Bytes, at, put_be16}
use tcp_port.Dubbo.Java.State.{
  Deser, Step, and_then, exhausted, expect, parsed, peek, read_bytes, refused, wrap_error,
  wrap_result,
}
use tcp_port.Dubbo.Java.Strings.{read_utf}
use tcp_port.Base.Slice.{be16}

-- Behind position `i` there are these bytes.
abbrev pub Left : Bytes → ℕ → Bytes → Type 0
Left bytes i xs = (i ≤ length bytes) × (drop i bytes ≡ xs)

pub step-parsed :
    {A B : Type 0} (m : Step A) (f : A → Step B) (s s' : Deser) (a : A)
    → m s ≡ parsed a s'
    → (m >>= f) s ≡ f a s'
step-parsed m f s s' a h = ap (λ r. and_then r f) h

pub step-refused :
    {A B : Type 0} (m : Step A) (f : A → Step B) (s s' : Deser) (e : Error)
    → m s ≡ refused e s'
    → (m >>= f) s ≡ refused e s'
step-refused m f s s' e h = ap (λ r. and_then r f) h

pub step-exhausted :
    {A B : Type 0} (m : Step A) (f : A → Step B) (s : Deser)
    → m s ≡ exhausted
    → (m >>= f) s ≡ exhausted
step-exhausted m f s h = ap (λ r. and_then r f) h

pub wrap-parsed :
    {A : Type 0} (t : Bytes) (m : Step A) (s s' : Deser) (a : A)
    → m s ≡ parsed a s'
    → wrap_error t m s ≡ parsed a s'
wrap-parsed t m s s' a h = ap (wrap_result t) h

module _ (bytes : Bytes) where
  Left-length : (i : ℕ) (xs rest : Bytes) → Left bytes i (xs ++ rest) → i + length xs ≤ length bytes
  Left-length i xs rest h =
      omega (arith, ap length h.1, length-drop i bytes, length-append xs rest, h.0)

  pub Left-moved :
      (i n : ℕ) (xs rest : Bytes)
      → Left bytes i (xs ++ rest)
      → n ≡ length xs
      → Left bytes (i + n) rest
  Left-moved i n xs rest h e = (
    omega (arith, Left-length i xs rest h, e),
    sym (drop-drop i n bytes)
        ∙ (ap (drop n) h.1 ∙ (ap (λ k. drop k (xs ++ rest)) e ∙ drop-append xs rest)),
  )

  pub read_bytes-Left :
      (n : ℕ) (xs rest t : Bytes) (s : Deser)
      → Left bytes s.pos (xs ++ rest)
      → n ≡ length xs
      → read_bytes bytes n t s ≡ parsed xs (record s { pos = s.pos + n })
  unfolding read_bytes
  read_bytes-Left n xs rest t s h e =
      let behind : s.pos + n - s.pos ≡ n = omega arith in
      let fits : ltb (length bytes) (s.pos + n) ≡ false =
        le→ltb_false (length bytes) (s.pos + n) (omega (arith, Left-length s.pos xs rest h, e)) in
      let taken : take n (drop s.pos bytes) ≡ xs =
        ap (take n) h.1 ∙ (ap (λ k. take k (xs ++ rest)) e ∙ take-append xs rest) in
      rw (fits, behind, taken) refl

  Left-at : (i : ℕ) (c : ℕ) (rest : Bytes) → Left bytes i (c ∷ rest) → at bytes i ≡ c
  Left-at i c rest h =
      let e : i + 0 ≡ i = omega arith in
      ap (λ k. get_or bytes k 0) (sym e)
      ∙ (sym (get_or-drop i bytes 0 0) ∙ ap (λ xs. get_or xs 0 0) h.1)

  pub Left-inside : (i : ℕ) (c : ℕ) (rest : Bytes) → Left bytes i (c ∷ rest) → i < length bytes
  Left-inside i c rest h = omega (arith, Left-length i (c ∷ []) rest h)

  pub peek-Left :
      (c : ℕ) (rest t : Bytes) (s : Deser)
      → Left bytes s.pos (c ∷ rest)
      → peek bytes t s ≡ parsed c s
  unfolding peek
  peek-Left c rest t s h =
      rw (lt→leb_false (length bytes) s.pos (Left-inside s.pos c rest h), Left-at s.pos c rest h)
        refl

  pub expect-Left :
      (c : ℕ) (rest t : Bytes) (s : Deser)
      → Left bytes s.pos (c ∷ rest)
      → expect bytes c t s ≡ parsed tt (record s { pos = s.pos + 1 })
  unfolding expect
  expect-Left c rest t s h =
      let same : (c == c) ≡ true = ground arith in
      rw
        (
          lt→leb_false (length bytes) s.pos (Left-inside s.pos c rest h),
          Left-at s.pos c rest h,
          same,
        )
        refl

  -- A text with its length in two bytes.
  pub read_utf-Left :
      (xs rest : Bytes) (s : Deser)
      → length xs < 2 ^ 16
      → Left bytes s.pos (put_be16 (length xs) ++ (xs ++ rest))
      → read_utf bytes s ≡ parsed xs (record s { pos = s.pos + 2 + length xs })
  unfolding read_utf
  read_utf-Left [] rest s k h =
      let e : s.pos + 2 + 0 ≡ s.pos + 2 = omega arith in
      step-parsed (read_bytes bytes 2 _) _ s (record s { pos = s.pos + 2 }) (put_be16 0)
        (read_bytes-Left 2 (put_be16 0) rest _ s h refl)
      ∙ rw e refl
  read_utf-Left (x ∷ xs) rest s k h =
      let n = length (x ∷ xs) in
      let word : be16 (put_be16 n) 0 ≡ n = omega (arith, k) in
      let some_bytes : (n == 0) ≡ false = ground arith in
      let s' = record s { pos = s.pos + 2 } in
      step-parsed (read_bytes bytes 2 _) _ s s' (put_be16 n)
        (read_bytes-Left 2 (put_be16 n) ((x ∷ xs) ++ rest) _ s h refl)
      ∙ rw (word, some_bytes)
          (read_bytes-Left n (x ∷ xs) rest _ s'
            (Left-moved s.pos 2 (put_be16 n) ((x ∷ xs) ++ rest) h refl) refl)
