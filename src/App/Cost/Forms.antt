-- ===== src/App/Cost/Forms.antt =====
-- The forms of a filter that the comment on `matchCost` (main.go) names.
use tcp_port.Base.Int.{pos}
use tcp_port.App.Cost.{before_last}
use tcp_port.Base.{
  All, [], arith, false, length, none, refl, some, ℕ, ◌++◌, ◌<◌, ◌==◌, ◌∷◌, ◌≡◌, ◌≢◌,
}
use tcp_port.Base.Digits.{IsDigit}
use tcp_port.Base.Slice.{Bytes}
use tcp_port.Base.Text.{split_first}
use tcp_port.App.Cost.{behind_first, match_trimmed}
use tcp_port.Base.{Option}
use tcp_port.Base.Int.{leb_ℤ, ℤ}
use tcp_port.Base.Text.{codes, contains, has_prefix}
use tcp_port.Base.{◌&&◌}
use tcp_port.Base.Int.{eq_ℤ}
use tcp_port.App.Cost.{match_cost, parse_range, range_or_exact}
use tcp_port.Base.{◌^◌}
use tcp_port.Base.Digits.{dec-IsDigit, dec-some}
use tcp_port.Base.Text.{dec}
use tcp_port.App.Cost.{exact}

before_last-append : (c : ℕ) (s : Bytes) → before_last c (s ++ (c ∷ [])) ≡ some s
unfolding before_last
before_last-append c [] = ground arith
before_last-append c (a ∷ []) = ground arith
before_last-append c (a ∷ b ∷ s) = rw (before_last-append c (b ∷ s)) refl

-- A text that a byte of another kind ends, or starts, or stands in.
before_last-none : (c : ℕ) (s : Bytes) → All (λ b. b ≢ c) s → before_last c s ≡ none
unfolding before_last
before_last-none c [] h = refl
before_last-none c (b ∷ []) h = ground (arith, h.0)
before_last-none c (a ∷ b ∷ s) h = rw (before_last-none c (b ∷ s) h.1) refl

before_last-behind :
    (c : ℕ) (s t : Bytes) → 0 < length t → before_last c t ≡ none → before_last c (s ++ t) ≡ none
unfolding before_last
before_last-behind c [] t k e = e
before_last-behind c (a ∷ []) [] k e = absurd (omega (arith, k))
before_last-behind c (a ∷ []) (b ∷ t) k e = rw e refl
before_last-behind c (a ∷ b ∷ s) t k e = rw (before_last-behind c (b ∷ s) t k e) refl

split_first-append :
    (c : ℕ) (s t : Bytes) → All (λ b. b ≢ c) s → split_first c (s ++ (c ∷ t)) ≡ some (s, t)
unfolding split_first
split_first-append c [] t h = ground arith
split_first-append c (b ∷ s) t h =
    let differs : (b == c) ≡ false = ground (arith, h.0) in
    rw (differs, split_first-append c s t h.1) refl

split_first-none : (c : ℕ) (s : Bytes) → All (λ b. b ≢ c) s → split_first c s ≡ none
unfolding split_first
split_first-none c [] h = refl
split_first-none c (b ∷ s) h =
    let differs : (b == c) ≡ false = ground (arith, h.0) in
    rw (differs, split_first-none c s h.1) refl

digits-differ : (c : ℕ) (s : Bytes) → c < 48 → All IsDigit s → All (λ b. b ≢ c) s
unfolding IsDigit
digits-differ c [] k h = tt
digits-differ c (b ∷ s) k h = (λ e. omega (arith, e, k, h.0), digits-differ c s k h.1)

digits-contains : (s : Bytes) → All IsDigit s → contains s (codes "-") ≡ false
unfolding contains has_prefix IsDigit
digits-contains [] h = refl
digits-contains (b ∷ s) h =
    let differs : (b == b'-') ≡ false = ground (arith, h.0) in
    rw (differs, digits-contains s h.1) refl

behind_first-digit : (c b : ℕ) (s : Bytes) → c < 48 → IsDigit b → behind_first c (b ∷ s) ≡ none
unfolding behind_first IsDigit
behind_first-digit c b s k h =
    let differs : (b == c) ≡ false = ground (arith, h.0, k) in rw differs refl

before_last-same :
    (c : ℕ) (s : Bytes) → c < 48 → 0 < length s → All IsDigit s → before_last c (c ∷ s) ≡ none
before_last-same c s k l h =
    before_last-behind c (c ∷ []) s l (before_last-none c s (digits-differ c s k h))

behind_first-other : (c b : ℕ) (s : Bytes) → b ≢ c → behind_first c (b ∷ s) ≡ none
unfolding behind_first
behind_first-other c b s h = ground (arith, h)

behind_first-same : (c : ℕ) (s : Bytes) → behind_first c (c ∷ s) ≡ some s
unfolding behind_first
behind_first-same c s = ground arith

-- A character of ASCII that is seen.
abbrev pub IsVisible : ℕ → Type 0
IsVisible c = (32 < c) × (c < 127)

digits-above : (s : Bytes) → All IsDigit s → All IsVisible s
unfolding IsDigit
digits-above [] h = tt
digits-above (c ∷ s) h = ((omega (arith, h.0), omega (arith, h.0)), digits-above s h.1)

above-append : (s t : Bytes) → All IsVisible s → All IsVisible t → All IsVisible (s ++ t)
above-append [] t h k = k
above-append (c ∷ s) t h k = (h.0, above-append s t h.1 k)

module _ (trim_space : Bytes → Bytes) (parse_int : Bytes → Option ℤ) (ms : ℤ) where
  -- A filter that matches what is `low` or more, what is `low` or less, what is from `low` to `high`,
  -- or `low`.
  abbrev Matches : Bytes → Bytes → ℤ → ℤ → Type 0
  Matches low high m n =
      (match_trimmed trim_space parse_int ms (low ++ codes "+") ≡ leb_ℤ m ms)
      × (match_trimmed trim_space parse_int ms (b'+' ∷ low) ≡ leb_ℤ m ms)
      × (match_trimmed trim_space parse_int ms (low ++ codes "-") ≡ leb_ℤ ms m)
      × (match_trimmed trim_space parse_int ms (b'-' ∷ low) ≡ leb_ℤ ms m)
      × (match_trimmed trim_space parse_int ms (low ++ (b'-' ∷ high)) ≡ (leb_ℤ m ms && leb_ℤ ms n))
      × (match_trimmed trim_space parse_int ms low ≡ eq_ℤ ms m)

  Matches-digits :
      (low high : Bytes) (m n : ℤ)
      → 0 < length low
      → 0 < length high
      → All IsDigit low
      → All IsDigit high
      → parse_int low ≡ some m
      → parse_int high ≡ some n
      → Matches low high m n
  unfolding match_trimmed
  Matches-digits [] high m n k l h h' e e' = absurd (omega (arith, k))
  Matches-digits (c ∷ cs) high m n k l h h' e e' =
      let low = c ∷ cs in
      let not_plus = digits-differ b'+' low (omega arith) h in
      let not_minus = digits-differ b'-' low (omega arith) h in
      let high_plus = digits-differ b'+' high (omega arith) h' in
      (
        rw (match_trimmed, before_last-append b'+' low, e) refl,
        rw
            (
              match_trimmed,
              before_last-same b'+' low (omega arith) k h,
              behind_first-same b'+' low,
              e,
            )
            refl,
        rw
            (
              match_trimmed,
              before_last-behind b'+' low (codes "-") (omega arith)
                  (before_last-none b'+' (codes "-") (omega arith, tt)),
              behind_first-digit b'+' c (cs ++ codes "-") (omega arith) h.0,
              before_last-append b'-' low,
              e,
            )
            refl,
        rw
            (
              match_trimmed,
              before_last-none b'+' (b'-' ∷ low) (omega arith, not_plus),
              behind_first-other b'+' b'-' low (omega arith),
              before_last-same b'-' low (omega arith) k h,
              behind_first-same b'-' low,
              digits-contains low h,
              e,
            )
            refl,
        rw
            (
              match_trimmed,
              before_last-behind b'+' low (b'-' ∷ high) (omega arith)
                  (before_last-none b'+' (b'-' ∷ high) (omega arith, high_plus)),
              behind_first-digit b'+' c (cs ++ (b'-' ∷ high)) (omega arith) h.0,
              before_last-behind b'-' low (b'-' ∷ high) (omega arith)
                  (before_last-same b'-' high (omega arith) l h'),
              behind_first-digit b'-' c (cs ++ (b'-' ∷ high)) (omega arith) h.0,
              range_or_exact,
              parse_range,
              split_first-append b'-' low high not_minus,
              e,
              e',
            )
            refl,
        rw
            (
              match_trimmed,
              before_last-none b'+' low not_plus,
              behind_first-digit b'+' c cs (omega arith) h.0,
              before_last-none b'-' low not_minus,
              behind_first-digit b'-' c cs (omega arith) h.0,
              range_or_exact,
              parse_range,
              split_first-none b'-' low not_minus,
              exact,
              e,
            )
            refl,
      )

-- The filters of the numbers `a` and `b` match a cost of `ms` as the comment says: `a+` and `+a` what
-- is `a` or more, `a-` and `-a` what is `a` or less, `a-b` what is from `a` to `b`, and `a` alone what
-- is `a`. The parser of numbers is taken to read decimal digits back, and the trimming to leave
-- texts of visible ASCII characters, without spaces, as they are.
pub match_cost-forms :
    (trim_space : Bytes → Bytes) (parse_int : Bytes → Option ℤ) (ms : ℤ) (a b : ℕ)
    → ((s : Bytes) → All IsVisible s → trim_space s ≡ s)
    → ((n : ℕ) → n < 2 ^ 63 → parse_int (dec n) ≡ some (pos n))
    → a < 2 ^ 63
    → b < 2 ^ 63
    → (match_cost trim_space parse_int ms (dec a ++ codes "+") ≡ leb_ℤ (pos a) ms)
      × (match_cost trim_space parse_int ms (b'+' ∷ dec a) ≡ leb_ℤ (pos a) ms)
      × (match_cost trim_space parse_int ms (dec a ++ codes "-") ≡ leb_ℤ ms (pos a))
      × (match_cost trim_space parse_int ms (b'-' ∷ dec a) ≡ leb_ℤ ms (pos a))
      × (match_cost trim_space parse_int ms (dec a ++ (b'-' ∷ dec b))
          ≡ (leb_ℤ (pos a) ms && leb_ℤ ms (pos b)))
      × (match_cost trim_space parse_int ms (dec a) ≡ eq_ℤ ms (pos a))
unfolding match_cost
match_cost-forms trim_space parse_int ms a b trim parse k l =
    let low = digits-above (dec a) (dec-IsDigit a) in
    let high = digits-above (dec b) (dec-IsDigit b) in
    let e =
      Matches-digits trim_space parse_int ms (dec a) (dec b) (pos a) (pos b) (dec-some a)
        (dec-some b) (dec-IsDigit a) (dec-IsDigit b) (parse a k) (parse b l) in
    (
      rw
          (trim (dec a ++ codes "+")
            (above-append (dec a) (codes "+") low ((omega arith, omega arith), tt)))
          e.0,
      rw (trim (b'+' ∷ dec a) ((omega arith, omega arith), low)) e.1,
      rw
          (trim (dec a ++ codes "-")
            (above-append (dec a) (codes "-") low ((omega arith, omega arith), tt)))
          e.2,
      rw (trim (b'-' ∷ dec a) ((omega arith, omega arith), low)) e.3,
      rw
          (trim (dec a ++ (b'-' ∷ dec b))
            (above-append (dec a) (b'-' ∷ dec b) low ((omega arith, omega arith), high)))
          e.4,
      rw (trim (dec a) low) e.5,
    )
