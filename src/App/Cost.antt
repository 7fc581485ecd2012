-- ===== src/App/Cost.antt =====
-- `matchCost` of main.go. `parse_int` stands for `strconv.ParseInt(text, 10, 64)`, `none` for its
-- error. The text has been trimmed by `strings.TrimSpace`, a parameter too.
pub mod Forms
use tcp_port.Base.{Bool, Option, [], if◌then◌else◌, none, some, true, ℕ, ◌&&◌, ◌==◌, ◌∷◌}
use tcp_port.Base.Int.{eq_ℤ, leb_ℤ, ℤ}
use tcp_port.Base.Slice.{Bytes}
use tcp_port.Base.Text.{codes, contains, split_first}

-- `strings.HasSuffix(s, c)` and `strings.TrimSuffix(s, c)` for one byte: the text before it.
unfoldable pub before_last : ℕ → Bytes → Option Bytes
before_last c [] = none
before_last c (b ∷ []) = if b == c then some [] else none
before_last c (b ∷ bs) = elim (before_last c bs) [ none ↦ none | some s ↦ some (b ∷ s) ]

-- `strings.TrimPrefix(s, c)` where `strings.HasPrefix(s, c)`.
unfoldable pub behind_first : ℕ → Bytes → Option Bytes
behind_first c [] = none
behind_first c (b ∷ bs) = if b == c then some bs else none

module _ (trim_space : Bytes → Bytes) (parse_int : Bytes → Option ℤ) where
  -- `ParseInt` of the text that a test has cut out, if it holds.
  abbrev parse_part : Option Bytes → Option ℤ
  parse_part none = none
  parse_part (some s) = parse_int s

  -- A text behind a leading `-` that has no second one.
  abbrev behind_only : Bytes → Option Bytes
  behind_only filter = elim (behind_first b'-' filter) [
    | none ↦ none
    | some s ↦ if contains s (codes "-") then none else some s
  ]

  abbrev pub parse_range : Bytes → Option (ℤ × ℤ)
  parse_range filter = elim (split_first b'-' filter) [
    | none ↦ none
    | some p ↦ elim (parse_int p.0) [
      | none ↦ none
      | some low ↦ elim (parse_int p.1) [ none ↦ none | some high ↦ some (low, high) ]
    ]
  ]

  abbrev pub exact : ℤ → Bytes → Bool
  exact ms filter = elim (parse_int filter) [ none ↦ true | some t ↦ eq_ℤ ms t ]

  abbrev pub range_or_exact : ℤ → Bytes → Bool
  range_or_exact ms filter = elim (parse_range filter) [
    | none ↦ exact ms filter
    | some r ↦ leb_ℤ r.0 ms && leb_ℤ ms r.1
  ]

  -- The tests in their order, each on the text or, where it does not parse, the next.
  unfoldable pub match_trimmed : ℤ → Bytes → Bool
  match_trimmed ms [] = true
  match_trimmed ms (c ∷ cs) =
      let filter = c ∷ cs in
      elim (parse_part (before_last b'+' filter)) [
        | some t ↦ leb_ℤ t ms
        | none ↦ elim (parse_part (behind_first b'+' filter)) [
          | some t ↦ leb_ℤ t ms
          | none ↦ elim (parse_part (before_last b'-' filter)) [
            | some t ↦ leb_ℤ ms t
            | none ↦ elim (parse_part (behind_only filter)) [
              | some t ↦ leb_ℤ ms t
              | none ↦ range_or_exact ms filter
            ]
          ]
        ]
      ]

  unfoldable pub match_cost : ℤ → Bytes → Bool
  match_cost ms filter = match_trimmed ms (trim_space filter)
