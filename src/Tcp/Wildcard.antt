-- ===== src/Tcp/Wildcard.antt =====
-- `WildcardMatch` of tcpport/text.go. The positions `i` and `j` are the suffixes of the text and of
-- the pattern that start there; `asterisk` and `match` are the suffixes behind the last asterisk
-- and from the position that the text is tried at, or `none` for an asterisk of -1.
use tcp_port.Base.{
  Bool, Option, [], drop, false, if◌then◌else◌, length, none, some, suc, true, zero, ℕ, ◌*◌, ◌+◌,
  ◌==◌, ◌||◌, ◌∷◌,
}
use tcp_port.Base.Slice.{Bytes}
use tcp_port.Base.{arith, refl, ◌≡◌, ◌≢◌}
use tcp_port.Base.{◌<◌, ◌≤◌}

-- `for j < n && pattern[j] == '*' { j++ }; return j == n`
unfoldable pub only_stars : Bytes → Bool
only_stars [] = true
only_stars (p ∷ ps) = if p == b'*' then only_stars ps else false

abbrev pub agrees : ℕ → ℕ → Bool
agrees c p = c == p || p == b'?'

-- The loop, for at most `fuel` rounds.
unfoldable pub match_loop : ℕ → Bytes → Bytes → Option (Bytes × Bytes) → Bool
unfolding only_stars
match_loop zero str pattern saved = false
match_loop (suc fuel) [] pattern saved = only_stars pattern
match_loop (suc fuel) (c ∷ str) pattern saved =
    let retry : Bool = elim saved [
      | none ↦ false
      | some mp ↦ match_loop fuel (drop 1 mp.0) mp.1 (some (drop 1 mp.0, mp.1))
    ] in
    elim pattern [
      | [] ↦ retry
      | p ∷ ps ↦ elim (p == b'*') [
        | true ↦ match_loop fuel (c ∷ str) ps (some (c ∷ str, ps))
        | false ↦ if agrees c p then match_loop fuel str ps saved else retry
      ]
    ]

unfoldable pub wildcard_match : Bytes → Bytes → Bool
wildcard_match str pattern = match_loop ((length str + 2) * (length pattern + 2)) str pattern none

-- What a pattern matches: `*` any text, `?` any byte, and another byte itself.
unfoldable pub matches : Bytes → Bytes → Bool
matches [] [] = true
matches (c ∷ s) [] = false
matches [] (p ∷ ps) = if p == b'*' then matches [] ps else false
matches (c ∷ s) (p ∷ ps) =
    if p == b'*'
    then matches (c ∷ s) ps || matches s (p ∷ ps)
    else if agrees c p
    then matches s ps
    else false

-- Whether the pattern matches what is left behind at least one byte of the text.
unfoldable matches_after : Bytes → Bytes → Bool
matches_after [] p = false
matches_after (c ∷ s) p = matches s p || matches_after s p

only_stars-matches : (p : Bytes) → only_stars p ≡ matches [] p
unfolding only_stars matches
only_stars-matches [] = refl
only_stars-matches (p ∷ ps) = ground (arith, only_stars-matches ps)

matches-star : (s ps : Bytes) → matches s (b'*' ∷ ps) ≡ (matches s ps || matches_after s ps)
unfolding matches matches_after
matches-star [] ps = ground arith
matches-star (c ∷ s) ps = ground (arith, matches-star s ps)

matches_after-star :
    (s ps : Bytes) → matches_after s (b'*' ∷ ps) ≡ true → matches s (b'*' ∷ ps) ≡ true
unfolding matches matches_after
matches_after-star [] ps h = cc
matches_after-star (c ∷ s) ps h = ground (arith, matches_after-star s ps)

matches_after-step :
    (c p : ℕ) (s ps : Bytes)
    → p ≢ b'*'
    → matches_after (c ∷ s) (p ∷ ps) ≡ true
    → matches_after s ps ≡ true
unfolding matches matches_after
matches_after-step c p [] ps n h = ground arith
matches_after-step c p (d ∷ s) ps n h = ground (arith, matches_after-step d p s ps n)

-- The rounds that the loop may still take.
abbrev rounds : ℕ → ℕ → ℕ → ℕ
rounds start len width = start * (width + 1) + len

rounds-retry :
    (start len q width fuel : ℕ)
    → q ≤ width
    → rounds (suc start) len width < suc fuel
    → rounds start q width < fuel
rounds-retry start len q width fuel h e = omega arith

mul_mono : (a b c : ℕ) → a ≤ b → a * c ≤ b * c
mul_mono zero b c h = omega arith
mul_mono (suc a) zero c h = absurd (omega (arith, h))
mul_mono (suc a) (suc b) c h = omega (arith, mul_mono a b c (omega (arith, h)))

rounds-star :
    (start s len width fuel : ℕ)
    → s ≤ start
    → rounds start (suc len) width < suc fuel
    → rounds s len width < fuel
rounds-star start s len width fuel h e = omega (arith, mul_mono s start (width + 1) h)

-- The loop with an asterisk behind it: `after` says whether an earlier start may still succeed.
-- What it would give is found by going on, since every later match of the old asterisk is a later
-- match of what is left of the pattern.
match_loop-saved :
    (fuel width : ℕ) (s p m q : Bytes)
    → length s ≤ length m
    → length q ≤ width
    → length p ≤ width
    → rounds (length m) (length p) width < fuel
    → (matches_after m q ≡ true → matches_after s p ≡ true)
    → match_loop fuel s p (some (m, q)) ≡ (matches s p || matches_after m q)
unfolding match_loop matches_after matches
match_loop-saved zero width s p m q h k l e inv = elim e [ ]
match_loop-saved (suc fuel) width (c ∷ s) p [] q h k l e inv = elim h [ ]
match_loop-saved (suc fuel) width [] p m q h k l e inv = ground (arith, only_stars-matches p)
match_loop-saved (suc fuel) width (c ∷ s) [] (d ∷ m) q h k l e inv =
    let retry = rounds-retry (length m) 0 (length q) width fuel k e in
    match_loop-saved fuel width m q m q (omega arith) k k retry (λ y. y)
match_loop-saved (suc fuel) width (c ∷ s) (p ∷ ps) (d ∷ m) q h k l e inv =
    let retry = rounds-retry (length m) (suc (length ps)) (length q) width fuel k e in
    let again = match_loop-saved fuel width m q m q (omega arith) k k retry (λ y. y) in
    let ahead = rounds-star (suc (length m)) (suc (length s)) (length ps) width fuel h e in
    let star =
      match_loop-saved fuel width (c ∷ s) ps (c ∷ s) ps (omega arith) (omega arith) (omega arith)
        ahead (λ y. y) in
    let on =
      match_loop-saved fuel width s ps (d ∷ m) q (omega arith) k (omega arith) (omega arith) in
    ground (
      arith,
      again,
      star,
      on,
      inv,
      matches-star (c ∷ s) ps,
      matches_after-star (c ∷ s) ps,
      matches_after-step c p s ps,
    )

match_loop-none :
    (fuel width : ℕ) (s p : Bytes)
    → length p ≤ width
    → rounds (suc (length s)) (length p) width < fuel
    → match_loop fuel s p none ≡ matches s p
unfolding match_loop matches
match_loop-none zero width s p l e = elim e [ ]
match_loop-none (suc fuel) width [] p l e = only_stars-matches p
match_loop-none (suc fuel) width (c ∷ s) [] l e = refl
match_loop-none (suc fuel) width (c ∷ s) (p ∷ ps) l e =
    let size = suc (length s) in
    let ahead = rounds-star (suc size) size (length ps) width fuel (omega arith) e in
    let star =
      match_loop-saved fuel width (c ∷ s) ps (c ∷ s) ps (omega arith) (omega arith) (omega arith)
        ahead (λ y. y) in
    let next = rounds-star (suc size) size (length ps) width fuel (omega arith) e in
    let on = match_loop-none fuel width s ps (omega arith) next in
    ground (arith, star, on, matches-star (c ∷ s) ps)

-- The wildcard match decides, for every text and every pattern, whether the pattern matches: it is
-- the recursion over the pattern's meaning, and its rounds are never used up.
pub wildcard_match-matches :
    (str pattern : Bytes) → wildcard_match str pattern ≡ matches str pattern
unfolding wildcard_match
wildcard_match-matches str pattern =
    match_loop-none ((length str + 2) * (length pattern + 2)) (length pattern) str pattern
      (omega arith) (omega arith)
