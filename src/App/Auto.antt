-- ===== src/App/Auto.antt =====
-- `autoHandler.run`, the detector of `main`, `findSubcommand` and `subcommandByName` of main.go. A
-- detector and a subcommand are what the tables of the source list, given as parameters: some of
-- the detectors are not modelled.
use tcp_port.Base.{
  All, Bool, List, Option, [], equal, false, if◌then◌else◌, length, ltb, none, not, some, suc, take,
  true, ℕ, ◌&&◌, ◌<◌, ◌||◌, ◌↔◌, ◌∷◌, ◌≡◌, ◌≤◌,
}
use tcp_port.Base.Slice.{Bytes}
use tcp_port.Base.Text.{codes, has_prefix}
use tcp_port.Base.{Bool-cases, arith, inl, inr, lt→ltb, refl}
use tcp_port.Base.{Option-cases}
use tcp_port.Base.{drop}

pub record Detector : Type 0 where
  pub name : Bytes
  pub fn : Bytes → Bool

-- The first detector that takes the bytes, if they are not empty; `none` closes the streams.
unfoldable pub run_auto : List Detector → Bytes → Option Bytes
run_auto [] peek = none
run_auto (d ∷ ds) peek = if ltb 0 (length peek) && d.fn peek then some d.name else run_auto ds peek

-- The detector that `main` gives to the assembler in auto mode.
unfoldable pub detects_any : List Detector → Bytes → Bool
detects_any [] s = false
detects_any (d ∷ ds) s = if d.fn s then true else detects_any ds s

-- `findSubcommand`: `none` for -1, and the number of arguments if there is no subcommand.
unfoldable pub find_subcommand : List Bytes → Option ℕ
find_subcommand [] = some 0
find_subcommand (a ∷ rest) =
    if not (has_prefix a (codes "-"))
    then some 0
    else if equal a (codes "-h") || equal a (codes "--help")
    then none
    else elim (find_subcommand rest) [ none ↦ none | some i ↦ some (suc i) ]

pub record Subcommand : Type 0 where
  pub name : Bytes
  pub aliases : List Bytes

unfoldable pub has_alias : List Bytes → Bytes → Bool
has_alias [] name = false
has_alias (a ∷ rest) name = if equal a name then true else has_alias rest name

unfoldable pub subcommand_by_name : List Subcommand → Bytes → Option Subcommand
unfolding has_alias
subcommand_by_name [] name = none
subcommand_by_name (c ∷ cs) name =
    if equal c.name name
    then some c
    else if has_alias c.aliases name
    then some c
    else subcommand_by_name cs name

-- A connection that the assembler's detector lets through on some bytes gets a handler on the same
-- bytes, and one that it does not let through gets none. The bytes are not empty.
pub run_auto-detects_any :
    (ds : List Detector) (s : Bytes)
    → 0 < length s
    → (detects_any ds s ≡ true) ↔ ((name : Bytes) × (run_auto ds s ≡ some name))
unfolding run_auto detects_any
run_auto-detects_any [] s h = (λ e. absurd (cc), λ p. absurd (let e = p.1 in cc))
run_auto-detects_any (d ∷ ds) s h = elim (Bool-cases (d.fn s)) [
  | inl takes ↦ (λ e. (d.name, rw (lt→ltb 0 (length s) h, takes) refl), λ p. rw takes refl)
  | inr leaves ↦
      let (to, from) = run_auto-detects_any ds s h in
      (
        λ e.
            let (name, hit) = to (rw leaves at e) in (name, rw (lt→ltb 0 (length s) h, leaves) hit),
        λ p. rw leaves (from (p.0, rw (lt→ltb 0 (length s) h, leaves) at p.1)),
      )
]

find_subcommand-dash :
    (a : Bytes) (rest : List Bytes) (i : ℕ)
    → has_prefix a (codes "-") ≡ true
    → find_subcommand (a ∷ rest) ≡ some i
    → (j : ℕ) × (i ≡ suc j) × (find_subcommand rest ≡ some j)
unfolding find_subcommand
find_subcommand-dash a rest i dash e = elim (Option-cases (find_subcommand rest)) [
  | inl n ↦ absurd (ground arith)
  | inr p ↦ let (j, hit) = p in (j, ground arith, hit)
]

-- The position of the subcommand is that of the first argument without a dash: everything before
-- it starts with a dash.
pub find_subcommand-first :
    (args : List Bytes) (i : ℕ)
    → find_subcommand args ≡ some i
    → (i ≤ length args)
      × All (λ a. has_prefix a (codes "-") ≡ true) (take i args)
      × All (λ a. has_prefix a (codes "-") ≡ false) (take 1 (drop i args))
unfolding find_subcommand
find_subcommand-first [] i e = (ground arith, ground arith, ground arith)
find_subcommand-first (a ∷ rest) i e = elim (Bool-cases (has_prefix a (codes "-"))) [
  | inl dash ↦
      let (j, step, hit) = find_subcommand-dash a rest i dash e in
      let (low, before, plain) = find_subcommand-first rest j hit in
      rw step (omega (arith, low), (dash, before), plain)
  | inr plain ↦ let start : i ≡ 0 = ground arith in rw start (omega arith, tt, (plain, tt))
]
