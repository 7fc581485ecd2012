-- ===== src/Dubbo/Cleaning.antt =====
-- dubboport/dubbo_protocol.go: `cleanClassName`. The positions at which `range` finds a letter of
-- `unicode.IsLetter` are a parameter.
use tcp_port.Base.{
  Bool, List, Option, [], ap, drop, if◌then◌else◌, leb, length, ltb, none, refl, some, ℕ, ◌&&◌,
  ◌++◌, ◌==◌, ◌∷◌, ◌≡◌,
}
use tcp_port.Base.Slice.{Bytes}
use tcp_port.Base.Text.{codes, has_prefix}
use tcp_port.Dubbo.Strings.{contains_dot, is_numeric_dot_only}
use tcp_port.Base.{Bool-cases, inl, inr, take}
use tcp_port.Base.{take-append-drop, ◌∙◌}
use tcp_port.Base.{Option-cases, append-nil}

-- `s[strings.Index(s, p):]`, if `p` is in `s`.
unfoldable pub from_sub : Bytes → Bytes → Option Bytes
from_sub [] p = if has_prefix [] p then some [] else none
from_sub (c ∷ s) p =
    let later = from_sub s p in if has_prefix (c ∷ s) p then some (c ∷ s) else later

abbrev pub class_prefixes : List Bytes
class_prefixes =
    codes "com."
    ∷ codes "org."
    ∷ codes "cn."
    ∷ codes "net."
    ∷ codes "io."
    ∷ codes "java."
    ∷ codes "javax."
    ∷ []

-- The first of the prefixes that is found, wherever it stands.
unfoldable pub from_prefixes : List Bytes → Bytes → Option Bytes
from_prefixes [] s = none
from_prefixes (p ∷ ps) s =
    let later = from_prefixes ps s in elim (from_sub s p) [ none ↦ later | some r ↦ some r ]

abbrev pub looks_like_class : Bytes → Bool
looks_like_class s = contains_dot s && leb 10 (length s)

unfoldable pub strip_to : List ℕ → Bytes → Bytes
strip_to [] s = s
strip_to (i ∷ letters) s =
    let later = strip_to letters s in
    if ltb 0 i && looks_like_class (drop i s) then drop i s else later

unfoldable pub clean_class_name : (Bytes → List ℕ) → Bytes → Bytes
clean_class_name letters s =
    if length s == 0
    then s
    else if is_numeric_dot_only s
    then []
    else elim (from_prefixes class_prefixes s) [ none ↦ strip_to (letters s) s | some r ↦ r ]

-- What is left when a front part is taken away.
IsEndOf : Bytes → Bytes → Type 0
IsEndOf r s = (front : Bytes) × (front ++ r ≡ s)

drop-IsEndOf : (i : ℕ) (s : Bytes) → IsEndOf (drop i s) s
unfolding IsEndOf
drop-IsEndOf i s = (take i s, take-append-drop i s)

strip_to-IsEndOf : (letters : List ℕ) (s : Bytes) → IsEndOf (strip_to letters s) s
unfolding IsEndOf strip_to
strip_to-IsEndOf [] s = ([], refl)
strip_to-IsEndOf (i ∷ letters) s = elim (Bool-cases (ltb 0 i && looks_like_class (drop i s))) [
  | inl e ↦ rw e (drop-IsEndOf i s)
  | inr e ↦ rw e (strip_to-IsEndOf letters s)
]

from_sub-IsEndOf : (s p r : Bytes) → from_sub s p ≡ some r → IsEndOf r s
unfolding IsEndOf from_sub
from_sub-IsEndOf [] p r e = elim (Bool-cases (has_prefix [] p)) [
  | inl h ↦ let same : some [] ≡ some r = rw h at e in ([], cc)
  | inr h ↦ let none_here : none ≡ some r = rw h at e in cc
]
from_sub-IsEndOf (c ∷ s) p r e = elim (Bool-cases (has_prefix (c ∷ s) p)) [
  | inl h ↦ let same : some (c ∷ s) ≡ some r = rw h at e in ([], cc)
  | inr h ↦ let hit = from_sub-IsEndOf s p r (rw h at e) in (c ∷ hit.0, ap (λ l. c ∷ l) hit.1)
]

from_prefixes-IsEndOf : (ps : List Bytes) (s r : Bytes) → from_prefixes ps s ≡ some r → IsEndOf r s
unfolding from_prefixes
from_prefixes-IsEndOf [] s r e = cc
from_prefixes-IsEndOf (p ∷ ps) s r e = elim (Option-cases (from_sub s p)) [
  | inl h ↦ from_prefixes-IsEndOf ps s r (rw (from_prefixes, h) at e)
  | inr hit ↦
      let same : some hit.0 ≡ some r = rw (from_prefixes, hit.1) at e in
      from_sub-IsEndOf s p r (hit.1 ∙ same)
]

-- The name that is left is an end of the string.
clean_class_name-IsEndOf :
    (letters : Bytes → List ℕ) (s : Bytes) → IsEndOf (clean_class_name letters s) s
unfolding IsEndOf clean_class_name
clean_class_name-IsEndOf letters s = elim (Bool-cases (length s == 0)) [
  | inl e ↦ rw e ([], refl)
  | inr e ↦ elim (Bool-cases (is_numeric_dot_only s)) [
    | inl n ↦ rw (e, n) (s, append-nil s)
    | inr n ↦ elim (Option-cases (from_prefixes class_prefixes s)) [
      | inl f ↦ rw (e, n, f) (strip_to-IsEndOf (letters s) s)
      | inr f ↦ rw (e, n, f.1) (from_prefixes-IsEndOf class_prefixes s f.0 f.1)
    ]
  ]
]
