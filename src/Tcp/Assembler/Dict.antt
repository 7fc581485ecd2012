-- ===== src/Tcp/Assembler/Dict.antt =====
-- A Go map with strings for keys, as an association list.
use tcp_port.Base.{
  Bool-cases, List, Option, [], arith, equal, equal_iff, if◌then◌else◌, inl, inr, none, refl, some,
  ◌∷◌, ◌≡◌,
}
use tcp_port.Base.Slice.{Bytes}
use tcp_port.Base.{subst}

module _ {V : Type 0} where
  unfoldable pub lookup : Bytes → List (Bytes × V) → Option V
  lookup k [] = none
  lookup k ((j, v) ∷ m) = if equal j k then some v else lookup k m

  unfoldable pub insert : Bytes → V → List (Bytes × V) → List (Bytes × V)
  insert k v [] = (k, v) ∷ []
  insert k v ((j, w) ∷ m) = if equal j k then (k, v) ∷ m else (j, w) ∷ insert k v m

  unfoldable pub remove : Bytes → List (Bytes × V) → List (Bytes × V)
  remove k [] = []
  remove k ((j, v) ∷ m) = if equal j k then remove k m else (j, v) ∷ remove k m

  pub lookup-insert :
      (k j : Bytes) (v : V) (m : List (Bytes × V))
      → lookup j (insert k v m) ≡ (if equal k j then some v else lookup j m)
  unfolding lookup insert
  lookup-insert k j v [] = refl
  lookup-insert k j v ((i, w) ∷ m) =
      ground (arith, equal_iff k j, equal_iff i k, equal_iff i j, lookup-insert k j v m)

  pub lookup-remove :
      (k j : Bytes) (m : List (Bytes × V))
      → lookup j (remove k m) ≡ (if equal k j then none else lookup j m)
  unfolding lookup remove
  lookup-remove k j [] = ground arith
  lookup-remove k j ((i, w) ∷ m) =
      ground (arith, equal_iff k j, equal_iff i k, equal_iff i j, lookup-remove k j m)

  -- A property of every entry.
  abbrev pub Entries : (Bytes → V → Type 0) → List (Bytes × V) → Type 0
  Entries P [] = Unit
  Entries P ((k, v) ∷ m) = P k v × Entries P m

  pub lookup-Entries :
      (P : Bytes → V → Type 0) (k : Bytes) (m : List (Bytes × V)) {v : V}
      → Entries P m
      → lookup k m ≡ some v
      → P k v
  unfolding lookup
  lookup-Entries P k [] all e = cc
  lookup-Entries P k ((j, w) ∷ m) {v} all e = elim (Bool-cases (equal j k)) [
    | inl same ↦
        let e' : some w ≡ some v = rw same at e in
        let ew : w ≡ v = cc in subst (λ i. P i v) ((equal_iff j k).0 same) (subst (P j) ew all.0)
    | inr other ↦ lookup-Entries P k m all.1 (rw other at e)
  ]

  pub remove-insert :
      (k : Bytes) (v : V) (m : List (Bytes × V)) → remove k (insert k v m) ≡ remove k m
  unfolding insert remove
  remove-insert k v [] = ground (arith, equal_iff k k)
  remove-insert k v ((j, w) ∷ m) = ground (arith, equal_iff j k, equal_iff k k, remove-insert k v m)

  pub insert-Entries :
      (P : Bytes → V → Type 0) (k : Bytes) (v : V) (m : List (Bytes × V))
      → Entries P m
      → P k v
      → Entries P (insert k v m)
  unfolding insert
  insert-Entries P k v [] all p = (p, tt)
  insert-Entries P k v ((j, w) ∷ m) all p = elim (Bool-cases (equal j k)) [
    | inl same ↦ rw same (p, all.1)
    | inr other ↦ rw other (all.0, insert-Entries P k v m all.1 p)
  ]

  pub remove-Entries :
      (P : Bytes → V → Type 0) (k : Bytes) (m : List (Bytes × V))
      → Entries P m
      → Entries P (remove k m)
  unfolding remove
  remove-Entries P k [] all = tt
  remove-Entries P k ((j, w) ∷ m) all = elim (Bool-cases (equal j k)) [
    | inl same ↦ rw same (remove-Entries P k m all.1)
    | inr other ↦ rw other (all.0, remove-Entries P k m all.1)
  ]
