-- ===== src/Base/Cuts.antt =====
-- Laws of `take` and `drop`, for code that cuts slices at computed places.
use Prim.Native.Nat.{suc, zero, ℕ, ◌+◌, ◌-◌}
use mathlib.Core.List.{List, [], ◌++◌, ◌∷◌}
use mathlib.Core.Path.{ap, refl, ◌≡◌}
use native.Mathlib.Omega.{arith}
use tcp_port.Base.Lists.{drop, take}
use tcp_port.Base.Lists.{get_or, length}
use Prim.Native.Nat.{◌<◌}

module _ {A : Type 0} where
  pub take-nil : (n : ℕ) → take {A = A} n [] ≡ []
  take-nil zero = refl
  take-nil (suc n) = refl

  pub drop-nil : (n : ℕ) → drop {A = A} n [] ≡ []
  drop-nil zero = refl
  drop-nil (suc n) = refl

  pub take-append-take : (m n : ℕ) (xs : List A) → take m xs ++ take n (drop m xs) ≡ take (m + n) xs
  take-append-take zero n xs = let e : n ≡ 0 + n = omega arith in ap (λ k. take k xs) e
  take-append-take (suc m) n [] = rw (take-nil n, take-nil (suc m + n))
  take-append-take (suc m) n (x ∷ xs) =
      let e : suc m + n ≡ suc (m + n) = omega arith in rw e (ap (◌∷◌ x) (take-append-take m n xs))

  pub drop-drop : (m n : ℕ) (xs : List A) → drop n (drop m xs) ≡ drop (m + n) xs
  drop-drop zero n xs = let e : n ≡ 0 + n = omega arith in ap (λ k. drop k xs) e
  drop-drop (suc m) n [] = rw (drop-nil n, drop-nil (suc m + n))
  drop-drop (suc m) n (x ∷ xs) =
      let e : suc m + n ≡ suc (m + n) = omega arith in rw e (drop-drop m n xs)

  pub drop-take : (m n : ℕ) (xs : List A) → drop m (take n xs) ≡ take (n - m) (drop m xs)
  drop-take zero n xs = let e : n ≡ n - 0 = omega arith in ap (λ k. take k xs) e
  drop-take (suc m) zero xs = let e : 0 - suc m ≡ 0 = omega arith in rw e
  drop-take (suc m) (suc n) [] = rw (take-nil (suc n - suc m))
  drop-take (suc m) (suc n) (x ∷ xs) =
      let e : suc n - suc m ≡ n - m = omega arith in rw e (drop-take m n xs)

  -- Reading behind a prefix of known length.
  pub get_or-append :
      (xs ys : List A) (i : ℕ) (d : A) → get_or (xs ++ ys) (length xs + i) d ≡ get_or ys i d
  get_or-append [] ys i d = let e : 0 + i ≡ i = omega arith in ap (λ k. get_or ys k d) e
  get_or-append (x ∷ xs) ys i d =
      let e : suc (length xs) + i ≡ suc (length xs + i) = omega arith in
      rw e (get_or-append xs ys i d)

  -- Reading in a prefix.
  pub get_or-take :
      (n : ℕ) (xs : List A) (i : ℕ) (d : A) → i < n → get_or (take n xs) i d ≡ get_or xs i d
  get_or-take zero xs i d h = absurd (omega (arith, h))
  get_or-take (suc n) [] i d h = refl
  get_or-take (suc n) (x ∷ xs) zero d h = refl
  get_or-take (suc n) (x ∷ xs) (suc i) d h = get_or-take n xs i d (omega (arith, h))

  -- Reading behind what is dropped.
  pub get_or-drop :
      (i : ℕ) (xs : List A) (j : ℕ) (d : A) → get_or (drop i xs) j d ≡ get_or xs (i + j) d
  get_or-drop zero xs j d = let e : j ≡ 0 + j = omega arith in ap (λ k. get_or xs k d) e
  get_or-drop (suc i) [] j d = refl
  get_or-drop (suc i) (x ∷ xs) j d =
      let e : suc i + j ≡ suc (i + j) = omega arith in rw e (get_or-drop i xs j d)
