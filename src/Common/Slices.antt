-- ===== src/Common/Slices.antt =====
-- The beginning and the rest of a list.
use Prim.Native.Nat.{ℕ, zero, suc, ◌+◌, ◌<◌}
use mathlib.Core.Bool.{false}
use mathlib.Core.List.{List, [], ◌∷◌, ◌++◌}
use mathlib.Core.Path.{◌≡◌, refl, ap}
use native.Mathlib.Omega.{arith}
use ochakai.Common.Tests.{ltb}
use ochakai.Common.Lists.{length, take, drop, All}

module _ {ℓ} {A : Type ℓ} where
  pub take-drop : (n : ℕ) (xs : List A) → take n xs ++ drop n xs ≡ xs
  take-drop zero xs = refl
  take-drop (suc n) [] = refl
  take-drop (suc n) (x ∷ xs) = ap (λ ys. x ∷ ys) (take-drop n xs)

  pub take-take : (n : ℕ) (xs : List A) → take n (take (n + 1) xs) ≡ take n xs
  take-take zero xs = refl
  take-take (suc n) [] = ground arith
  take-take (suc n) (x ∷ xs) = ground (arith, take-take n xs)

  pub more-take : (n : ℕ) (xs : List A) → ltb n (length (take (n + 1) xs)) ≡ ltb n (length xs)
  more-take zero [] = ground arith
  more-take zero (x ∷ xs) = ground arith
  more-take (suc n) [] = ground arith
  more-take (suc n) (x ∷ xs) = ground (arith, more-take n xs)

  pub take_of_short : (n : ℕ) (xs : List A) → ltb n (length xs) ≡ false → take (n + 1) xs ≡ xs
  take_of_short zero [] h = refl
  take_of_short zero (x ∷ xs) h = absurd (ground arith)
  take_of_short (suc n) [] h = ground arith
  take_of_short (suc n) (x ∷ xs) h = ground (arith, take_of_short n xs)

  pub length-drop_lt : (n : ℕ) (x : A) (xs : List A) → length (drop n xs) < length (x ∷ xs)
  length-drop_lt zero x xs = omega arith
  length-drop_lt (suc n) x [] = omega arith
  length-drop_lt (suc n) x (y ∷ xs) = omega (arith, length-drop_lt n y xs)

  pub All-take : (P : A → Type 0) (n : ℕ) (xs : List A) → All P xs → All P (take n xs)
  All-take P zero xs h = tt
  All-take P (suc n) [] h = tt
  All-take P (suc n) (x ∷ xs) (p, h) = (p, All-take P n xs h)

  pub All-drop : (P : A → Type 0) (n : ℕ) (xs : List A) → All P xs → All P (drop n xs)
  All-drop P zero xs h = h
  All-drop P (suc n) [] h = tt
  All-drop P (suc n) (x ∷ xs) (p, h) = All-drop P n xs h
