-- ===== src/Common/Perms.antt =====
-- What a rearrangement of a list leaves alone.
use mathlib.Core.Bool.{Bool, ◌||◌}
use mathlib.Core.List.{List, Perm, Permᴰ}
use mathlib.Core.Logic.{∥∥₁_elim}
use mathlib.Core.Path.{◌≡◌, refl, ap₂, ◌∙◌}
use native.Mathlib.Omega.{arith}
use ochakai.Common.Lists.{any}

Bool-set : IsSet Bool
Bool-set = hlevel

module _ {ℓ} {A : Type ℓ} where
  any-permᴰ : (p : A → Bool) {xs ys : List A} → Permᴰ xs ys → any p xs ≡ any p ys
  any-permᴰ p Permᴰ.nil = refl
  any-permᴰ p (Permᴰ.cons e d) = ap₂ (λ x b. p x || b) e (any-permᴰ p d)
  any-permᴰ p (Permᴰ.swap {a = a} {b = b} {l = l} e f) =
      or_swap (p a) (p b) (any p l) ∙ ap₂ (λ x y. p x || (p y || any p l)) f e
    where
      or_swap : (x y z : Bool) → (x || (y || z)) ≡ (y || (x || z))
      or_swap x y z = ground arith
  any-permᴰ p (Permᴰ.trans d e) = any-permᴰ p d ∙ any-permᴰ p e

  pub any-perm : (p : A → Bool) {xs ys : List A} → Perm xs ys → any p xs ≡ any p ys
  any-perm p d = ∥∥₁_elim d (Bool-set _ _) (any-permᴰ p)
