-- ===== src/Common/Result.antt =====
-- A function that may fail returns the error as a value.
use mathlib.Core.Logic.{◌⊎◌, inl, inr}
use mathlib.Core.Path.{◌≡◌, refl}
use native.Mathlib.Omega.{arith}
use mathlib.Core.Bool.{Bool, true, false}
use mathlib.Core.Option.{Option, none, some}

pub data Result {ℓ κ} (E : Type ℓ) (A : Type κ) : Type (ℓ ⊔ κ) where
  ok : A → Result E A
  err : E → Result E A

module _ {ℓ κ μ} {E : Type ℓ} {A : Type κ} {B : Type μ} where
  infixl 5 ◌>>=◌
  abbrev pub ◌>>=◌ : Result E A → (A → Result E B) → Result E B
  ok a >>= f = f a
  err e >>= f = err e

  -- What a successful chain did.
  pub bind-eq-ok :
      (m : Result E A) (f : A → Result E B) {b : B}
      → (m >>= f) ≡ ok b
      → (a : A) × (m ≡ ok a) × (f a ≡ ok b)
  bind-eq-ok (ok a) f h = (a, refl, h)
  bind-eq-ok (err e) f h = cc

module _ {ℓ κ} {E : Type ℓ} {B : Type κ} where
  infixl 5 ◌>>◌
  abbrev pub ◌>>◌ : Result E (Unit {0}) → Result E B → Result E B
  m >> k = m >>= λ _. k

-- `if test { return e }`
abbrev pub refuse {ℓ} : {E : Type ℓ} → Bool → E → Result E (Unit {0})
refuse true e = err e
refuse false e = ok tt

pub Result-cases {ℓ κ} :
    {E : Type ℓ} {A : Type κ} (r : Result E A) → ((a : A) × (r ≡ ok a)) ⊎ ((e : E) × (r ≡ err e))
Result-cases (ok a) = inl (a, refl)
Result-cases (err e) = inr (e, refl)

-- What a success in place of a missing value was made of.
pub option-eq-ok {ℓ κ μ} :
    {E : Type ℓ} {A : Type κ} {B : Type μ} (d : Option A) (e : E) (f : A → Result E B) {b : B}
    → (elim d [ none ↦ err e | some a ↦ f a ]) ≡ ok b
    → (a : A) × (d ≡ some a) × (f a ≡ ok b)
option-eq-ok none e f h = absurd (cc h)
option-eq-ok (some a) e f h = (a, refl, h)

module _ {ℓ κ μ} {E : Type ℓ} {A : Type κ} {B : Type μ} where
  -- Where a chain that failed did fail.
  pub bind-eq-err :
      (m : Result E A) (f : A → Result E B) {e : E}
      → (m >>= f) ≡ err e
      → (m ≡ err e) ⊎ ((a : A) × (m ≡ ok a) × (f a ≡ err e))
  bind-eq-err (ok a) f h = inr (a, refl, h)
  bind-eq-err (err d) f h = inl (ground arith)

-- What both cases have, the case distinction has.
pub option-either {ℓ κ μ} :
    {A : Type ℓ} {B : Type κ} (P : B → Type μ) (d : Option A) {x : B} {f : A → B}
    → P x
    → ((a : A) → P (f a))
    → P (elim d [ none ↦ x | some a ↦ f a ])
option-either P none p q = p
option-either P (some a) p q = q a

pub result-either {ℓ κ μ ν} :
    {E : Type ℓ} {A : Type κ} {B : Type μ} (P : B → Type ν) (r : Result E A) {g : E → B} {f : A → B}
    → ((e : E) → P (g e))
    → ((a : A) → P (f a))
    → P (elim r [ err e ↦ g e | ok a ↦ f a ])
result-either P (ok a) p q = q a
result-either P (err e) p q = p e
