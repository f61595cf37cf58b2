-- ===== src/Common/Exec.antt =====
-- An action reads and writes a state and may fail; what was written before a failure stays.
use mathlib.Core.Path.{◌≡◌, refl}
use mathlib.Core.Logic.{◌⊎◌, inl, inr}
use ochakai.Common.Result.{Result, ok, err}

abbrev pub Exec {ℓ κ μ} : Type ℓ → Type κ → Type μ → Type (ℓ ⊔ κ ⊔ μ)
Exec S E A = S → S × Result E A

module _ {ℓ κ μ ν} {S : Type ℓ} {E : Type κ} {A : Type μ} {B : Type ν} where
  abbrev pub after : S × Result E A → (A → Exec S E B) → S × Result E B
  after (s, ok a) f = f a s
  after (s, err e) f = (s, err e)

  infixl 5 ◌>>=◌
  abbrev pub ◌>>=◌ : Exec S E A → (A → Exec S E B) → Exec S E B
  ◌>>=◌ m f s = after (m s) f

module _ {ℓ κ ν} {S : Type ℓ} {E : Type κ} {B : Type ν} where
  infixl 5 ◌>>◌
  abbrev pub ◌>>◌ : Exec S E (Unit {0}) → Exec S E B → Exec S E B
  m >> k = m >>= λ _. k

module _ {ℓ κ μ} {S : Type ℓ} {E : Type κ} {A : Type μ} where
  abbrev pub pure : A → Exec S E A
  pure a s = (s, ok a)

  abbrev pub raise : E → Exec S E A
  raise e s = (s, err e)

  abbrev pub lift : Result E A → Exec S E A
  lift r s = (s, r)

  abbrev pub gets : (S → Result E A) → Exec S E A
  gets f s = (s, f s)

-- What others write between two of an action's statements.
abbrev pub others {ℓ κ} : {S : Type ℓ} {E : Type κ} → (S → S) → Exec S E (Unit {0})
others f s = (f s, ok tt)

module _ {ℓ κ μ} {S : Type ℓ} {E : Type κ} {A : Type μ} where
  -- A transaction writes all of it or nothing.
  abbrev pub settle : S → Result E (S × A) → S × Result E A
  settle s (ok (s', a)) = (s', ok a)
  settle s (err e) = (s, err e)

  abbrev pub transaction : (S → Result E (S × A)) → Exec S E A
  transaction f s = settle s (f s)

module _ {ℓ κ μ ν} {S : Type ℓ} {E : Type κ} {A : Type μ} {B : Type ν} where
  -- What a chain that succeeded did, where it began with a result alone.
  pub lift-bind-ok :
      (r : Result E A) (f : A → Exec S E B) (s : S) {s' : S} {b : B}
      → after (s, r) f ≡ (s', ok b)
      → (a : A) × (r ≡ ok a) × (f a s ≡ (s', ok b))
  lift-bind-ok (ok a) f s h = (a, refl, h)
  lift-bind-ok (err e) f s h = absurd (cc h)

  pub bind-ok :
      (m : S × Result E A) (f : A → Exec S E B) {s' : S} {b : B}
      → after m f ≡ (s', ok b)
      → (s : S) × (a : A) × (m ≡ (s, ok a)) × (f a s ≡ (s', ok b))
  bind-ok (s, ok a) f h = (s, a, refl, h)
  bind-ok (s, err e) f h = absurd (cc h)

  pub lift-bind-err :
      (r : Result E A) (f : A → Exec S E B) (s : S) {s' : S} {e : E}
      → after (s, r) f ≡ (s', err e)
      → ((r ≡ err e) × (s' ≡ s)) ⊎ ((a : A) × (r ≡ ok a) × (f a s ≡ (s', err e)))
  lift-bind-err (ok a) f s h = inr (a, refl, h)
  lift-bind-err (err d) f s h = inl (cc, cc)

module _ {ℓ κ μ} {S : Type ℓ} {E : Type κ} {A : Type μ} where
  pub settle-ok :
      (s : S) (r : Result E (S × A)) {s' : S} {a : A} → settle s r ≡ (s', ok a) → r ≡ ok (s', a)
  settle-ok s (ok (t, x)) h = cc
  settle-ok s (err e) h = absurd (cc h)

  pub settle-err :
      (s : S) (r : Result E (S × A)) {s' : S} {e : E}
      → settle s r ≡ (s', err e)
      → (s' ≡ s) × (r ≡ err e)
  settle-err s (ok (t, x)) h = absurd (cc h)
  settle-err s (err d) h = (cc, cc)
