-- ===== src/Common/Sorting.antt =====
-- `sort.Slice` with a `less` function, as a stable insertion sort. Where no two elements tie, a
-- list has one sorted arrangement, so every sorting algorithm returns the one computed here.
use Prim.Native.Nat.{suc}
use mathlib.Core.Bool.{Bool, true, false}
use mathlib.Core.List.{List, [], ◌∷◌, Perm, Permᴰ}
use mathlib.Core.Logic.{◌⊎◌, inl, inr, ∥∥₁_elim}
use mathlib.Core.Path.{◌≡◌, refl, ap₂, ◌∙◌, subst}
use native.Mathlib.Omega.{arith}
use ochakai.Common.Tests.{if◌then◌else◌, Bool-cases}
use ochakai.Common.Lists.{All, length}

module _ {ℓ} {A : Type ℓ} (lt : A → A → Bool) where
  unfoldable pub insert : A → List A → List A
  insert x [] = x ∷ []
  insert x (y ∷ ys) = let rest = insert x ys in if lt y x then y ∷ rest else x ∷ y ∷ ys

  unfoldable pub sort : List A → List A
  unfolding insert
  sort [] = []
  sort (x ∷ xs) = insert x (sort xs)

  -- Every element is below each one behind it.
  abbrev pub IsAscending : List A → Type 0
  IsAscending [] = Unit
  IsAscending (x ∷ xs) = All (λ y. lt x y ≡ true) xs × IsAscending xs

  -- No two elements tie.
  abbrev pub IsUntied : List A → Type 0
  IsUntied [] = Unit
  IsUntied (x ∷ xs) = All (λ y. (lt x y ≡ true) ⊎ (lt y x ≡ true)) xs × IsUntied xs

  pub All-insert {κ} : (P : A → Type κ) (x : A) (xs : List A) → P x → All P xs → All P (insert x xs)
  unfolding insert
  All-insert P x [] px h = (px, tt)
  All-insert P x (y ∷ ys) px (py, h) = elim (Bool-cases (lt y x)) [
    | inl e ↦ rw e (py, All-insert P x ys px h)
    | inr e ↦ rw e (px, (py, h))
  ]

  pub All-sort {κ} : (P : A → Type κ) (xs : List A) → All P xs → All P (sort xs)
  unfolding sort
  All-sort P [] h = tt
  All-sort P (x ∷ xs) (px, h) = All-insert P x (sort xs) px (All-sort P xs h)

  length-insert : (x : A) (xs : List A) → length (insert x xs) ≡ suc (length xs)
  unfolding insert
  length-insert x [] = refl
  length-insert x (y ∷ ys) = ground (arith, length-insert x ys)

  pub length-sort : (xs : List A) → length (sort xs) ≡ length xs
  unfolding sort
  length-sort [] = refl
  length-sort (x ∷ xs) = ground (arith, length-insert x (sort xs), length-sort xs)

  insert_below :
      (x : A) (xs : List A)
      → All (λ y. lt x y ≡ true) xs
      → ((a b : A) → lt a b ≡ true → lt b a ≡ false)
      → insert x xs ≡ x ∷ xs
  unfolding insert
  insert_below x [] h asymm = refl
  insert_below x (y ∷ ys) (h, t) asymm = rw (asymm x y h)

  -- A list in order is left as it is.
  pub sort_of_IsAscending :
      (xs : List A) → IsAscending xs → ((a b : A) → lt a b ≡ true → lt b a ≡ false) → sort xs ≡ xs
  unfolding sort
  sort_of_IsAscending [] h asymm = refl
  sort_of_IsAscending (x ∷ xs) (h, t) asymm =
      rw (sort_of_IsAscending xs t asymm) (insert_below x xs h asymm)

-- The laws of a strict order that a tie may stop short of being total.
pub record IsStrict {ℓ} {A : Type ℓ} (lt : A → A → Bool) : Type ℓ where
  pub asymm : (a b : A) → lt a b ≡ true → lt b a ≡ false
  pub trans : (a b c : A) → lt a b ≡ true → lt b c ≡ true → lt a c ≡ true

module _ {ℓ} {A : Type ℓ} (lt : A → A → Bool) (o : IsStrict lt) where
  All-below :
      (x y : A) (ys : List A)
      → lt x y ≡ true
      → All (λ z. lt y z ≡ true) ys
      → All (λ z. lt x z ≡ true) ys
  All-below x y [] h t = tt
  All-below x y (z ∷ ys) h (k, t) = (o.trans x y z h k, All-below x y ys h t)

  insert-IsAscending :
      (x : A) (xs : List A)
      → All (λ y. (lt x y ≡ true) ⊎ (lt y x ≡ true)) xs
      → IsAscending lt xs
      → IsAscending lt (insert lt x xs)
  unfolding insert
  insert-IsAscending x [] c h = (tt, tt)
  insert-IsAscending x (y ∷ ys) (c, cs) (h, t) = elim (Bool-cases (lt y x)) [
    | inl e ↦ rw e (All-insert lt (λ z. lt y z ≡ true) x ys e h, insert-IsAscending x ys cs t)
    | inr e ↦
        let below : lt x y ≡ true = ground (arith, c) in
        rw e ((below, All-below x y ys below h), (h, t))
  ]

  -- Sorting a list without ties puts it in order.
  pub sort-IsAscending : (xs : List A) → IsUntied lt xs → IsAscending lt (sort lt xs)
  unfolding sort
  sort-IsAscending [] h = tt
  sort-IsAscending (x ∷ xs) (h, t) =
      insert-IsAscending x (sort lt xs) (All-sort lt _ xs h) (sort-IsAscending xs t)

  insert_comm :
      (x y : A) (l : List A)
      → (lt x y ≡ true) ⊎ (lt y x ≡ true)
      → insert lt x (insert lt y l) ≡ insert lt y (insert lt x l)
  unfolding insert
  insert_comm x y [] c = ground (arith, o.asymm x y, o.asymm y x)
  insert_comm x y (z ∷ l) c = ground (
    arith,
    o.asymm x y,
    o.asymm y x,
    o.trans z x y,
    o.trans z y x,
    o.asymm z x,
    o.asymm z y,
    insert_comm x y l,
  )

  abbrev Untied : A → A → Type 0
  Untied x y = (lt x y ≡ true) ⊎ (lt y x ≡ true)

  All-permᴰ {κ} : (P : A → Type κ) {xs ys : List A} → Permᴰ xs ys → All P xs → All P ys
  All-permᴰ P Permᴰ.nil h = h
  All-permᴰ P (Permᴰ.cons e p) (h, t) = (subst P e h, All-permᴰ P p t)
  All-permᴰ P (Permᴰ.swap e f) (h, (k, t)) = (subst P f k, (subst P e h, t))
  All-permᴰ P (Permᴰ.trans p q) h = All-permᴰ P q (All-permᴰ P p h)

  Untied-flip : (x y : A) → Untied x y → Untied y x
  Untied-flip x y (inl h) = inr h
  Untied-flip x y (inr h) = inl h

  IsUntied-permᴰ : {xs ys : List A} → Permᴰ xs ys → IsUntied lt xs → IsUntied lt ys
  IsUntied-permᴰ Permᴰ.nil h = h
  IsUntied-permᴰ (Permᴰ.cons {a = a} {l₂ = ys} e p) (h, t) =
      (subst (λ b. All (Untied b) ys) e (All-permᴰ (Untied a) p h), IsUntied-permᴰ p t)
  IsUntied-permᴰ (Permᴰ.swap {a = a} {b = b} {b' = b'} {l = l} e f) ((h, hs), (ks, t)) =
      subst (λ x. All (Untied x) (b' ∷ l) × IsUntied lt (b' ∷ l)) f
        (subst (λ x. All (Untied b) (x ∷ l) × IsUntied lt (x ∷ l)) e
          ((Untied-flip a b h, ks), (hs, t)))
  IsUntied-permᴰ (Permᴰ.trans p q) h = IsUntied-permᴰ q (IsUntied-permᴰ p h)

  sort-permᴰ : {xs ys : List A} → Permᴰ xs ys → IsUntied lt xs → sort lt xs ≡ sort lt ys
  unfolding sort
  sort-permᴰ Permᴰ.nil h = refl
  sort-permᴰ (Permᴰ.cons e p) (h, t) = ap₂ (insert lt) e (sort-permᴰ p t)
  sort-permᴰ (Permᴰ.swap {a = a} {b = b} {l = l} e f) ((h, hs), (ks, t)) =
      insert_comm a b (sort lt l) h ∙ ap₂ (λ u v. insert lt u (insert lt v (sort lt l))) f e
  sort-permᴰ (Permᴰ.trans p q) h = sort-permᴰ p h ∙ sort-permᴰ q (IsUntied-permᴰ p h)

  -- The order in which elements without ties arrive does not matter.
  pub sort-perm :
      IsSet (List A) → {xs ys : List A} → Perm xs ys → IsUntied lt xs → sort lt xs ≡ sort lt ys
  sort-perm set p h = ∥∥₁_elim p (set _ _) (λ d. sort-permᴰ d h)
