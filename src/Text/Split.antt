-- ===== src/Text/Split.antt =====
-- strings.Split and strings.Join at one byte, and prefixes of lists of segments.
use ochakai.Common.{
  ℕ, false, List, [], ◌∷◌, ◌++◌, ◌≡◌, ◌≢◌, refl, sym, ap, ◌∙◌, ◌⊎◌, inl, inr, arith, ◌==◌,
  if◌then◌else◌, append_assoc, append-nil, All,
}
use ochakai.Text.Basic.{Bytes, has_byte}

-- One more byte at the front of the first segment.
abbrev cons_head : ℕ → List Bytes → List Bytes
cons_head c [] = (c ∷ []) ∷ []
cons_head c (p ∷ ps) = (c ∷ p) ∷ ps

-- There is always a first segment.
unfoldable pub split : ℕ → Bytes → List Bytes
split sep [] = [] ∷ []
split sep (c ∷ s) = let rest = split sep s in if c == sep then [] ∷ rest else cons_head c rest

unfoldable pub join : ℕ → List Bytes → Bytes
join sep [] = []
join sep (p ∷ []) = p
join sep (p ∷ q ∷ ps) = p ++ (sep ∷ join sep (q ∷ ps))

module _ (sep : ℕ) where
  pub split-ne-nil : (s : Bytes) → split sep s ≢ []
  unfolding split
  split-ne-nil [] h = cc
  split-ne-nil (c ∷ s) h = ground arith

  -- The first segment and the ones behind it.
  pub split-cons : (s : Bytes) → (p : Bytes) × (ps : List Bytes) × (split sep s ≡ p ∷ ps)
  split-cons s = go (split sep s) refl
    where
      go :
          (l : List Bytes)
          → split sep s ≡ l
          → (p : Bytes) × (ps : List Bytes) × (split sep s ≡ p ∷ ps)
      go [] e = absurd (split-ne-nil s e)
      go (p ∷ ps) e = (p, ps, e)

  join-cons_head : (c : ℕ) (l : List Bytes) → join sep (cons_head c l) ≡ c ∷ join sep l
  unfolding join
  join-cons_head c [] = refl
  join-cons_head c (p ∷ []) = refl
  join-cons_head c (p ∷ q ∷ l) = refl

  join-nil_cons : (l : List Bytes) → l ≢ [] → join sep ([] ∷ l) ≡ sep ∷ join sep l
  unfolding join
  join-nil_cons [] h = absurd (h refl)
  join-nil_cons (p ∷ l) h = refl

  pub join-split : (s : Bytes) → join sep (split sep s) ≡ s
  unfolding split
  join-split [] = unfold join in refl
  join-split (c ∷ s) = ground (
    arith,
    join-split s,
    join-cons_head c (split sep s),
    join-nil_cons (split sep s) (split-ne-nil s),
  )

  pub split-injective : (s t : Bytes) → split sep s ≡ split sep t → s ≡ t
  split-injective s t h = sym (join-split s) ∙ ap (join sep) h ∙ join-split t

  cons_head-append : (c : ℕ) (l r : List Bytes) → l ≢ [] → cons_head c (l ++ r) ≡ cons_head c l ++ r
  cons_head-append c [] r h = absurd (h refl)
  cons_head-append c (p ∷ l) r h = refl

  -- A separator ends a segment, whatever stands around it.
  pub split-append_sep : (s t : Bytes) → split sep (s ++ (sep ∷ t)) ≡ split sep s ++ split sep t
  unfolding split
  split-append_sep [] t = ground arith
  split-append_sep (c ∷ s) t =
      ground (
        arith,
        split-append_sep s t,
        cons_head-append c (split sep s) (split sep t) (split-ne-nil s),
      )

  pub split_of_lacks : (s : Bytes) → has_byte sep s ≡ false → split sep s ≡ s ∷ []
  unfolding split
  split_of_lacks [] h = refl
  split_of_lacks (c ∷ s) h = ground (arith, split_of_lacks s)

  join-append :
      (xs ys : List Bytes)
      → xs ≢ []
      → ys ≢ []
      → join sep (xs ++ ys) ≡ join sep xs ++ (sep ∷ join sep ys)
  unfolding join
  join-append [] ys h k = absurd (h refl)
  join-append (p ∷ []) [] h k = absurd (k refl)
  join-append (p ∷ []) (y ∷ ys) h k = refl
  join-append (p ∷ q ∷ xs) ys h k =
      rw (join-append (q ∷ xs) ys (λ e. cc e) k)
        (sym (append_assoc p (sep ∷ join sep (q ∷ xs)) (sep ∷ join sep ys)))

  -- A text whose segments begin with those of another is that text, or has it before a separator.
  pub split_prefix :
      (s t : Bytes) (rest : List Bytes)
      → split sep s ≡ split sep t ++ rest
      → (s ≡ t) ⊎ ((r : Bytes) × (s ≡ t ++ (sep ∷ r)))
  split_prefix s t [] h = inl (split-injective s t (h ∙ append-nil (split sep t)))
  split_prefix s t (q ∷ qs) h = inr (
    join sep (q ∷ qs),
    sym (join-split s)
        ∙ ap (join sep) h
        ∙ join-append (split sep t) (q ∷ qs) (split-ne-nil t) (λ e. cc e)
        ∙ rw (join-split t),
  )

-- Of two beginnings of one list, one begins with the other.
pub append_comparable {ℓ} :
    {A : Type ℓ} (xs ys a b : List A)
    → xs ++ a ≡ ys ++ b
    → ((c : List A) × (ys ≡ xs ++ c)) ⊎ ((c : List A) × (xs ≡ ys ++ c))
append_comparable [] ys a b h = inl (ys, refl)
append_comparable (x ∷ xs) [] a b h = inr (x ∷ xs, refl)
append_comparable (x ∷ xs) (y ∷ ys) a b h = elim (append_comparable xs ys a b (cc)) [
  | inl (c, e) ↦ inl (c, cc)
  | inr (c, e) ↦ inr (c, cc)
]

-- Segments without the separator are found again.
pub split-join :
    (sep : ℕ) (p : Bytes) (ps : List Bytes)
    → All (λ q. has_byte sep q ≡ false) (p ∷ ps)
    → split sep (join sep (p ∷ ps)) ≡ p ∷ ps
unfolding join
split-join sep p [] (h, _) = split_of_lacks sep p h
split-join sep p (q ∷ ps) (h, hs) =
    split-append_sep sep p (join sep (q ∷ ps))
    ∙ rw (split_of_lacks sep p h, split-join sep q ps hs) refl
