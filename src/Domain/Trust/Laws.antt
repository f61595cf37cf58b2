-- ===== src/Domain/Trust/Laws.antt =====
-- What the tier of an entry says of its verifications.
use ochakai.Common.{
  ℕ, ◌≤◌, Bool, true, false, not, ◌&&◌, List, [], ◌∷◌, ◌≡◌, ◌≢◌, refl, ap, ◌⊎◌, inl, inr, arith,
  ltb, any,
}
use ochakai.Text.{Bytes, ◌=?◌, bytes_discrete}
use ochakai.Domain.Actor.{actor_human}
use ochakai.Domain.Trust.{
  status_draft, status_stable, valid_status, Trust, unverified, machine_confirmed, human_reviewed,
  Verification, trust_from, trust_of, lifecycle_of, status_from_okf,
}

-- A verification that stands, and one by a person.
abbrev pub stands : ℕ → Verification → Bool
stands changed_at v = not (ltb v.at changed_at)

abbrev pub stands_by_person : ℕ → Verification → Bool
stands_by_person changed_at v = stands changed_at v && v.by.kind =? actor_human

-- The tier that the standing verifications make, with nothing of their order.
unfoldable pub tier_of : (by_person standing : Bool) → Trust
tier_of true _ = human_reviewed
tier_of false true = machine_confirmed
tier_of false false = unverified

trust_from-machine :
    (vs : List Verification) (c : ℕ)
    → trust_from machine_confirmed vs c ≡ tier_of (any (stands_by_person c) vs) true
unfolding trust_from tier_of
trust_from-machine [] c = refl
trust_from-machine (v ∷ vs) c = ground (arith, trust_from-machine vs c)

trust_from-unverified :
    (vs : List Verification) (c : ℕ)
    → trust_from unverified vs c ≡ tier_of (any (stands_by_person c) vs) (any (stands c) vs)
unfolding trust_from tier_of
trust_from-unverified [] c = refl
trust_from-unverified (v ∷ vs) c =
    ground (arith, trust_from-machine vs c, trust_from-unverified vs c)

-- The tier is read off which verifications stand, whatever their order: human-reviewed if one of
-- them is by a person, machine-confirmed if there is one but none by a person, unverified otherwise.
pub trust_of-tier_of :
    (vs : List Verification) (changed_at : ℕ)
    → trust_of vs changed_at
      ≡ tier_of (any (stands_by_person changed_at) vs) (any (stands changed_at) vs)
unfolding trust_of
trust_of-tier_of vs c = trust_from-unverified vs c

-- The tiers, lowest to highest.
pub rank : Trust → ℕ
rank unverified = 0
rank machine_confirmed = 1
rank human_reviewed = 2

any-later :
    (vs : List Verification) (c d : ℕ) → c ≤ d → any (stands d) vs ≡ true → any (stands c) vs ≡ true
any-later [] c d h e = e
any-later (v ∷ vs) c d h e = ground (arith, any-later vs c d h)

any-later-person :
    (vs : List Verification) (c d : ℕ)
    → c ≤ d
    → any (stands_by_person d) vs ≡ true
    → any (stands_by_person c) vs ≡ true
any-later-person [] c d h e = e
any-later-person (v ∷ vs) c d h e = ground (arith, any-later-person vs c d h)

-- An edit never raises the tier.
pub trust_of-later :
    (vs : List Verification) {c d : ℕ} → c ≤ d → rank (trust_of vs d) ≤ rank (trust_of vs c)
unfolding rank tier_of
trust_of-later vs {c} {d} h = ground (
  arith,
  trust_of-tier_of vs c,
  trust_of-tier_of vs d,
  any-later vs c d h,
  any-later-person vs c d h,
)

-- The status that is stored is one of the three or silent, and every document's status is kept as
-- it stands where it is one of those; any other is a draft and reported as not recognized.
pub status_from_okf_cases :
    (raw : Bytes)
    → ((status_from_okf raw ≡ (raw, true)) × ((raw ≡ []) ⊎ (valid_status raw ≡ true)))
      ⊎ ((status_from_okf raw ≡ (status_draft, false)) × (raw ≢ []) × (valid_status raw ≡ false))
unfolding status_from_okf
status_from_okf_cases raw = ground arith

valid_status-draft : valid_status status_draft ≡ true
unfolding valid_status bytes_discrete
valid_status-draft = refl

valid_status-stable : valid_status status_stable ≡ true
unfolding valid_status bytes_discrete
valid_status-stable = refl

lifecycle_of-valid :
    (s : Bytes) → (s ≡ []) ⊎ (valid_status s ≡ true) → valid_status (lifecycle_of s) ≡ true
unfolding lifecycle_of bytes_discrete
lifecycle_of-valid [] h = valid_status-stable
lifecycle_of-valid (c ∷ s) (inl e) = absurd (ground arith)
lifecycle_of-valid (c ∷ s) (inr h) = h

-- A reader of an entry whose status came from a document always sees one of the three.
pub lifecycle_of-status_from_okf :
    (raw : Bytes) → valid_status (lifecycle_of (status_from_okf raw).0) ≡ true
lifecycle_of-status_from_okf raw = elim (status_from_okf_cases raw) [
  | inl (e, known) ↦ rw (ap (λ p. p.0) e) (lifecycle_of-valid raw known)
  | inr (e, _, _) ↦ rw (ap (λ p. p.0) e) (lifecycle_of-valid status_draft (inr valid_status-draft))
]
