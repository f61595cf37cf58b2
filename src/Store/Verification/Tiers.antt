-- ===== src/Store/Verification/Tiers.antt =====
-- The predicates in SQL and the tier that the domain derives agree.
use ochakai.Common.{
  ℕ, Bool, true, false, not, ◌&&◌, ◌||◌, List, [], ◌∷◌, ◌≡◌, refl, arith, ltb, leb, if◌then◌else◌,
  length, any, ◌↔◌, ◌==◌, false≢true,
}
use ochakai.Text.{Bytes, ◌=?◌}
use ochakai.Domain.Actor.{actor_human}
use ochakai.Domain.Trust.{
  Trust, unverified, machine_confirmed, human_reviewed, Verification, trust_of, verified,
}
use ochakai.Domain.Trust.Laws.{stands, stands_by_person, tier_of, trust_of-tier_of}
use ochakai.Store.Verification.{
  Row, standing_verification, any_verification, is_edited, trust_unverified, trust_machine,
  trust_human, tier_condition, trust_condition, tally_tier,
}

-- The word of a tier.
pub trust_name : Trust → Bytes
trust_name unverified = trust_unverified
trust_name machine_confirmed = trust_machine
trust_name human_reviewed = trust_human

-- The tier that a read derives for the row.
abbrev pub row_trust : Row → Trust
row_trust r = trust_of r.ledger r.content_changed_at

standing-any :
    (c : ℕ) (vs : List Verification)
    → any (λ v. leb c v.at && ([] =? [] || v.by.kind =? [])) vs ≡ any (stands c) vs
standing-any c [] = refl
standing-any c (v ∷ vs) = ground (arith, standing-any c vs)

standing-person :
    (c : ℕ) (vs : List Verification)
    → any (λ v. leb c v.at && (actor_human =? [] || v.by.kind =? actor_human)) vs
      ≡ any (stands_by_person c) vs
standing-person c [] = refl
standing-person c (v ∷ vs) = ground (arith, standing-person c vs)

any-true : (vs : List Verification) → any (λ _. true) vs ≡ ltb 0 (length vs)
any-true [] = ground arith
any-true (v ∷ vs) = ground arith

person-stands :
    (c : ℕ) (vs : List Verification) → any (stands_by_person c) vs ≡ true → any (stands c) vs ≡ true
person-stands c [] h = h
person-stands c (v ∷ vs) h = ground (arith, person-stands c vs)

condition-name :
    (t : Bytes) (person standing : Bool)
    → (person ≡ true → standing ≡ true)
    → (if t =? trust_unverified
        then not standing
        else if t =? trust_machine
        then standing && not person
        else if t =? trust_human
        then person
        else false)
      ≡ (t =? trust_name (tier_of person standing))
unfolding trust_name tier_of
condition-name t true true h = ground arith
condition-name t true false h = absurd (false≢true (h refl))
condition-name t false true h = ground arith
condition-name t false false h = ground arith

module _ (r : Row) where
  any_standing : standing_verification [] r ≡ any (stands r.content_changed_at) r.ledger
  unfolding standing_verification
  any_standing = standing-any r.content_changed_at r.ledger

  by_person :
      standing_verification actor_human r ≡ any (stands_by_person r.content_changed_at) r.ledger
  unfolding standing_verification
  by_person = standing-person r.content_changed_at r.ledger

  -- The tally counts a concept under the tier that a read of it shows.
  pub tally_tier-trust : tally_tier r ≡ trust_name (row_trust r)
  unfolding tally_tier trust_name tier_of
  tally_tier-trust =
      ground (arith, any_standing, by_person, trust_of-tier_of r.ledger r.content_changed_at)

  tier_condition-trust : (t : Bytes) → tier_condition r t ≡ (t =? trust_name (row_trust r))
  unfolding tier_condition
  tier_condition-trust t =
      rw (any_standing, by_person, trust_of-tier_of r.ledger r.content_changed_at)
        (condition-name t (any (stands_by_person r.content_changed_at) r.ledger)
          (any (stands r.content_changed_at) r.ledger)
          (person-stands r.content_changed_at r.ledger))

  any-condition :
      (ts : List Bytes) → any (tier_condition r) ts ≡ any (λ t. t =? trust_name (row_trust r)) ts
  any-condition [] = refl
  any-condition (t ∷ ts) = rw (tier_condition-trust t, any-condition ts) refl

  -- The trust filter shows exactly the concepts whose tier is among those asked for, and every
  -- concept where none is.
  pub trust_condition-trust :
      (ts : List Bytes)
      → trust_condition ts r
        ≡ (if length ts == 0 then true else any (λ t. t =? trust_name (row_trust r)) ts)
  unfolding trust_condition
  trust_condition-trust [] = refl
  trust_condition-trust (t ∷ ts) = ground (arith, any-condition (t ∷ ts))

  -- The edited queue holds exactly the entries that somebody verified and that count as unverified.
  pub is_edited_iff :
      (status : Bytes)
      → (is_edited r ≡ true) ↔ (
          (verified (record { status = status; verifications = r.ledger }) ≡ true)
          × (row_trust r ≡ unverified))
  unfolding is_edited any_verification verified tier_of
  is_edited_iff status = (
    (λ h. (
      ground (arith, any-true r.ledger),
      rw (trust_of-tier_of r.ledger r.content_changed_at)
          (ground (arith, any_standing, person-stands r.content_changed_at r.ledger)),
    )),
    (λ h.
        ground
          (arith, any-true r.ledger, any_standing, trust_of-tier_of r.ledger r.content_changed_at)),
  )
