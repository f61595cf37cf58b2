-- ===== src/Store/Verification/Timeline.antt =====
-- What verifying, editing and reporting a failure make of an entry, whatever the clocks say.
use ochakai.Common.{
  ℕ, ◌≤◌, true, false, ◌||◌, List, [], ◌∷◌, ◌++◌, Option, none, some, ◌≡◌, ◌==◌, if◌then◌else◌, ◌≢◌,
  refl, ◌∙◌, arith, any, any-append,
}
use ochakai.Common.Result.{ok}
use ochakai.Text.{◌=?◌}
use ochakai.Domain.Actor.{Actor, actor_human}
use ochakai.Domain.Trust.{unverified, human_reviewed, Verification, trust_of}
use ochakai.Domain.Trust.Laws.{stands, stands_by_person, tier_of, trust_of-tier_of}
use ochakai.Store.Verification.{
  Row, clamp, last_verified_at, changed_after_verified, unanswered_failure, verify_time, verify,
  change_content, report_failed,
}
use ochakai.Store.Verification.Tiers.{row_trust}

clamp-above : (at : ℕ) (t : Option ℕ) → clamp 0 t ≤ clamp at t
unfolding clamp
clamp-above at none = omega arith
clamp-above at (some t) = ground arith

clamp-keeps : (at : ℕ) (t : Option ℕ) → at ≤ clamp at t
unfolding clamp
clamp-keeps at none = omega arith
clamp-keeps at (some t) = ground arith

-- No verification is later than the newest.
none-stands :
    (vs : List Verification) (c : ℕ) → clamp 0 (last_verified_at vs) ≤ c → any (stands c) vs ≡ false
unfolding clamp last_verified_at
none-stands [] c h = refl
none-stands (v ∷ vs) c h = ground (arith, none-stands vs c)

none-by-person :
    (vs : List Verification) (c : ℕ)
    → any (stands c) vs ≡ false
    → any (stands_by_person c) vs ≡ false
none-by-person [] c h = refl
none-by-person (v ∷ vs) c h = ground (arith, none-by-person vs c)

-- A write that changes the content leaves no verification standing, whatever the two clocks say,
-- and a reformat, which carries the stored time over, leaves the tier as it was.
pub change_content-trust :
    (at : ℕ) (r : Row)
    → row_trust (change_content at r)
      ≡ (if r.content_changed_at == at then row_trust r else unverified)
unfolding change_content changed_after_verified tier_of
change_content-trust at r = ground (arith, lapsed)
  where
    changed_at : ℕ
    changed_at = clamp at (last_verified_at r.ledger)

    nothing : any (stands changed_at) r.ledger ≡ false
    nothing = none-stands r.ledger changed_at (clamp-above at (last_verified_at r.ledger))

    lapsed : trust_of r.ledger changed_at ≡ unverified
    lapsed =
        trust_of-tier_of r.ledger changed_at
        ∙ rw (none-by-person r.ledger changed_at nothing, nothing) refl

unfoldable pub with_verification : ℕ → Actor → Row → Row
with_verification now actor r = record r {
  ledger = r.ledger ++ record { by = actor; at = verify_time now r } ∷ [];
}

pub verify-row :
    (now : ℕ) (actor : Actor) (r : Row) {r' : Row}
    → verify now actor r ≡ ok r'
    → r' ≡ with_verification now actor r
unfolding verify with_verification
verify-row now actor r h = ground arith

-- The time of a verification is behind everything else.
verify_time-changed : (now : ℕ) (r : Row) → r.content_changed_at ≤ verify_time now r
unfolding verify_time clamp
verify_time-changed now r = ground arith

pub verify_time-newest :
    (now : ℕ) (r : Row) → clamp 0 (last_verified_at r.ledger) ≤ verify_time now r
unfolding verify_time clamp
verify_time-newest now r = ground arith

verify_time-failed : (now : ℕ) (r : Row) → clamp 0 r.last_failed_at ≤ verify_time now r
unfolding verify_time clamp
verify_time-failed now r = ground arith

pub last_verified_at-append :
    (vs : List Verification) (v : Verification)
    → clamp 0 (last_verified_at vs) ≤ v.at
    → last_verified_at (vs ++ v ∷ []) ≡ some v.at
unfolding last_verified_at clamp
last_verified_at-append [] v h = refl
last_verified_at-append (w ∷ vs) v h = ground (arith, last_verified_at-append vs v)

module _ (now : ℕ) (actor : Actor) (r : Row) where
  with_verification-trust :
      row_trust (with_verification now actor r)
      ≡ tier_of
          (any (stands_by_person r.content_changed_at) r.ledger || actor.kind =? actor_human)
          true
  unfolding with_verification tier_of
  with_verification-trust = ground (
    arith,
    trust_of-tier_of (r.ledger ++ record { by = actor; at = verify_time now r } ∷ [])
        r.content_changed_at,
    any-append (stands r.content_changed_at) r.ledger
        (record { by = actor; at = verify_time now r } ∷ []),
    any-append (stands_by_person r.content_changed_at) r.ledger
        (record { by = actor; at = verify_time now r } ∷ []),
    verify_time-changed now r,
  )

-- A verification stands from the moment it is written: by a person it makes the entry
-- human-reviewed, and by any other actor it leaves it no longer unverified.
pub verify-trust :
    (now : ℕ) (actor : Actor) (r : Row) {r' : Row}
    → verify now actor r ≡ ok r'
    → (row_trust r' ≢ unverified) × (actor.kind ≡ actor_human → row_trust r' ≡ human_reviewed)
unfolding tier_of
verify-trust now actor r h =
    rw (verify-row now actor r h, with_verification-trust now actor r) (ground arith)

-- A verification answers the failures that were reported before it.
pub verify-answers :
    (now : ℕ) (actor : Actor) (r : Row) {r' : Row}
    → verify now actor r ≡ ok r'
    → unanswered_failure r' ≡ false
verify-answers now actor r h = rw (verify-row now actor r h) answered
  where
    answered : unanswered_failure (with_verification now actor r) ≡ false
    answered =
        unfold unanswered_failure with_verification clamp in
        ground (
          arith,
          verify_time-failed now r,
          last_verified_at-append r.ledger (record { by = actor; at = verify_time now r })
              (verify_time-newest now r),
        )

-- A failure that is reported puts the entry in the feed of failures.
pub report_failed-unanswered : (now : ℕ) (r : Row) → unanswered_failure (report_failed now r) ≡ true
unfolding unanswered_failure report_failed clamp
report_failed-unanswered now r = ground arith
