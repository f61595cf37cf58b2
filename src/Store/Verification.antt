-- ===== src/Store/Verification.antt =====
-- internal/store/store.go and filter.go: the verification ledger of one entry, the clamps of its
-- times, and the predicates that the filters, the tallies and the review queues read off it. Times
-- are numbers of microseconds. A SQL predicate is the Boolean that it is for the entry.
pub mod Tiers
pub mod Timeline
pub mod Ledger
use ochakai.Common.{
  ℕ, ◌+◌, Bool, true, false, not, ◌&&◌, ◌||◌, List, [], ◌∷◌, ◌++◌, Option, none, some, ltb, leb,
  ◌==◌, if◌then◌else◌, length, any,
}
use ochakai.Common.Result.{Result, ok, err}
use ochakai.Text.{Bytes, codes, ◌=?◌}
use ochakai.Domain.Actor.{Actor, actor_human}
use ochakai.Domain.Trust.{Trust, unverified, machine_confirmed, human_reviewed, Verification}

-- An entry's row and its rows in knowledge_verification, in the order of seq. `last_failed_at` is
-- the time of its newest failure report, if it has one.
pub record Row : Type 0 where
  pub live : Bool
  pub content_changed_at : ℕ
  pub ledger : List Verification
  pub last_failed_at : Option ℕ

abbrev pub max : ℕ → ℕ → ℕ
max a b = if ltb a b then b else a

-- GREATEST of a time and one that may be NULL, a microsecond later.
unfoldable pub clamp : ℕ → Option ℕ → ℕ
clamp at none = at
clamp at (some t) = max at (t + 1)

-- max(v.at), which lastVerifiedAt selects.
unfoldable pub last_verified_at : List Verification → Option ℕ
last_verified_at [] = none
last_verified_at (v ∷ vs) = elim (last_verified_at vs) [
  | none ↦ some v.at
  | some t ↦ some (max v.at t)
]

-- changedAfterVerified
unfoldable pub changed_after_verified : ℕ → List Verification → ℕ
unfolding clamp last_verified_at
changed_after_verified at ledger = clamp at (last_verified_at ledger)

-- standingVerification; the kind is empty for any.
unfoldable pub standing_verification : Bytes → Row → Bool
standing_verification kind r =
    any (λ v. leb r.content_changed_at v.at && (kind =? [] || v.by.kind =? kind)) r.ledger

-- anyVerification
unfoldable pub any_verification : Row → Bool
any_verification r = any (λ _. true) r.ledger

-- unansweredFailure
unfoldable pub unanswered_failure : Row → Bool
unanswered_failure r = elim r.last_failed_at [
  | none ↦ false
  | some failed ↦ elim (last_verified_at r.ledger) [ none ↦ true | some v ↦ ltb v failed ]
]

-- The edited queue of QueueCounts.
unfoldable pub is_edited : Row → Bool
is_edited r = any_verification r && not (standing_verification [] r)

abbrev pub trust_unverified : Bytes
trust_unverified = codes "unverified"

abbrev pub trust_machine : Bytes
trust_machine = codes "machine-confirmed"

abbrev pub trust_human : Bytes
trust_human = codes "human-reviewed"

-- One tier of the trust filter; a tier that nobody defines matches nothing.
unfoldable pub tier_condition : Row → Bytes → Bool
tier_condition r t =
    let standing = standing_verification [] r in
    let by_human = standing_verification actor_human r in
    if t =? trust_unverified
    then not standing
    else if t =? trust_machine
    then standing && not by_human
    else if t =? trust_human
    then by_human
    else false

-- The trust filter of buildWhere.
unfoldable pub trust_condition : List Bytes → Row → Bool
unfolding tier_condition
trust_condition [] r = true
trust_condition (t ∷ ts) r = any (tier_condition r) (t ∷ ts)

-- The CASE of the tally of concepts.
unfoldable pub tally_tier : Row → Bytes
tally_tier r =
    if standing_verification actor_human r
    then trust_human
    else if standing_verification [] r
    then trust_machine
    else trust_unverified

pub data VerifyError : Type 0 where
  not_found : VerifyError

-- The GREATEST of Verify: the database's clock, behind everything the entry has on its timeline.
unfoldable pub verify_time : ℕ → Row → ℕ
unfolding clamp last_verified_at
verify_time now r =
    clamp (clamp (max now r.content_changed_at) (last_verified_at r.ledger)) r.last_failed_at

-- Store.Verify at the database's clock.
unfoldable pub verify : ℕ → Actor → Row → Result VerifyError Row
unfolding verify_time
verify now actor r =
    if r.live
    then ok (record r { ledger = r.ledger ++ record { by = actor; at = verify_time now r } ∷ [] })
    else err not_found

-- What Update makes of content_changed_at: it stays where the write carries the stored value over,
-- a reformat, and any other value is a content change at the application's clock.
unfoldable pub change_content : ℕ → Row → Row
unfolding changed_after_verified
change_content at r = record r {
  content_changed_at =
      if r.content_changed_at == at
      then r.content_changed_at
      else changed_after_verified at r.ledger;
}

-- RecordOutcome of a failure, at the database's clock: the time of the newest report.
unfoldable pub report_failed : ℕ → Row → Row
unfolding clamp last_verified_at
report_failed now r = record r { last_failed_at = some (clamp now (last_verified_at r.ledger)) }
