-- ===== src/Tests/Verification.antt =====
-- The timeline of one entry.
use ochakai.Common.{true, [], ◌∷◌, none, some, ◌≡◌, ◌≢◌, refl, ◌==◌, if◌then◌else◌, length, any}
use ochakai.Common.Result.{ok}
use ochakai.Text.{◌=?◌}
use ochakai.Domain.Actor.{actor_human}
use ochakai.Domain.Trust.{unverified, human_reviewed}
use ochakai.Store.Verification.{
  Row, clamp, last_verified_at, verify, verify_time, change_content, changed_after_verified,
  report_failed, trust_condition, trust_human,
}
use ochakai.Store.Verification.Tiers.{row_trust, trust_name, trust_condition-trust}
use ochakai.Store.Verification.Timeline.{verify-trust}
use ochakai.Store.Verification.Ledger.{Reaches, here, there, verifies, fails, Ascends}
use ochakai.Tests.Data.{ann}

abbrev written : Row
written = record { live = true; content_changed_at = 10; ledger = []; last_failed_at = none }

-- Verified while the database's clock is behind the application's.
abbrev verified_row : Row
verified_row = record written { ledger = record { by = ann; at = 10 } ∷ [] }

verify_run : verify 4 ann written ≡ ok verified_row
unfolding verify verify_time clamp last_verified_at
verify_run = refl

abbrev failed_row : Row
failed_row = record verified_row { last_failed_at = some 11 }

failed_run : report_failed 3 verified_row ≡ failed_row
unfolding report_failed clamp last_verified_at
failed_run = refl

abbrev answered_row : Row
answered_row = record failed_row {
  ledger = record { by = ann; at = 10 } ∷ record { by = ann; at = 12 } ∷ [];
}

answer_run : verify 4 ann failed_row ≡ ok answered_row
unfolding verify verify_time clamp last_verified_at
answer_run = refl

changed_run : (change_content 5 answered_row).content_changed_at ≡ 13
unfolding change_content changed_after_verified clamp last_verified_at
changed_run = refl

trust_condition-trust_example : trust_condition (trust_human ∷ []) verified_row ≡ (
    if length (trust_human ∷ []) == 0
    then true
    else any (λ t. t =? trust_name (row_trust verified_row)) (trust_human ∷ []))
trust_condition-trust_example = trust_condition-trust verified_row (trust_human ∷ [])

verify-trust_example :
    (row_trust verified_row ≢ unverified)
    × (ann.kind ≡ actor_human → row_trust verified_row ≡ human_reviewed)
verify-trust_example = verify-trust 4 ann written verify_run

history : Reaches verified_row answered_row
unfolding report_failed clamp last_verified_at
history = there (there here (fails 3 verified_row)) (verifies 4 ann answer_run)

verified_row-Ascends : Ascends verified_row.ledger
verified_row-Ascends = (tt, tt)
