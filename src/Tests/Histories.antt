-- ===== src/Tests/Histories.antt =====
-- A note is created, verified and edited, and what every such sequence keeps.
use ochakai.Common.{false, [], none, some, ◌≡◌, refl}
use ochakai.Common.Result.{Result, ok, err}
use ochakai.Text.{codes, bytes_discrete}
use ochakai.Domain.Segments.{concept_path}
use ochakai.Domain.Content.{Knowledge}
use ochakai.Store.Verification.{verify_time, clamp, last_verified_at, changed_after_verified}
use ochakai.Store.Entries.{
  Row, Base, Failure, find_row, put_row, get_one, stored_doc, document_says, max_rev, add_revision,
  not_curated,
}
use ochakai.Store.Entries.Writes.{upsert, create, verify, update, live_row}
use ochakai.Store.Entries.Invariants.{Sound}
use ochakai.Store.Entries.Reach.{Reaches, here, there, creates, verifies, updates, Reaches-Sound}
use ochakai.Store.Entries.Kept.{Grows, Reaches-history}
use ochakai.Tests.Data.{ann, bob}
use ochakai.Tests.Entries.{formats, note, empty, edit}

abbrev outcome_of : Result Failure (Base × Knowledge) → Base × Knowledge
outcome_of (ok w) = w
outcome_of (err _) = (empty, note [])

abbrev first_draft : Base × Knowledge
first_draft = outcome_of (create formats.okf 10 false (note (codes "one")) empty)

abbrev vouched : Base × Knowledge
vouched = outcome_of (verify formats.okf 15 bob (codes "teams/a/x") first_draft.0)

abbrev edited : Base × Knowledge
edited = outcome_of (update formats.okf 20 ann none edit vouched.0)

abbrev row_of : Base → Row
row_of b = elim (find_row (codes "teams/a/x") b.rows) [
  | some r ↦ r
  | none ↦ record { entry = note []; deleted = false; last_failed_at = none }
]

runs :
    (create formats.okf 10 false (note (codes "one")) empty ≡ ok first_draft)
    × (verify formats.okf 15 bob (codes "teams/a/x") first_draft.0 ≡ ok vouched)
    × (update formats.okf 20 ann none edit vouched.0 ≡ ok edited)
    × (find_row (codes "teams/a/x") first_draft.0.rows ≡ some (row_of first_draft.0))
    × (find_row (codes "teams/a/x") vouched.0.rows ≡ some (row_of vouched.0))
    × ((row_of first_draft.0).deleted ≡ false)
    × ((row_of vouched.0).deleted ≡ false)
unfolding create upsert verify update live_row find_row put_row get_one stored_doc document_says
    max_rev add_revision verify_time clamp last_verified_at changed_after_verified bytes_discrete
    concept_path not_curated
runs = (refl, refl, refl, refl, refl, refl, refl)

history : Reaches formats.okf empty edited.0
history =
    there
      (there (there here (creates 10 false (note (codes "one")) (runs.0)))
        (verifies 15 bob (codes "teams/a/x") (runs.1)))
      (updates 20 ann none edit (runs.2))

empty-Sound : Sound empty
unfolding find_row
empty-Sound = record {
  keyed = tt;
  apart = tt;
  ledgers = tt;
  numbered = tt;
  explained = λ id h. absurd (cc h);
}

Reaches-Sound_example : Sound edited.0
Reaches-Sound_example = Reaches-Sound formats.okf empty-Sound history

Reaches-history_example : Grows empty edited.0
Reaches-history_example = Reaches-history formats.okf history
