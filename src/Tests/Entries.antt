-- ===== src/Tests/Entries.antt =====
-- The concepts of a small bundle: a note that was created, and the writes over it.
use ochakai.Common.{
  ℕ, zero, suc, Bool, true, false, not, ◌&&◌, ◌||◌, List, [], ◌∷◌, ◌++◌, Option, none, some, ◌≡◌,
  ◌≢◌, ◌↔◌, ◌⊎◌, inl, inr, refl, if◌then◌else◌, ◌==◌, length, keep, any, All, arith,
}
use ochakai.Common.Result.{Result, ok, err}
use ochakai.Text.{Bytes, codes, ◌=?◌, bytes_discrete, has_prefix}
use ochakai.Domain.Segments.{concept_path}
use ochakai.Domain.Content.{Knowledge, same_content}
use ochakai.Store.Entries.{Okf, Row, Revision, Base, Failure, find_row, put_row, max_rev}
use ochakai.Store.Entries.Writes as Db
use ochakai.Service.Entries.{Formats, WriteError, normalize_keys, validate}
use ochakai.Service.Entries.Writes.{
  Written, Windows, alone, update, create_checked, create_keeping_curated, recover, slot_at,
}
use ochakai.Service.Entries.Requests.{
  put, put_updated, put_created, after_update, verify, publish_draft, published,
}
use ochakai.Service.Entries.Overwrites.{Overwrites, Retrusts, update-keeps_writes, update-trust}
use ochakai.Service.Entries.Rulings.{Spares, create_keeping_curated-Spares}
use ochakai.Service.Entries.Verifying.{Stands, verify-Stands}
use ochakai.Service.Entries.Renders.{Renders}
use ochakai.Service.Entries.Valid.{Acceptable, validate-Acceptable}
use ochakai.Domain.Content.Same.{written, IsEncodable, same_content_iff}
use ochakai.Tests.Data.{ann, platform, deployment}

abbrev pub formats : Formats
formats = record {
  okf = record {
    canonical = λ k. some (k.title ++ k.body);
    document = λ k. some (k.title ++ k.body);
    parse = λ _. none;
    digest = λ s. s;
  };
  nfc = λ s. s;
  lower = λ s. s;
  valid_instant = λ _. true;
  links_from_body = λ _ _. [];
  is_observation = λ _ _. false;
  strip_claim = λ s. s;
  set_stable = λ s. some s;
}

abbrev pub note : Bytes → Knowledge
note body = record {
  kind = codes "Note";
  id = codes "teams/a/x";
  title = codes "X";
  description = [];
  resource = [];
  tags = [];
  sources = [];
  usage_window = none;
  status = codes "stable";
  status_note = [];
  stale_after = [];
  runtime = [];
  parameters = [];
  computation = [];
  executor = none;
  attester = none;
  created_by = ann;
  updated_by = ann;
  verifications = [];
  links = [];
  attrs = [];
  body = body;
  created_at = 10;
  updated_at = 10;
  content_changed_at = 10;
  doc = codes "X" ++ body;
  content_hash = codes "X" ++ body;
}

abbrev pub empty : Base
empty = record { rows = []; files = []; revisions = []; purges = [] }

abbrev pub first : Revision
first = record {
  path = codes "teams/a/x.md";
  id = some (codes "teams/a/x");
  rev = 1;
  change = codes "create";
  changed_by = ann;
  document = codes "Xone";
  note = [];
}

abbrev pub stored : Row
stored = record { entry = note (codes "one"); deleted = false; last_failed_at = none }

abbrev pub base : Base
base = record { rows = stored ∷ []; files = []; revisions = first ∷ []; purges = [] }

-- What an action answers with, where it answers.
abbrev pub result_of {ℓ} : {A : Type ℓ} → A → Result WriteError A → A
result_of a (ok b) = b
result_of a (err _) = a

abbrev nothing : Written
nothing = record { entry = note []; created = false; changed = false }

abbrev pub edit : Knowledge
edit = record (note (codes "two")) { doc = [] }

abbrev edited : Base × Result WriteError Written
edited = update platform formats deployment ann (λ b. b) 20 ann (some (codes "Xone")) edit base

abbrev made : Base × Result WriteError Knowledge
made = create_keeping_curated platform formats deployment ann (λ b. b) 10 ann edit empty

abbrev putted : Base × Result WriteError Written
putted = put platform formats deployment ann alone 20 ann none edit base

abbrev vouched : Base × Result WriteError Knowledge
vouched = verify platform formats deployment ann alone 30 30 ann (codes "teams/a/x") base

runs :
    (edited ≡ (edited.0, ok (result_of nothing edited.1)))
    × ((result_of nothing edited.1).changed ≡ true)
    × (made ≡ (made.0, ok (result_of (note []) made.1)))
    × (putted ≡ (putted.0, ok (result_of nothing putted.1)))
    × (vouched ≡ (vouched.0, ok (result_of (note []) vouched.1)))
unfolding update ochakai.Service.Access.Policy.check_writable ochakai.Service.Access.may_write
    ochakai.Service.Access.scope bytes_discrete ochakai.Domain.Actor.principal_of
    ochakai.Service.Access.scope_may_write ochakai.Store.Access.access_policy
    ochakai.Service.Access.add_grant ochakai.Domain.Access.under has_prefix
    ochakai.Service.Entries.validate ochakai.Domain.Content.valid_type ochakai.Text.Space.trim_space
    ochakai.Service.Entries.normalize_keys ochakai.Text.Utf8.runes ochakai.Domain.Segments.valid_id
    ochakai.Common.ℕ_discrete concept_path ochakai.Domain.Segments.valid_segment
    ochakai.Domain.Trust.lifecycle_of ochakai.Domain.Trust.valid_status
    ochakai.Service.Access.add_grants ochakai.Service.Access.is_admin
    ochakai.Service.Access.may_write_in ochakai.Service.Access.policy_scope
    ochakai.Service.Access.read_policy ochakai.Service.Access.scope_may_read
    ochakai.Service.Entries.Settle.beside ochakai.Service.Entries.Settle.prepare
    ochakai.Service.Entries.Settle.settle_update ochakai.Service.Entries.Settle.sign
    ochakai.Service.Entries.Writes.update_settled ochakai.Service.Entries.check_parameters
    ochakai.Service.Entries.check_source ochakai.Service.Entries.check_sources
    ochakai.Service.Entries.derive_links ochakai.Service.Entries.drop_claim
    ochakai.Service.Entries.equal_type ochakai.Service.Entries.shadowed
    ochakai.Service.Entries.validate_okf Db.live_row Db.update ochakai.Store.Entries.add_revision
    ochakai.Store.Entries.document_says find_row ochakai.Store.Entries.get_one max_rev put_row
    ochakai.Store.Entries.stored_doc ochakai.Store.Verification.changed_after_verified
    ochakai.Store.Verification.clamp ochakai.Store.Verification.last_verified_at
    ochakai.Text.Order.str_lt ochakai.Text.Split.split ochakai.Text.Utf8.decode
    ochakai.Text.Utf8.valid_string same_content ochakai.Domain.Content.equal_func
    ochakai.Domain.Content.equal_pointers create_keeping_curated create_checked recover slot_at put
    put_updated put_created after_update verify publish_draft published Db.create Db.upsert
    Db.verify ochakai.Store.Verification.verify_time
    ochakai.Service.Curation.refuse_if_reviving_curated ochakai.Service.Curation.lift
    ochakai.Service.Curation.check_tombstone
runs = (refl, refl, refl, refl, refl)

update-keeps_writes_example :
    Overwrites
      (codes "teams/a/x")
      ann
      (codes "Xone")
      base
      edited.0
      (result_of nothing edited.1).entry.content_hash
update-keeps_writes_example =
    update-keeps_writes platform formats deployment ann (λ b. b) 20 ann edit base (codes "Xone")
      (runs.0) (runs.1)

found : find_row (codes "teams/a/x") base.rows ≡ some stored
unfolding find_row bytes_discrete
found = refl

update-trust_example :
    Retrusts (codes "teams/a/x") stored edited.0 (result_of nothing edited.1).entry.content_hash
update-trust_example =
    update-trust platform formats deployment ann (λ b. b) 20 ann edit base (some (codes "Xone"))
      stored (runs.0) (runs.1) found found (omega arith) (omega arith)

create_keeping_curated-Spares_example :
    Spares (codes "teams/a/x") empty made.0 (result_of (note []) made.1)
create_keeping_curated-Spares_example =
    create_keeping_curated-Spares platform formats deployment ann (λ b. b) 10 ann edit empty
      (runs.2)

verify-Stands_example : Stands (codes "teams/a/x") ann vouched.0 (result_of (note []) vouched.1)
verify-Stands_example =
    verify-Stands platform formats deployment ann alone 30 30 ann (codes "teams/a/x") base (runs.4)

same_content_iff_example :
    (same_content edit (note (codes "one")) ≡ true)
    ↔ ((written edit ≡ written (note (codes "one"))) × IsEncodable edit)
same_content_iff_example = same_content_iff edit (note (codes "one"))

validate-Acceptable_example : (validate formats edit ≡ ok tt) ↔ Acceptable formats edit
validate-Acceptable_example = validate-Acceptable formats edit
