-- ===== src/Store/Entries/Writes.antt =====
-- The writes of internal/store/store.go, each a transaction: on an error nothing is written.
use ochakai.Common.{
  ℕ, Bool, true, false, not, ◌&&◌, List, [], ◌∷◌, ◌++◌, Option, none, some, ◌==◌, if◌then◌else◌,
  length, any, keep,
}
use ochakai.Common.Result.{Result, ok, err, ◌>>=◌}
use ochakai.Text.{Bytes, codes, ◌=?◌, has_prefix}
use ochakai.Domain.Actor.{Actor}
use ochakai.Domain.Segments.{concept_path}
use ochakai.Domain.Trust.{curated}
use ochakai.Domain.Content.{Knowledge}
use ochakai.Store.Verification.{changed_after_verified, verify_time}
use ochakai.Store.Entries.{
  Okf, Row, Revision, Base, Failure, missing, conflict, already_exists, curated_tombstone,
  not_deleted, rulings, not_curated, find_row, put_row, drop_row, get_one, stored_doc, add_revision,
}

-- The row's view of its timeline.
abbrev pub timeline : Row → ochakai.Store.Verification.Row
timeline r = record {
  live = not r.deleted;
  content_changed_at = r.entry.content_changed_at;
  ledger = r.entry.verifications;
  last_failed_at = r.last_failed_at;
}

-- `content_hash=$n`, where there is a precondition.
abbrev pub matches : Option Bytes → Row → Bool
matches none r = true
matches (some hash) r = r.entry.content_hash =? hash

module _ (okf : Okf) where
  -- INSERT … ON CONFLICT (id) DO UPDATE … WHERE deleted_at IS NOT NULL: the row as it will stand.
  unfoldable pub upsert : Bool → Knowledge → Base → Result Failure Row
  unfolding find_row not_curated
  upsert keep_curated k b = elim (find_row k.id b.rows) [
    | none ↦
        if any (λ p. p =? concept_path k.id) b.files
        then err already_exists
        else ok (record { entry = k; deleted = false; last_failed_at = none })
    | some r ↦
        if not r.deleted
        then err already_exists
        else if keep_curated && not (not_curated r.entry)
        then (if curated (rulings r.entry) then err curated_tombstone else err already_exists)
        else ok (record { entry = k; deleted = false; last_failed_at = r.last_failed_at })
  ]

  -- Store.Create
  unfoldable pub create : ℕ → Bool → Knowledge → Base → Result Failure (Base × Knowledge)
  unfolding upsert stored_doc add_revision
  create now keep_curated given b = do
    let k = record given { created_at = now; updated_at = now; content_changed_at = now }
    (doc, hash) ← stored_doc okf k
    let k = record k { doc = doc; content_hash = hash }
    row ← upsert keep_curated k b
    let k = record k { verifications = [] }
    b ←
        add_revision okf k (codes "create") k.created_by []
          (record b { rows = put_row (record row { entry = k }) b.rows })
    ok (b, k)

  -- The row that a conditional statement on a live concept hits.
  unfoldable pub live_row : Bytes → Option Bytes → Base → Result Failure Row
  unfolding get_one
  live_row id if_match b = do
    r ← get_one false id b
    if matches if_match r then ok r else err conflict

  -- Store.Update: the row keeps what the statement does not name.
  unfoldable pub update :
      ℕ → Actor → Option Bytes → Knowledge → Base → Result Failure (Base × Knowledge)
  unfolding live_row stored_doc add_revision
  update now actor if_match given b = do
    let k = record given {
      updated_at = now;
      content_changed_at = if given.content_changed_at == 0 then now else given.content_changed_at;
    }
    (doc, hash) ← stored_doc okf k
    r ← live_row k.id if_match b
    let k = record k {
      doc = doc;
      content_hash = hash;
      content_changed_at =
          if r.entry.content_changed_at == k.content_changed_at
          then r.entry.content_changed_at
          else changed_after_verified k.content_changed_at r.entry.verifications;
    }
    let row = record r {
      entry = record k {
        created_by = r.entry.created_by;
        created_at = r.entry.created_at;
        verifications = r.entry.verifications;
      };
    }
    b ← add_revision okf k (codes "update") actor [] (record b { rows = put_row row b.rows })
    ok (b, k)

  -- Store.Verify
  unfoldable pub verify : ℕ → Actor → Bytes → Base → Result Failure (Base × Knowledge)
  unfolding get_one add_revision
  verify now actor id b = do
    r ← get_one false id b
    let k = record r.entry {
      verifications =
          r.entry.verifications ++ record { by = actor; at = verify_time now (timeline r) } ∷ [];
    }
    b ←
        add_revision okf k (codes "verify") actor []
          (record b { rows = put_row (record r { entry = k }) b.rows })
    ok (b, k)

  -- Store.SoftDelete; a note makes it a rejection. Its Get, which stands before the transaction,
  -- and its statement read one state here: what others write between the two is left out.
  unfoldable pub soft_delete : ℕ → Actor → Option Bytes → Bytes → Bytes → Base → Result Failure Base
  unfolding get_one live_row add_revision
  soft_delete now actor if_match note id b = do
    k ← get_one false id b
    r ← live_row id if_match b
    let row = record r { entry = record r.entry { updated_at = now }; deleted = true }
    add_revision okf k.entry (if note =? [] then codes "delete" else codes "reject") actor note
        (record b { rows = put_row row b.rows })

-- The revisions that a purge leaves: not the concept's, nor those of the files under it.
abbrev pub outlives : Bytes → Revision → Bool
outlives id r = elim r.id [
  | none ↦ not (has_prefix r.path (id ++ codes "/"))
  | some owner ↦ not (owner =? id)
]

abbrev pub revisions_of : Bytes → List Revision → List Revision
revisions_of id revisions =
    keep (λ r. elim r.id [ none ↦ false | some owner ↦ owner =? id ]) revisions

-- Store.Purge
unfoldable pub purge : Actor → Bytes → Base → Result Failure Base
unfolding find_row drop_row
purge actor id b = elim (find_row id b.rows) [
  | none ↦ err missing
  | some r ↦
      if not r.deleted
      then err not_deleted
      else ok (record {
        rows = drop_row id b.rows;
        files = keep (λ p. not (has_prefix p (id ++ codes "/"))) b.files;
        revisions = keep (outlives id) b.revisions;
        purges =
            b.purges
            ++ record {
              id = id;
              kind = r.entry.kind;
              title = r.entry.title;
              revisions = length (revisions_of id b.revisions);
              purged_by = actor;
            }
              ∷ [];
      })
]
