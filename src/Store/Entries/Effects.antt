-- ===== src/Store/Entries/Effects.antt =====
-- What a write of a concept that succeeds leaves: its row over the old one, and one revision more.
pub mod Births
use ochakai.Common.{
  ℕ, ◌+◌, Bool, true, false, not, ◌&&◌, ◌||◌, List, [], ◌∷◌, ◌++◌, Option, none, some, ◌≡◌, ◌≢◌,
  refl, sym, subst, ◌∙◌, ◌⊎◌, inl, inr, arith, ◌==◌, if◌then◌else◌, any, keep,
}
use ochakai.Common.Result.{Result, ok, err, ◌>>=◌, bind-eq-ok, option-eq-ok}
use ochakai.Text.{Bytes, codes, ◌=?◌}
use ochakai.Domain.Actor.{Actor}
use ochakai.Domain.Segments.{concept_path}
use ochakai.Domain.Trust.{Verification, curated}
use ochakai.Domain.Content.{Knowledge}
use ochakai.Store.Verification.{changed_after_verified, verify_time}
use ochakai.Store.Entries.{
  Okf, Row, Revision, Base, Failure, missing, conflict, unrenderable, not_curated, find_row,
  put_row, get_one, stored_doc, max_rev, add_revision,
}
use ochakai.Store.Entries.Rows.{find_row-id}
use ochakai.Store.Entries.Writes.{
  timeline, upsert, create, matches, live_row, update, verify, soft_delete,
}

pub record Wrote (row : Row) (change : Bytes) (actor : Actor) (b b' : Base) : Type 0 where
  pub revision : Revision
  pub rows : b'.rows ≡ put_row row b.rows
  pub files : b'.files ≡ b.files
  pub purges : b'.purges ≡ b.purges
  pub revisions : b'.revisions ≡ b.revisions ++ revision ∷ []
  pub path : revision.path ≡ concept_path row.entry.id
  pub owner : revision.id ≡ some row.entry.id
  pub rev : revision.rev ≡ max_rev (concept_path row.entry.id) b.revisions + 1
  pub kind : revision.change ≡ change
  pub by : revision.changed_by ≡ actor

-- The rows of the store with one revision more.
abbrev pub revised : Revision → Base → Base
revised v b = record b { revisions = b.revisions ++ v ∷ [] }

-- The row that verifying makes of a row.
unfoldable pub vouched : ℕ → Actor → Row → Row
vouched now actor r = record r {
  entry = record r.entry {
    verifications =
        r.entry.verifications ++ record { by = actor; at = verify_time now (timeline r) } ∷ [];
  };
}

-- The payload of an update with its document, at the clocks, over the row that is there.
unfoldable pub updated_entry : ℕ → Knowledge → Bytes → Bytes → Row → Knowledge
updated_entry now given doc hash r =
    let at = if given.content_changed_at == 0 then now else given.content_changed_at in
    record given {
      updated_at = now;
      doc = doc;
      content_hash = hash;
      content_changed_at =
          if r.entry.content_changed_at == at
          then r.entry.content_changed_at
          else changed_after_verified at r.entry.verifications;
    }

unfoldable pub updated : ℕ → Knowledge → Bytes → Bytes → Row → Row
unfolding updated_entry
updated now given doc hash r = record r {
  entry = record (updated_entry now given doc hash r) {
    created_by = r.entry.created_by;
    created_at = r.entry.created_at;
    verifications = r.entry.verifications;
  };
}

abbrev pub stamped : ℕ → Knowledge → Knowledge
stamped now given = record given {
  updated_at = now;
  content_changed_at = if given.content_changed_at == 0 then now else given.content_changed_at;
}

module _ (okf : Okf) where
  written-Wrote :
      (row : Row) (k : Knowledge) (change : Bytes) (actor : Actor) (note : Bytes) (b : Base)
      {b' : Base}
      → row.entry.id ≡ k.id
      → add_revision okf k change actor note (record b { rows = put_row row b.rows }) ≡ ok b'
      → Wrote row change actor b b'
  unfolding add_revision
  written-Wrote row k change actor note b {b'} e h =
      let (doc, _, done) =
        option-eq-ok (okf.document k) unrenderable
          (λ doc. ok (revised (revision doc) (record b { rows = put_row row b.rows }))) h in
      record {
        revision = revision doc;
        rows = ground arith;
        files = ground arith;
        purges = ground arith;
        revisions = ground arith;
        path = ground arith;
        owner = ground arith;
        rev = ground arith;
        kind = refl;
        by = refl;
      }
    where
      revision : Bytes → Revision
      revision doc = record {
        path = concept_path k.id;
        id = some k.id;
        rev = max_rev (concept_path k.id) b.revisions + 1;
        change = change;
        changed_by = actor;
        document = doc;
        note = note;
      }

  pub get_one-live :
      (id : Bytes) (b : Base) {r : Row}
      → get_one false id b ≡ ok r
      → (find_row id b.rows ≡ some r) × (r.deleted ≡ false)
  unfolding get_one
  get_one-live id b h = ground arith

  -- The live row that a conditional statement hits.
  pub live_row-hits :
      (id : Bytes) (if_match : Option Bytes) (b : Base) {r : Row}
      → live_row okf id if_match b ≡ ok r
      → (find_row id b.rows ≡ some r) × (r.deleted ≡ false) × (matches if_match r ≡ true)
  unfolding live_row get_one
  live_row-hits id if_match b h = ground arith

  pub record Verified (now : ℕ) (actor : Actor) (id : Bytes) (b b' : Base) (k : Knowledge)
      : Type 0 where
    pub row : Row
    pub found : find_row id b.rows ≡ some row
    pub is_live : row.deleted ≡ false
    pub answer : k ≡ (vouched now actor row).entry
    pub wrote : Wrote (vouched now actor row) (codes "verify") actor b b'

  pub verify-Verified :
      (now : ℕ) (actor : Actor) (id : Bytes) (b : Base) {b' : Base} {k : Knowledge}
      → verify okf now actor id b ≡ ok (b', k)
      → Verified now actor id b b' k
  unfolding verify vouched
  verify-Verified now actor id b h =
      let (r, got, h₁) = bind-eq-ok (get_one false id b) _ h in
      let (b₁, added, h₂) =
        bind-eq-ok
          (add_revision okf (vouched now actor r).entry (codes "verify") actor []
            (record b { rows = put_row (vouched now actor r) b.rows }))
          _ h₁ in
      record {
        row = r;
        found = (get_one-live id b got).0;
        is_live = (get_one-live id b got).1;
        answer = ground arith;
        wrote =
            subst (λ c. Wrote (vouched now actor r) (codes "verify") actor b c) (ground arith)
              (written-Wrote (vouched now actor r) (vouched now actor r).entry (codes "verify")
                actor [] b refl added);
      }

  pub record Updated (now : ℕ) (actor : Actor) (if_match : Option Bytes) (given : Knowledge)
      (b b' : Base) (k : Knowledge) : Type 0 where
    pub row : Row
    pub doc : Bytes
    pub hash : Bytes
    pub found : find_row given.id b.rows ≡ some row
    pub is_live : row.deleted ≡ false
    pub matched : matches if_match row ≡ true
    pub stored : stored_doc okf (stamped now given) ≡ ok (doc, hash)
    pub answer : k ≡ updated_entry now given doc hash row
    pub wrote : Wrote (updated now given doc hash row) (codes "update") actor b b'

  pub update-Updated :
      (now : ℕ) (actor : Actor) (if_match : Option Bytes) (given : Knowledge) (b : Base) {b' : Base}
      {k : Knowledge}
      → update okf now actor if_match given b ≡ ok (b', k)
      → Updated now actor if_match given b b' k
  unfolding update updated updated_entry
  update-Updated now actor if_match given b h =
      let (made, stored, h₁) = bind-eq-ok (stored_doc okf (stamped now given)) _ h in
      let (r, got, h₂) = bind-eq-ok (live_row okf given.id if_match b) _ h₁ in
      let entry = updated_entry now given made.0 made.1 r in
      let row = updated now given made.0 made.1 r in
      let (b₁, added, h₃) =
        bind-eq-ok
          (add_revision okf entry (codes "update") actor []
            (record b { rows = put_row row b.rows }))
          _ h₂ in
      let hit = live_row-hits given.id if_match b got in
      record {
        row = r;
        doc = made.0;
        hash = made.1;
        found = hit.0;
        is_live = hit.1;
        matched = hit.2;
        stored = stored;
        answer = ground arith;
        wrote =
            subst (λ c. Wrote row (codes "update") actor b c) (ground arith)
              (written-Wrote row entry (codes "update") actor [] b refl added);
      }
