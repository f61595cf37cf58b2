-- ===== src/Store/Entries.antt =====
-- internal/store/store.go and revision.go: the concepts of the bundle and the revisions of their
-- changes. The table object is the list of its concept rows, each with its rows of
-- knowledge_verification, and of the paths of its files. `Okf` bundles what package okf answers:
-- the rendering of a document and its reading, which may fail.
pub mod Rows
pub mod History
pub mod Writes
pub mod Effects
pub mod Invariants
pub mod Reach
pub mod Kept
pub mod Timelines
use ochakai.Common.{
  ℕ, zero, suc, ◌+◌, Bool, true, false, not, ◌&&◌, ◌||◌, List, [], ◌∷◌, ◌++◌, Option, none, some,
  ltb, leb, ◌==◌, if◌then◌else◌, length, any, keep,
}
use ochakai.Common.Result.{Result, ok, err, ◌>>=◌, ◌>>◌, refuse}
use ochakai.Text.{Bytes, codes, ◌=?◌, has_prefix}
use ochakai.Domain.Actor.{Actor}
use ochakai.Domain.Segments.{concept_path}
use ochakai.Domain.Trust.{Verification, Entry, curated, status_deprecated}
use ochakai.Domain.Content.{Knowledge, Link, same_content}
use ochakai.Store.Verification.{max}

pub record Okf : Type 0 where
  pub canonical : Knowledge → Option Bytes
  pub document : Knowledge → Option Bytes
  pub parse : Bytes → Option Knowledge
  pub digest : Bytes → Bytes

-- A concept's row. The usage of the id outlives the row's deletion.
pub record Row : Type 0 where
  pub entry : Knowledge
  pub deleted : Bool
  pub last_failed_at : Option ℕ

-- A row of knowledge_revision; a file's has no id.
pub record Revision : Type 0 where
  pub path : Bytes
  pub id : Option Bytes
  pub rev : ℕ
  pub change : Bytes
  pub changed_by : Actor
  pub document : Bytes
  pub note : Bytes

-- A row of knowledge_purge.
pub record Purged : Type 0 where
  pub id : Bytes
  pub kind : Bytes
  pub title : Bytes
  pub revisions : ℕ
  pub purged_by : Actor

pub record Base : Type 0 where
  pub rows : List Row
  pub files : List Bytes
  pub revisions : List Revision
  pub purges : List Purged

pub data Failure : Type 0 where
  missing conflict already_exists curated_tombstone not_deleted unrenderable : Failure

-- What the rules of curation read of a concept.
abbrev pub rulings : Knowledge → Entry
rulings k = record { status = k.status; verifications = k.verifications }

-- notCurated
unfoldable pub not_curated : Knowledge → Bool
not_curated k = not (k.status =? status_deprecated) && not (any (λ _. true) k.verifications)

unfoldable pub find_row : Bytes → List Row → Option Row
find_row id [] = none
find_row id (r ∷ rs) = let rest = find_row id rs in if r.entry.id =? id then some r else rest

-- The row of an id written over, or a new row.
unfoldable pub put_row : Row → List Row → List Row
put_row row [] = row ∷ []
put_row row (r ∷ rs) =
    let rest = put_row row rs in if r.entry.id =? row.entry.id then row ∷ rs else r ∷ rest

unfoldable pub drop_row : Bytes → List Row → List Row
drop_row id rows = keep (λ r. not (r.entry.id =? id)) rows

-- getOneFrom, for a concept that is live or for a tombstone.
unfoldable pub get_one : Bool → Bytes → Base → Result Failure Row
unfolding find_row
get_one deleted id b = elim (find_row id b.rows) [
  | none ↦ err missing
  | some r ↦
      if r.deleted
      then (if deleted then ok r else err missing)
      else (if deleted then err missing else ok r)
]

-- COALESCE(MAX(rev), 0) of a path's revisions.
unfoldable pub max_rev : Bytes → List Revision → ℕ
max_rev path [] = 0
max_rev path (r ∷ rs) =
    let rest = max_rev path rs in if r.path =? path then max r.rev rest else rest

module _ (okf : Okf) where
  -- documentSays
  unfoldable pub document_says : Bytes → Knowledge → Bool
  document_says doc k = elim (okf.parse doc) [
    | none ↦ false
    | some d ↦ same_content (record d { id = k.id; links = k.links }) k
  ]

  -- storedDoc: the document and its hash.
  unfoldable pub stored_doc : Knowledge → Result Failure (Bytes × Bytes)
  unfolding document_says
  stored_doc k =
      let b = if not (k.doc =? []) && not (document_says k.doc k) then [] else k.doc in
      if b =? []
      then elim (okf.canonical k) [ none ↦ err unrenderable | some c ↦ ok (c, okf.digest c) ]
      else ok (b, okf.digest b)

  -- addRevision
  unfoldable pub add_revision : Knowledge → Bytes → Actor → Bytes → Base → Result Failure Base
  unfolding max_rev
  add_revision k change actor note b = elim (okf.document k) [
    | none ↦ err unrenderable
    | some doc ↦ ok (record b {
      revisions =
          b.revisions
          ++ record {
            path = concept_path k.id;
            id = some k.id;
            rev = max_rev (concept_path k.id) b.revisions + 1;
            change = change;
            changed_by = actor;
            document = doc;
            note = note;
          }
            ∷ [];
    })
  ]
