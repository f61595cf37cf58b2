-- ===== src/Store/Entries/Effects/Births.antt =====
-- What a create and a deletion that succeed leave.
use ochakai.Common.{
  ℕ, Bool, true, false, [], Option, none, some, ◌≡◌, refl, subst, ◌⊎◌, inl, inr, arith,
  if◌then◌else◌, any,
}
use ochakai.Common.Result.{ok, bind-eq-ok}
use ochakai.Text.{Bytes, codes, ◌=?◌}
use ochakai.Domain.Actor.{Actor}
use ochakai.Domain.Segments.{concept_path}
use ochakai.Domain.Content.{Knowledge}
use ochakai.Store.Entries.{
  Okf, Row, Base, not_curated, find_row, put_row, get_one, stored_doc, add_revision,
}
use ochakai.Store.Entries.Writes.{upsert, create, matches, live_row, soft_delete}
use ochakai.Store.Entries.Effects.{Wrote, written-Wrote, get_one-live, live_row-hits}

-- Nothing stands at an id: no row and no file, or a tombstone that may be written over.
abbrev pub Vacant : Bool → Bytes → Base → Type 0
Vacant keep_curated id b =
    ((find_row id b.rows ≡ none) × (any (λ p. p =? concept_path id) b.files ≡ false))
    ⊎ ((old : Row) × (find_row id b.rows ≡ some old)
        × (old.deleted ≡ true)
        × (keep_curated ≡ true → not_curated old.entry ≡ true))

-- The time of the last failure that an id's row carries.
abbrev pub failed_at : Option Row → Option ℕ
failed_at none = none
failed_at (some r) = r.last_failed_at

abbrev pub born : Knowledge → Base → Row
born k b = record { entry = k; deleted = false; last_failed_at = failed_at (find_row k.id b.rows) }

abbrev pub buried : ℕ → Row → Row
buried now r = record r { entry = record r.entry { updated_at = now }; deleted = true }

abbrev pub burial : Bytes → Bytes
burial note = if note =? [] then codes "delete" else codes "reject"

module _ (okf : Okf) where
  pub upsert-Vacant :
      (keep_curated : Bool) (k : Knowledge) (b : Base) {row : Row}
      → upsert okf keep_curated k b ≡ ok row
      → Vacant keep_curated k.id b × (row ≡ born k b)
  unfolding upsert
  upsert-Vacant keep_curated k b {row} h = go (find_row k.id b.rows) refl
    where
      go :
          (found : Option Row)
          → find_row k.id b.rows ≡ found
          → Vacant keep_curated k.id b × (row ≡ born k b)
      go none e = (inl (e, ground arith), ground arith)
      go (some old) e = (inr (old, e, ground arith, (λ kc. ground arith)), ground arith)

  pub record Created (now : ℕ) (keep_curated : Bool) (given : Knowledge) (b b' : Base)
      (k : Knowledge) : Type 0 where
    pub doc : Bytes
    pub hash : Bytes
    pub vacant : Vacant keep_curated given.id b
    pub stored :
        stored_doc okf
          (record given { created_at = now; updated_at = now; content_changed_at = now })
        ≡ ok (doc, hash)
    pub answer : k ≡ record given {
      created_at = now;
      updated_at = now;
      content_changed_at = now;
      doc = doc;
      content_hash = hash;
      verifications = [];
    }
    pub wrote : Wrote (born k b) (codes "create") given.created_by b b'

  pub create-Created :
      (now : ℕ) (keep_curated : Bool) (given : Knowledge) (b : Base) {b' : Base} {k : Knowledge}
      → create okf now keep_curated given b ≡ ok (b', k)
      → Created now keep_curated given b b' k
  unfolding create
  create-Created now keep_curated given b {b'} {k} h =
      let at = record given { created_at = now; updated_at = now; content_changed_at = now } in
      let (made, stored, h₁) = bind-eq-ok (stored_doc okf at) _ h in
      let full = record at { doc = made.0; content_hash = made.1 } in
      let (row, put, h₂) = bind-eq-ok (upsert okf keep_curated full b) _ h₁ in
      let entry = record full { verifications = [] } in
      let (b₁, added, h₃) =
        bind-eq-ok
          (add_revision okf entry (codes "create") given.created_by []
            (record b { rows = put_row (record row { entry = entry }) b.rows }))
          _ h₂ in
      record {
        doc = made.0;
        hash = made.1;
        vacant = (upsert-Vacant keep_curated full b put).0;
        stored = stored;
        answer = ground arith;
        wrote =
            subst (λ q. Wrote q (codes "create") given.created_by b b')
              (ground (arith, (upsert-Vacant keep_curated full b put).1))
              (subst
                (λ c. Wrote (record row { entry = entry }) (codes "create") given.created_by b c)
                (ground arith)
                (written-Wrote okf (record row { entry = entry }) entry (codes "create")
                  given.created_by [] b refl added));
      }

  pub record Deleted (now : ℕ) (actor : Actor) (if_match : Option Bytes) (note id : Bytes)
      (b b' : Base) : Type 0 where
    pub row : Row
    pub found : find_row id b.rows ≡ some row
    pub is_live : row.deleted ≡ false
    pub matched : matches if_match row ≡ true
    pub wrote : Wrote (buried now row) (burial note) actor b b'

  pub soft_delete-Deleted :
      (now : ℕ) (actor : Actor) (if_match : Option Bytes) (note id : Bytes) (b : Base) {b' : Base}
      → soft_delete okf now actor if_match note id b ≡ ok b'
      → Deleted now actor if_match note id b b'
  unfolding soft_delete
  soft_delete-Deleted now actor if_match note id b {b'} h =
      let (k, got₀, h₁) = bind-eq-ok (get_one false id b) _ h in
      let (r, got, added) = bind-eq-ok (live_row okf id if_match b) _ h₁ in
      let hit = live_row-hits okf id if_match b got in
      record {
        row = r;
        found = hit.0;
        is_live = hit.1;
        matched = hit.2;
        wrote =
            written-Wrote okf (buried now r) k.entry (burial note) actor note b
              (ground (arith, hit.0, get_one-live okf id b got₀)) added;
      }
