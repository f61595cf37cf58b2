-- ===== src/Store/Entries/Invariants.antt =====
-- What every sequence of writes keeps true of the store.
use ochakai.Common.{◌+◌, false, List, some, ◌≡◌, sym, ap, ◌∙◌, arith, any, All}
use ochakai.Text.{Bytes, ◌=?◌, bytes_discrete}
use ochakai.Domain.Actor.{Actor}
use ochakai.Domain.Segments.{concept_path}
use ochakai.Store.Verification.Ledger.{Ascends}
use ochakai.Store.Entries.{Row, Revision, Base, find_row, max_rev}
use ochakai.Store.Entries.Rows.{
  Keyed, put_row-Keyed, All-put_row, find_row-put_row, find_row-put_row_other,
}
use ochakai.Store.Entries.History.{
  Numbered, Numbered-next, last_change, last_change-next, last_change-other, buries,
}
use ochakai.Store.Entries.Effects.{Wrote}

-- No file stands at the concept's path.
abbrev pub IsApart : List Bytes → Bytes → Type 0
IsApart files id = any (λ p. p =? concept_path id) files ≡ false

-- The last change of the concept left a tombstone exactly if its row is one.
abbrev pub Explained : List Revision → Bytes → Row → Type 0
Explained revisions id r =
    (c : Bytes) × (last_change id revisions ≡ some c) × (buries c ≡ r.deleted)

pub record Sound (b : Base) : Type 0 where
  pub keyed : Keyed b.rows
  pub apart : All (λ r. IsApart b.files r.entry.id) b.rows
  pub ledgers : All (λ r. Ascends r.entry.verifications) b.rows
  pub numbered : Numbered b.revisions
  pub explained : (id : Bytes) {r : Row} → find_row id b.rows ≡ some r → Explained b.revisions id r

-- A write keeps the store sound whose row is apart from the files, has its verifications in order
-- and is a tombstone if the change buries it.
pub Wrote-Sound :
    {row : Row} {change : Bytes} {actor : Actor} {b b' : Base}
    → Wrote row change actor b b'
    → IsApart b.files row.entry.id
    → Ascends row.entry.verifications
    → buries change ≡ row.deleted
    → Sound b
    → Sound b'
Wrote-Sound {row} {change} {actor} {b} {b'} w apart ledger told s = record {
  keyed = rw (w.rows) (put_row-Keyed row b.rows s.keyed);
  apart =
      rw (w.rows, w.files) (All-put_row (λ r. IsApart b.files r.entry.id) row b.rows apart s.apart);
  ledgers =
      rw (w.rows) (All-put_row (λ r. Ascends r.entry.verifications) row b.rows ledger s.ledgers);
  numbered = rw (w.revisions) (
      Numbered-next b.revisions w.revision s.numbered
        (w.rev ∙ ap (λ p. max_rev p b.revisions + 1) (sym w.path)));
  explained = explained;
}
  where
    explained : (id : Bytes) {r : Row} → find_row id b'.rows ≡ some r → Explained b'.revisions id r
    explained id {r} h = elim (bytes_discrete id row.entry.id) [
      | yes e ↦ (
        w.revision.change,
        rw (w.revisions)
            (last_change-next id b.revisions w.revision (w.owner ∙ ap (λ i. some i) (sym e))),
        (ap buries w.kind ∙ told ∙ ground (arith, find_row-put_row row b.rows, w.rows, e, h)),
      )
      | no ne ↦
          let (c, last, d) =
            s.explained id {r = r}
              (sym (find_row-put_row_other row id b.rows ne) ∙ ap (find_row id) (sym w.rows) ∙ h) in
          (c, rw (w.revisions) (last_change-other id b.revisions w.revision w.owner ne ∙ last), d)
    ]
