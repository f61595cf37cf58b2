-- ===== src/Store/Entries/Kept.antt =====
-- What the writes leave alone: the history so far, and what the timeline of a row is held to.
use ochakai.Common.{
  ◌<◌, List, [], ◌∷◌, ◌++◌, append_assoc, append-nil, some, ◌≡◌, ◌≢◌, refl, sym, ap, ◌∙◌, ◌⊎◌, inl,
  inr, arith, if◌then◌else◌, length,
}
use ochakai.Common.Result.{ok}
use ochakai.Text.{Bytes, ◌=?◌}
use ochakai.Domain.Actor.{Actor}
use ochakai.Store.Entries.{Okf, Row, Revision, Base, find_row}
use ochakai.Store.Entries.Rows.{find_row-put_row, find_row-put_row_other}
use ochakai.Store.Entries.Writes.{purge}
use ochakai.Store.Entries.Effects.{Wrote, verify-Verified, update-Updated}
use ochakai.Store.Entries.Effects.Births.{create-Created, soft_delete-Deleted}
use ochakai.Store.Entries.Reach.{
  Step, creates, updates, verifies, deletes, purges, Reaches, here, there, purge-lem,
}

-- The history has grown at its end, or a purge is on record that was not there.
abbrev pub Grows : Base → Base → Type 0
Grows start b =
    ((more : List Revision) × (b.revisions ≡ start.revisions ++ more) × (b.purges ≡ start.purges))
    ⊎ (length start.purges < length b.purges)

-- One revision more, or a purge on record.
abbrev pub Continues : Base → Base → Type 0
Continues b b' =
    ((v : Revision) × (b'.revisions ≡ b.revisions ++ v ∷ []) × (b'.purges ≡ b.purges))
    ⊎ (length b.purges < length b'.purges)

pub Wrote-Continues :
    {row : Row} {change : Bytes} {actor : Actor} {b b' : Base}
    → Wrote row change actor b b'
    → Continues b b'
Wrote-Continues w = inl (w.revision, w.revisions, w.purges)

pub Wrote-found :
    {row : Row} {change : Bytes} {actor : Actor} {b b' : Base}
    → Wrote row change actor b b'
    → find_row row.entry.id b'.rows ≡ some row
Wrote-found {row} {b = b} w = ap (find_row row.entry.id) w.rows ∙ find_row-put_row row b.rows

pub Wrote-others :
    {row : Row} {change : Bytes} {actor : Actor} {b b' : Base}
    → Wrote row change actor b b'
    → (other : Bytes) → other ≢ row.entry.id
    → find_row other b'.rows ≡ find_row other b.rows
Wrote-others {row} {b = b} w other ne =
    ap (find_row other) w.rows ∙ find_row-put_row_other row other b.rows ne

-- The rows after a write.
pub Wrote-rows :
    {row : Row} {change : Bytes} {actor : Actor} {b b' : Base}
    → Wrote row change actor b b'
    → (other : Bytes)
    → find_row other b'.rows ≡ (if other =? row.entry.id then some row else find_row other b.rows)
Wrote-rows {row} w other = ground (arith, Wrote-found w, Wrote-others w other)

module _ (okf : Okf) where
  purge-Continues :
      (actor : Actor) (id : Bytes) (b b' : Base) → purge actor id b ≡ ok b' → Continues b b'
  purge-Continues actor id b b' h =
      let (_, _, _, n, _, _, _) = purge-lem okf actor id b h in inr (omega (arith, n))

  Step-Continues : {b b' : Base} → Step okf b b' → Continues b b'
  Step-Continues (creates now keep_curated given {b} h) =
      Wrote-Continues (create-Created okf now keep_curated given b h).wrote
  Step-Continues (updates now actor if_match given {b} h) =
      Wrote-Continues (update-Updated okf now actor if_match given b h).wrote
  Step-Continues (verifies now actor id {b} h) =
      Wrote-Continues (verify-Verified okf now actor id b h).wrote
  Step-Continues (deletes now actor if_match note id {b} h) =
      Wrote-Continues (soft_delete-Deleted okf now actor if_match note id b h).wrote
  Step-Continues (purges actor id {b} {b'} h) = purge-Continues actor id b b' h

  -- However the writes follow one another, the history only grows at its end, unless a purge is on
  -- record that was not there before.
  pub Reaches-history : {start b : Base} → Reaches okf start b → Grows start b
  Reaches-history {start} here = inl ([], sym (append-nil start.revisions), refl)
  Reaches-history {start} (there {b = c} {b' = d} p s) =
      after c d (Reaches-history p) (Step-Continues s)
    where
      after :
          (b b' : Base)
          → (((more : List Revision) × (b.revisions ≡ start.revisions ++ more)
                × (b.purges ≡ start.purges))
              ⊎ (length start.purges < length b.purges))
          → Continues b b'
          → ((more : List Revision) × (b'.revisions ≡ start.revisions ++ more)
              × (b'.purges ≡ start.purges))
            ⊎ (length start.purges < length b'.purges)
      after b b' (inl (more, e, q)) (inl (v, f, r)) = inl (
        more ++ v ∷ [],
        f ∙ ap (λ l. l ++ v ∷ []) e ∙ append_assoc start.revisions more (v ∷ []),
        r ∙ q,
      )
      after b b' (inl (more, e, q)) (inr lt) = inr (ground (arith, q))
      after b b' (inr lt) (inl (v, f, r)) = inr (ground (arith, r))
      after b b' (inr lt) (inr gt) = inr (omega arith)
