-- ===== src/Store/Entries/Reach.antt =====
-- The writes as steps of the store, at any clocks, and what every sequence of them keeps.
use ochakai.Common.{
  ℕ, Bool, true, false, not, List, [], ◌∷◌, ◌++◌, Option, none, some, ◌≡◌, refl, sym, subst, ap,
  ◌∙◌, inl, inr, arith, any, keep, All, length, length-append, ◌+◌,
}
use ochakai.Common.Result.{ok}
use ochakai.Text.{Bytes, codes, ◌=?◌, has_prefix, bytes_discrete}
use ochakai.Domain.Actor.{Actor}
use ochakai.Domain.Segments.{concept_path}
use ochakai.Domain.Content.{Knowledge}
use ochakai.Store.Verification.{verify_time}
use ochakai.Store.Verification.Timeline.{verify_time-newest}
use ochakai.Store.Verification.Ledger.{Ascends, Ascends-append}
use ochakai.Store.Entries.{Okf, Row, Base, find_row, drop_row}
use ochakai.Store.Entries.Rows.{
  keep-Keyed, All-find_row, All-keep, find_row-id, find_row-drop_row, find_row-drop_row_other,
}
use ochakai.Store.Entries.History.{Numbered-keep, last_change-outlives}
use ochakai.Store.Entries.Writes.{
  timeline, create, update, verify, soft_delete, purge, outlives, revisions_of,
}
use ochakai.Store.Entries.Effects.{verify-Verified, vouched, update-Updated, updated}
use ochakai.Store.Entries.Effects.Births.{Vacant, create-Created, soft_delete-Deleted}
use ochakai.Store.Entries.Invariants.{IsApart, Explained, Sound, Wrote-Sound}

module _ (okf : Okf) where
  pub data Step : Base → Base → Type 0 where
    creates :
        (now : ℕ) (keep_curated : Bool) (given : Knowledge) {b b' : Base} {k : Knowledge}
        → create okf now keep_curated given b ≡ ok (b', k)
        → Step b b'
    updates :
        (now : ℕ) (actor : Actor) (if_match : Option Bytes) (given : Knowledge) {b b' : Base}
        {k : Knowledge}
        → update okf now actor if_match given b ≡ ok (b', k)
        → Step b b'
    verifies :
        (now : ℕ) (actor : Actor) (id : Bytes) {b b' : Base} {k : Knowledge}
        → verify okf now actor id b ≡ ok (b', k)
        → Step b b'
    deletes :
        (now : ℕ) (actor : Actor) (if_match : Option Bytes) (note id : Bytes) {b b' : Base}
        → soft_delete okf now actor if_match note id b ≡ ok b'
        → Step b b'
    purges : (actor : Actor) (id : Bytes) {b b' : Base} → purge actor id b ≡ ok b' → Step b b'

  pub data Reaches (start : Base) : Base → Type 0 where
    here : Reaches start start
    there : {b b' : Base} → Reaches start b → Step b b' → Reaches start b'

  found-IsApart :
      {b : Base} (id : Bytes) {r : Row} → Sound b → find_row id b.rows ≡ some r → IsApart b.files id
  found-IsApart {b} id s found =
      subst (IsApart b.files) (find_row-id id b.rows found)
        (All-find_row (λ r. IsApart b.files r.entry.id) id b.rows s.apart found)

  Vacant-IsApart :
      {b : Base} (keep_curated : Bool) (id : Bytes)
      → Sound b
      → Vacant keep_curated id b
      → IsApart b.files id
  Vacant-IsApart keep_curated id s (inl (_, apart)) = apart
  Vacant-IsApart keep_curated id s (inr (old, found, _, _)) = found-IsApart id s found

  found-Ascends :
      {b : Base} (id : Bytes) {r : Row}
      → Sound b
      → find_row id b.rows ≡ some r
      → Ascends r.entry.verifications
  found-Ascends {b} id s found =
      All-find_row (λ r. Ascends r.entry.verifications) id b.rows s.ledgers found

  any-keep :
      (p q : Bytes → Bool) (files : List Bytes) → any p files ≡ false → any p (keep q files) ≡ false
  any-keep p q [] h = refl
  any-keep p q (f ∷ fs) h = ground (arith, any-keep p q fs)

  All-IsApart :
      (files : List Bytes) (q : Bytes → Bool) (rows : List Row)
      → All (λ r. IsApart files r.entry.id) rows
      → All (λ r. IsApart (keep q files) r.entry.id) rows
  All-IsApart files q [] a = tt
  All-IsApart files q (r ∷ rs) (h, a) =
      (any-keep (λ p. p =? concept_path r.entry.id) q files h, All-IsApart files q rs a)

  create-Sound :
      (now : ℕ) (keep_curated : Bool) (given : Knowledge) {b b' : Base} {k : Knowledge}
      → create okf now keep_curated given b ≡ ok (b', k)
      → Sound b
      → Sound b'
  unfolding bytes_discrete
  create-Sound now keep_curated given {b} {k = k} h s =
      let c = create-Created okf now keep_curated given b h in
      Wrote-Sound c.wrote
        (subst (IsApart b.files) (sym (ap (λ q. q.id) c.answer))
          (Vacant-IsApart keep_curated given.id s c.vacant))
        (subst Ascends (sym (ap (λ q. q.verifications) c.answer)) tt) refl s

  update-Sound :
      (now : ℕ) (actor : Actor) (if_match : Option Bytes) (given : Knowledge) {b b' : Base}
      {k : Knowledge}
      → update okf now actor if_match given b ≡ ok (b', k)
      → Sound b
      → Sound b'
  unfolding updated bytes_discrete
  update-Sound now actor if_match given {b} h s =
      let u = update-Updated okf now actor if_match given b h in
      Wrote-Sound u.wrote (found-IsApart given.id s u.found) (found-Ascends given.id s u.found)
        (sym u.is_live) s

  verify-Sound :
      (now : ℕ) (actor : Actor) (id : Bytes) {b b' : Base} {k : Knowledge}
      → verify okf now actor id b ≡ ok (b', k)
      → Sound b
      → Sound b'
  unfolding vouched bytes_discrete
  verify-Sound now actor id {b} h s =
      let v = verify-Verified okf now actor id b h in
      Wrote-Sound v.wrote
        (subst (IsApart b.files) (sym (find_row-id id b.rows v.found)) (found-IsApart id s v.found))
        (Ascends-append v.row.entry.verifications
          (record { by = actor; at = verify_time now (timeline v.row) })
          (found-Ascends id s v.found) (verify_time-newest now (timeline v.row)))
        (sym v.is_live) s

  delete-Sound :
      (now : ℕ) (actor : Actor) (if_match : Option Bytes) (note id : Bytes) {b b' : Base}
      → soft_delete okf now actor if_match note id b ≡ ok b'
      → Sound b
      → Sound b'
  unfolding bytes_discrete
  delete-Sound now actor if_match note id {b} h s =
      let d = soft_delete-Deleted okf now actor if_match note id b h in
      Wrote-Sound d.wrote
        (subst (IsApart b.files) (sym (find_row-id id b.rows d.found)) (found-IsApart id s d.found))
        (found-Ascends id s d.found) (ground arith) s

  abbrev pub Purging : Bytes → Base → Base → Type 0
  Purging id b b' =
      (b'.rows ≡ drop_row id b.rows)
      × (b'.files ≡ keep (λ p. not (has_prefix p (id ++ codes "/"))) b.files)
      × (b'.revisions ≡ keep (outlives id) b.revisions)
      × (length b'.purges ≡ length b.purges + 1)
      × (r : Row) × (find_row id b.rows ≡ some r)
      × (r.deleted ≡ true)

  -- A purge takes a tombstone, its revisions and the files under it.
  pub purge-lem :
      (actor : Actor) (id : Bytes) (b : Base) {b' : Base}
      → purge actor id b ≡ ok b'
      → Purging id b b'
  unfolding purge
  purge-lem actor id b {b'} h = go (find_row id b.rows) refl
    where
      go : (found : Option Row) → find_row id b.rows ≡ found → Purging id b b'
      go none e = absurd (ground arith)
      go (some r) e = (
        ground arith,
        ground arith,
        ground arith,
        ground (
          arith,
          length-append b.purges (
              record {
                id = id;
                kind = r.entry.kind;
                title = r.entry.title;
                revisions = length (revisions_of id b.revisions);
                purged_by = actor;
              }
              ∷ []),
        ),
        r,
        e,
        ground arith,
      )

  purge-Sound :
      (actor : Actor) (id : Bytes) {b b' : Base} → purge actor id b ≡ ok b' → Sound b → Sound b'
  unfolding drop_row
  purge-Sound actor id {b} {b'} h s =
      let e = purge-lem actor id b h in
      record {
        keyed = rw (e.0) (keep-Keyed (λ r. not (r.entry.id =? id)) b.rows s.keyed);
        apart =
            rw (e.0, e.1)
              (All-keep (λ r. IsApart (keep outside b.files) r.entry.id)
                (λ r. not (r.entry.id =? id)) b.rows (All-IsApart b.files outside b.rows s.apart));
        ledgers = rw (e.0) (
            All-keep (λ r. Ascends r.entry.verifications) (λ r. not (r.entry.id =? id)) b.rows
              s.ledgers);
        numbered = rw (e.2) (Numbered-keep (outlives id) b.revisions s.numbered);
        explained = explained e;
      }
    where
      outside : Bytes → Bool
      outside p = not (has_prefix p (id ++ codes "/"))

      explained :
          Purging id b b'
          → (other : Bytes) {r : Row} → find_row other b'.rows ≡ some r
          → Explained b'.revisions other r
      explained e other {r} g = elim (bytes_discrete other id) [
        | yes same ↦ absurd (ground (arith, find_row-drop_row id b.rows, e.0, same))
        | no ne ↦
            let (c, last, d) = s.explained other {r = r} (
              sym (find_row-drop_row_other id other b.rows ne)
              ∙ ap (find_row other) (sym e.0)
              ∙ g) in
            (c, rw (e.2) (last_change-outlives id other b.revisions ne ∙ last), d)
      ]

  Step-Sound : {b b' : Base} → Step b b' → Sound b → Sound b'
  Step-Sound (creates now keep_curated given h) = create-Sound now keep_curated given h
  Step-Sound (updates now actor if_match given h) = update-Sound now actor if_match given h
  Step-Sound (verifies now actor id h) = verify-Sound now actor id h
  Step-Sound (deletes now actor if_match note id h) = delete-Sound now actor if_match note id h
  Step-Sound (purges actor id h) = purge-Sound actor id h

  -- Whatever creates, updates, verifications, deletions and purges follow one another, at whatever
  -- clocks, from a store that is sound: each id keeps at most one row, no concept shares its path with
  -- a file, each ledger stays in the order of its times, the revisions of a path keep ascending numbers,
  -- and the last change recorded of each concept tells whether it is a tombstone.
  pub Reaches-Sound : {start b : Base} → Sound start → Reaches start b → Sound b
  Reaches-Sound s here = s
  Reaches-Sound s (there p step) = Step-Sound step (Reaches-Sound s p)
