-- ===== src/Service/Entries/Rulings.antt =====
-- A create on a surface without a precondition writes over no ruling.
use ochakai.Common.{
  ℕ, true, false, not, ◌&&◌, List, [], ◌∷◌, none, some, ◌≡◌, refl, ap, subst, ◌∙◌, ◌⊎◌, inl, inr,
  arith, if◌then◌else◌, any,
}
use ochakai.Common.Result.{Result, ok, err}
use ochakai.Common.Exec.{lift-bind-ok}
use ochakai.Text.{Bytes, ◌=?◌}
use ochakai.Domain.Actor.{Actor}
use ochakai.Domain.Trust.{Verification, ruling, curated, status_deprecated}
use ochakai.Domain.Content.{Knowledge}
use ochakai.Store.Entries.{
  Row, Base, curated_tombstone, missing, conflict, already_exists, not_deleted, unrenderable,
  find_row, not_curated, rulings,
}
use ochakai.Store.Entries.Effects.Births.{Vacant, Created, create-Created, born}
use ochakai.Store.Entries.Kept.{Wrote-rows}
use ochakai.Service.Access.{Platform, Service}
use ochakai.Service.Access.Policy.{check_writable}
use ochakai.Service.Entries.{
  Formats, WriteError, failure, refusal, invalid, normalize_keys, derive_links,
}
use ochakai.Service.Entries.Settle.{in_scope, prepare}
use ochakai.Service.Entries.Writes.{
  create_checked, guard_revival, explain, recover, create_keeping_curated,
}
use ochakai.Service.Entries.Overwrites.{prepare-lem}
use ochakai.Service.Entries.Creates.{authored, create_checked-ok}

-- The condition in the statement is the domain's: what it lets through has no ruling on it.
not_curated-curated : (k : Knowledge) → not_curated k ≡ true → curated (rulings k) ≡ false
unfolding not_curated curated
not_curated-curated k h = go k.verifications h
  where
    go :
        (vs : List Verification)
        → (not (k.status =? status_deprecated) && not (any (λ _. true) vs)) ≡ true
        → curated (record { status = k.status; verifications = vs }) ≡ false
    go [] e = unfold curated ruling in ground arith
    go (v ∷ vs) e = absurd (ground arith)

-- Nothing but a tombstone without a ruling was at the id, and the concept that is there now carries no
-- verification.
abbrev pub Spares : Bytes → Base → Base → Knowledge → Type 0
Spares id b b' k =
    ((find_row id b.rows ≡ none)
      ⊎ ((old : Row) × (find_row id b.rows ≡ some old)
          × (old.deleted ≡ true)
          × (curated (rulings old.entry) ≡ false)))
    × (k.verifications ≡ [])
    × ((other : Bytes)
        → find_row other b'.rows ≡ (if other =? id then some (born k b) else find_row other b.rows))

module _ (pl : Platform) (f : Formats) (s : Service) (caller : Actor) where
  explain-fails :
      (id : Bytes) (e : WriteError) (b : Base) {b' : Base} {k : Knowledge}
      → explain pl f s caller id e b ≡ (b', ok k)
      → ⊥
  unfolding explain
  explain-fails id (failure curated_tombstone) b h =
      let (_, _, h₁) = lift-bind-ok (guard_revival pl f s caller id b) _ b h in cc h₁
  explain-fails id (failure missing) b h = cc h
  explain-fails id (failure conflict) b h = cc h
  explain-fails id (failure already_exists) b h = cc h
  explain-fails id (failure not_deleted) b h = cc h
  explain-fails id (failure unrenderable) b h = cc h
  explain-fails id (refusal _) b h = cc h
  explain-fails id (invalid _) b h = cc h

  recover-ok :
      (id : Bytes) (r : Base × Result WriteError Knowledge) {b' : Base} {k : Knowledge}
      → recover pl f s caller id r ≡ (b', ok k)
      → r ≡ (b', ok k)
  unfolding recover
  recover-ok id (b, ok k) h = h
  recover-ok id (b, err e) h = absurd (explain-fails id e b h)

  kept-Created :
      (window : Base → Base) (now : ℕ) (actor : Actor) (given : Knowledge) (b : Base) {b' : Base}
      {k : Knowledge}
      → create_keeping_curated pl f s caller window now actor given b ≡ (b', ok k)
      → (p : Knowledge) × (prepare pl f s caller given ≡ ok p)
        × Created f.okf now true (authored actor p) (window b) b' k
  unfolding create_keeping_curated
  kept-Created window now actor given b h =
      let (_, _, h₁) = lift-bind-ok (in_scope (check_writable s.config)) _ b h in
      let (_, _, h₂) = lift-bind-ok (guard_revival pl f s caller given.id b) _ b h₁ in
      let (p, e, made) =
        create_checked-ok pl f s caller now actor true given (window b)
          (recover-ok given.id (create_checked pl f s caller now actor true given (window b)) h₂) in
      (p, e, create-Created f.okf now true (authored actor p) (window b) made)

  unruled :
      (id : Bytes) (b : Base)
      → Vacant true id b
      → (find_row id b.rows ≡ none)
        ⊎ ((old : Row) × (find_row id b.rows ≡ some old)
            × (old.deleted ≡ true)
            × (curated (rulings old.entry) ≡ false))
  unruled id b (inl (e, _)) = inl e
  unruled id b (inr (old, e, d, clear)) =
      inr (old, e, d, not_curated-curated old.entry (clear refl))

  -- A create of the surfaces without a precondition, whatever others write between its guard and its
  -- write: where it answers, the id had no row when it wrote, or a tombstone that no ruling stands on; the
  -- concept it leaves carries no verification, and every other row is as the others left it.
  pub create_keeping_curated-Spares :
      (window : Base → Base) (now : ℕ) (actor : Actor) (given : Knowledge) (b : Base) {b' : Base}
      {k : Knowledge}
      → create_keeping_curated pl f s caller window now actor given b ≡ (b', ok k)
      → Spares (f.nfc given.id) (window b) b' k
  unfolding normalize_keys derive_links
  create_keeping_curated-Spares window now actor given b {b'} {k} h =
      let (p, e, c) = kept-Created window now actor given b h in
      let (_, _, q) = prepare-lem pl f s caller given e in
      let i = ap (λ (x : Knowledge). x.id) q in
      (
        subst
            (λ j.
              (find_row j (window b).rows ≡ none)
              ⊎ ((old : Row) × (find_row j (window b).rows ≡ some old)
                  × (old.deleted ≡ true)
                  × (curated (rulings old.entry) ≡ false)))
            i (unruled p.id (window b) c.vacant),
        ap (λ (x : Knowledge). x.verifications) c.answer,
        (λ other.
            subst
              (λ j.
                find_row other b'.rows
                ≡ (if other =? j then some (born k (window b)) else find_row other (window b).rows))
              (ap (λ (x : Knowledge). x.id) c.answer ∙ i) (Wrote-rows c.wrote other)),
      )
