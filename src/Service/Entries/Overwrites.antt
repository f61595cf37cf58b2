-- ===== src/Service/Entries/Overwrites.antt =====
-- No update is lost under a precondition, and what an update does to the trust in a concept.
use ochakai.Common.{
  ℕ, ◌+◌, ◌<◌, Bool, true, false, [], ◌∷◌, ◌++◌, Option, some, ◌≡◌, refl, sym, ap, subst, ◌∙◌, ◌⊎◌,
  inl, inr, arith, ◌==◌, if◌then◌else◌,
}
use ochakai.Common.Result.{ok, bind-eq-ok}
use ochakai.Text.{Bytes, ◌=?◌, =?_iff}
use ochakai.Domain.Actor.{Actor}
use ochakai.Domain.Segments.{concept_path}
use ochakai.Domain.Trust.{Trust, unverified}
use ochakai.Domain.Content.{Knowledge, same_content}
use ochakai.Store.Verification.Tiers.{row_trust}
use ochakai.Store.Verification.Timeline.{change_content-trust}
use ochakai.Store.Entries.{Row, Revision, Base, find_row, get_one, max_rev}
use ochakai.Store.Entries.Writes.{timeline}
use ochakai.Store.Entries.Effects.{updated, updated_entry, stamped, get_one-live}
use ochakai.Store.Entries.Kept.{Wrote-found, Wrote-rows}
use ochakai.Store.Entries.Timelines.{updated-change_content}
use ochakai.Service.Access.{Platform, Service, may_write}
use ochakai.Service.Entries.{Formats, normalize_keys, derive_links, drop_claim, validate}
use ochakai.Service.Entries.Settle.{in_scope, in_payload, Settled, prepare, beside, sign}
use ochakai.Service.Entries.Writes.{Written, update}
use ochakai.Service.Entries.Updates.{Settling, Quiet, Loud, Outcome, update-Outcome}

-- One live row, of the hash that was asked for, gives way to another under its id, and the history has
-- one revision more.
abbrev pub Overwrites : Bytes → Actor → Bytes → Base → Base → Bytes → Type 0
Overwrites id actor hash b b' hash' =
    (r : Row) × (find_row id b.rows ≡ some r)
    × (r.deleted ≡ false)
    × (r.entry.content_hash ≡ hash)
    × (r' : Row) × (r'.entry.content_hash ≡ hash')
    × ((other : Bytes)
        → find_row other b'.rows ≡ (if other =? id then some r' else find_row other b.rows))
    × (v : Revision) × (b'.revisions ≡ b.revisions ++ v ∷ [])
    × (v.rev ≡ max_rev (concept_path id) b.revisions + 1)
    × (v.changed_by ≡ actor)

-- The row that an id has now keeps the tier of the row that it had, if it says the same.
abbrev pub Retrusts : Bytes → Row → Base → Bytes → Type 0
Retrusts id r b' hash =
    (r' : Row) × (find_row id b'.rows ≡ some r')
    × (r'.entry.content_hash ≡ hash)
    × (row_trust (timeline r')
        ≡ (if same_content r'.entry r.entry then row_trust (timeline r) else unverified))

some-inj : {q r : Row} → ◌≡◌ {A = Option Row} (some q) (some r) → q ≡ r
some-inj e = cc e

kept :
    {at : ℕ} (same : Bool) (old now : ℕ) (t : Trust)
    → at ≡ (if same then old else now)
    → old < now
    → (if old == at then t else unverified) ≡ (if same then t else unverified)
kept true old now t e lt = ground arith
kept false old now t e lt = ground arith

module _ (pl : Platform) (f : Formats) (s : Service) (caller : Actor) where
  pub prepare-lem :
      (given : Knowledge) {k : Knowledge}
      → prepare pl f s caller given ≡ ok k
      → (in_scope (may_write pl s caller (f.nfc given.id)) ≡ ok tt)
        × (in_payload (validate f (normalize_keys f given)) ≡ ok tt)
        × (k ≡ derive_links f (normalize_keys f given))
  unfolding prepare
  prepare-lem given h =
      let (_, w, h₁) = bind-eq-ok (in_scope (may_write pl s caller (f.nfc given.id))) _ h in
      let (_, v, h₂) = bind-eq-ok (in_payload (validate f (normalize_keys f given))) _ h₁ in
      (w, v, ground arith)

  pub Settling-id :
      {given : Knowledge} {if_match : Option Bytes} {b : Base} {u : Settled}
      → Settling pl f s caller given if_match b u
      → (u.next.id ≡ f.nfc given.id)
        × (r : Row) × (get_one false (f.nfc given.id) b ≡ ok r)
        × (u.old ≡ r.entry)
  unfolding beside drop_claim normalize_keys derive_links
  Settling-id {given} {b = b} h =
      let (_, _, k) = prepare-lem given h.checked in
      let i = ap (λ q. q.id) k in
      (ground (arith, h.next, i), h.row, subst (λ j. get_one false j b ≡ ok h.row) i h.read, h.old)

  pub sign-id : (now : ℕ) (actor : Actor) (u : Settled) → (sign now actor u).id ≡ u.next.id
  unfolding sign
  sign-id now actor u = ground arith

  pub signed-at :
      (now : ℕ) (actor : Actor) (u : Settled)
      → 0 < u.old.content_changed_at
      → 0 < now
      → (stamped now (sign now actor u)).content_changed_at
        ≡ (if same_content u.next u.old then u.old.content_changed_at else now)
  unfolding sign
  signed-at now actor u past later = ground arith

  signed-content :
      (now : ℕ) (actor : Actor) (u : Settled) (doc hash : Bytes) (r : Row) (k : Knowledge)
      → same_content (updated now (sign now actor u) doc hash r).entry k ≡ same_content u.next k
  unfolding sign updated updated_entry same_content
  signed-content now actor u doc hash r k = go (same_content u.next u.old)
    where
      go :
          (b : Bool)
          → same_content
              (updated now
                (if b
                  then record u.next {
                    updated_by = u.old.updated_by;
                    content_changed_at = u.old.content_changed_at;
                  }
                  else record u.next { updated_by = actor; content_changed_at = now })
                doc
                hash
                r).entry
              k
            ≡ same_content u.next k
      go true = refl
      go false = refl

  old-row :
      {given : Knowledge} {if_match : Option Bytes} {b : Base} {u : Settled} {r : Row}
      → Settling pl f s caller given if_match b u
      → find_row (f.nfc given.id) b.rows ≡ some r
      → u.old ≡ r.entry
  old-row {given} {b = b} h found =
      let (_, q, read, old) = Settling-id h in
      old
      ∙ ap (λ x. x.entry) (some-inj (sym ((get_one-live f.okf (f.nfc given.id) b read).0) ∙ found))

  module _ (window : Base → Base) (now : ℕ) (actor : Actor) (given : Knowledge) (b : Base)
      {b' : Base} {out : Written} where
    outcome :
        (if_match : Option Bytes)
        → update pl f s caller window now actor if_match given b ≡ (b', ok out)
        → ((b' ≡ b) × Quiet pl f s caller given if_match b out)
          ⊎ Loud pl f s caller window now actor if_match given b b' out
    outcome if_match h =
        subst (Outcome pl f s caller window now actor if_match given b) h
          (update-Outcome pl f s caller window now actor if_match given b)

    loud :
        (if_match : Option Bytes)
        → update pl f s caller window now actor if_match given b ≡ (b', ok out)
        → out.changed ≡ true
        → Loud pl f s caller window now actor if_match given b b' out
    loud if_match h c = elim (outcome if_match h) [
      | inl (_, q) ↦ absurd (ground (arith, c, q.answer))
      | inr l ↦ l
    ]

    -- Under a precondition no write is lost, whatever others write between the reading and the writing:
    -- an update that answers that it changed the concept found a live row of that very hash when it
    -- wrote, put the row of its answer there and left every other, and appended one revision, the
    -- next in the numbers of the concept's path and signed by the actor.
    pub update-keeps_writes :
        (hash : Bytes)
        → update pl f s caller window now actor (some hash) given b ≡ (b', ok out)
        → out.changed ≡ true
        → Overwrites (f.nfc given.id) actor hash (window b) b' out.entry.content_hash
    unfolding updated updated_entry
    update-keeps_writes hash h c =
        let l = loud (some hash) h c in
        let u = l.stored in
        let id = sign-id now actor l.settled ∙ (Settling-id l.rests).0 in
        (
          u.row,
          ap (λ j. find_row j (window b).rows) (sym id) ∙ u.found,
          u.is_live,
          (=?_iff u.row.entry.content_hash hash).0 u.matched,
          updated now (sign now actor l.settled) u.doc u.hash u.row,
          sym (ap (λ k. k.content_hash) u.answer),
          (λ other.
              subst
                (λ j. find_row other b'.rows ≡ (
                  if other =? j
                  then some (updated now (sign now actor l.settled) u.doc u.hash u.row)
                  else find_row other (window b).rows))
                id (Wrote-rows u.wrote other)),
          u.wrote.revision,
          u.wrote.revisions,
          u.wrote.rev ∙ ap (λ j. max_rev (concept_path j) (window b).revisions + 1) id,
          u.wrote.by,
        )

    -- What an update makes of the trust in a concept that others leave alone meanwhile: a document that
    -- says the same keeps the tier, and one that says anything else leaves the concept unverified.
    pub update-trust :
        (if_match : Option Bytes) (r : Row)
        → update pl f s caller window now actor if_match given b ≡ (b', ok out)
        → out.changed ≡ true
        → find_row (f.nfc given.id) b.rows ≡ some r
        → find_row (f.nfc given.id) (window b).rows ≡ some r
        → 0 < r.entry.content_changed_at
        → r.entry.content_changed_at < now
        → Retrusts (f.nfc given.id) r b' out.entry.content_hash
    unfolding updated updated_entry
    update-trust if_match r h c before meanwhile past later =
        let l = loud if_match h c in
        let u = l.stored in
        let id = sign-id now actor l.settled ∙ (Settling-id l.rests).0 in
        let r' = updated now (sign now actor l.settled) u.doc u.hash u.row in
        let is_r : u.row ≡ r =
          some-inj (sym u.found ∙ ap (λ j. find_row j (window b).rows) id ∙ meanwhile) in
        let was_r : l.settled.old ≡ r.entry = old-row l.rests before in
        (
          r',
          ap (λ j. find_row j b'.rows) (sym id) ∙ Wrote-found u.wrote,
          sym (ap (λ k. k.content_hash) u.answer),
          ap row_trust (updated-change_content now (sign now actor l.settled) u.doc u.hash u.row)
              ∙ change_content-trust (stamped now (sign now actor l.settled)).content_changed_at
                  (timeline u.row)
              ∙ ap
                  (λ q.
                    if q.entry.content_changed_at
                      == (stamped now (sign now actor l.settled)).content_changed_at
                    then row_trust (timeline q)
                    else unverified)
                  is_r
              ∙ kept (same_content l.settled.next r.entry) r.entry.content_changed_at now
                  (row_trust (timeline r))
                  (subst
                    (λ o.
                      (stamped now (sign now actor l.settled)).content_changed_at
                      ≡ (if same_content l.settled.next o then o.content_changed_at else now))
                    was_r
                    (signed-at now actor l.settled
                      (subst (λ o. 0 < o.content_changed_at) (sym was_r) past) (omega arith)))
                  later
              ∙ ap (λ x. if x then row_trust (timeline r) else unverified)
                  (sym (signed-content now actor l.settled u.doc u.hash u.row r.entry)),
        )
