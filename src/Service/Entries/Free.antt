-- ===== src/Service/Entries/Free.antt =====
-- An id is free by the store's reading alone, and who refuses a payload.
use ochakai.Common.{
  ℕ, Bool, true, false, [], Option, none, some, ◌≡◌, refl, ap, subst, ◌⊎◌, inl, inr, arith,
  if◌then◌else◌,
}
use ochakai.Common.Result.{Result, ok, err, bind-eq-err}
use ochakai.Text.{Bytes, codes}
use ochakai.Domain.Actor.{Actor}
use ochakai.Domain.Content.{Knowledge}
use ochakai.Store.Entries.{
  Okf, Row, Base, Failure, missing, conflict, unrenderable, get_one, stored_doc, put_row,
  add_revision,
}
use ochakai.Store.Entries.Writes as Db
use ochakai.Store.Entries.Effects.{stamped, updated, updated_entry}
use ochakai.Service.Access.{Platform, Service, Fault, may_write}
use ochakai.Service.Curation.{Refusal, fault}
use ochakai.Service.Access.Policy.{check_writable}
use ochakai.Service.Entries.{
  Formats, Invalid, WriteError, failure, refusal, invalid, is_not_found, normalize_keys, validate,
}
use ochakai.Service.Entries.Settle.{
  in_store, in_scope, in_payload, prepare, settle_update, stale, beside,
}
use ochakai.Service.Entries.Requests.{is_free, rendered}

stored_doc-err :
    (okf : Okf) (k : Knowledge) {e : Failure} → stored_doc okf k ≡ err e → e ≡ unrenderable
unfolding stored_doc
stored_doc-err okf k h = ground arith

same_ok : {r : Result WriteError Knowledge} {x y : Knowledge} → r ≡ ok x → r ≡ ok y → x ≡ y
same_ok p q = cc

pub free-missing :
    (if_match : Option Bytes) (e : WriteError) → is_free if_match e ≡ true → is_not_found e ≡ true
free-missing none e h = h
free-missing (some _) e h = absurd (cc h)

module _ (pl : Platform) (f : Formats) (s : Service) (caller : Actor) where
  pub check_writable-loud :
      {e : WriteError} → in_scope (check_writable s.config) ≡ err e → is_not_found e ≡ false
  unfolding check_writable is_not_found
  check_writable-loud h = ground arith

  fresh-loud :
      (stale : Bool) {e : WriteError}
      → ◌≡◌ {A = Result WriteError (Unit {0})}
          (if stale then err (failure conflict) else ok tt)
          (err e)
      → is_not_found e ≡ false
  unfolding is_not_found
  fresh-loud true h = ground arith
  fresh-loud false h = absurd (cc h)

  stored-loud :
      (k : Knowledge) {e : WriteError}
      → in_store (stored_doc f.okf k) ≡ err e
      → is_not_found e ≡ false
  unfolding is_not_found
  stored-loud k {e} h = go (stored_doc f.okf k) refl h
    where
      go :
          (r : Result Failure (Bytes × Bytes))
          → stored_doc f.okf k ≡ r
          → in_store r ≡ err e
          → is_not_found e ≡ false
      go (ok d) q h = absurd (cc h)
      go (err d) q h = ground (arith, stored_doc-err f.okf k q)

  missing-row :
      (r : Result Failure Row) {e : WriteError}
      → in_store r ≡ err e
      → is_not_found e ≡ true
      → r ≡ err missing
  unfolding is_not_found
  missing-row (ok r) h free = absurd (cc h)
  missing-row (err d) h free = ground arith

  -- Only the store's reading says that an id is free.
  pub settle_update-free :
      (given : Knowledge) (if_match : Option Bytes) (b : Base) {k : Knowledge} {e : WriteError}
      → prepare pl f s caller given ≡ ok k
      → settle_update pl f s caller given if_match b ≡ err e
      → is_not_found e ≡ true
      → get_one false k.id b ≡ err missing
  unfolding settle_update
  settle_update-free given if_match b {k} {e} g h free =
      elim (bind-eq-err (in_scope (check_writable s.config)) _ h) [
        | inl h₁ ↦ absurd (ground (arith, check_writable-loud h₁))
        | inr (_, _, h₁) ↦ elim (bind-eq-err (prepare pl f s caller given) _ h₁) [
          | inl h₂ ↦ absurd (cc)
          | inr (k', p, h₂) ↦
              subst (λ (q : Knowledge). get_one false q.id b ≡ err missing) (same_ok p g)
                (elim (bind-eq-err (in_store (get_one false k'.id b)) _ h₂) [
                  | inl h₃ ↦ missing-row (get_one false k'.id b) h₃ free
                  | inr (r, _, h₃) ↦
                      elim (bind-eq-err
                        (if stale if_match r.entry then err (failure conflict) else ok tt) _ h₃) [
                          | inl h₄ ↦ absurd (ground (arith, fresh-loud (stale if_match r.entry) h₄))
                          | inr (_, _, h₄) ↦
                              elim (bind-eq-err (in_store (stored_doc f.okf (beside f k' r.entry)))
                                _ h₄) [
                                  | inl h₅ ↦
                                      absurd (ground (arith, stored-loud (beside f k' r.entry) h₅))
                                  | inr (_, _, h₅) ↦ absurd (cc h₅)
                                ]
                        ]
                ])
        ]
      ]

  live_row-loud :
      (id : Bytes) (if_match : Option Bytes) (b : Base) {e : Failure} {r : Row}
      → Db.live_row f.okf id if_match b ≡ err e
      → get_one false id b ≡ ok r
      → is_not_found (failure e) ≡ false
  unfolding Db.live_row is_not_found
  live_row-loud id if_match b {e} {r} h g = ground arith

  add_revision-loud :
      (k : Knowledge) (change : Bytes) (actor : Actor) (note : Bytes) (b : Base) {e : Failure}
      → add_revision f.okf k change actor note b ≡ err e
      → is_not_found (failure e) ≡ false
  unfolding add_revision is_not_found
  add_revision-loud k change actor note b h = ground arith

  -- The row that a settled update read is the row that its write hits.
  pub update-hits :
      (now : ℕ) (actor : Actor) (if_match : Option Bytes) (k : Knowledge) (b : Base) {e : Failure}
      {r : Row}
      → Db.update f.okf now actor if_match k b ≡ err e
      → get_one false k.id b ≡ ok r
      → is_not_found (failure e) ≡ false
  unfolding Db.update updated updated_entry
  update-hits now actor if_match k b h g =
      elim (bind-eq-err (stored_doc f.okf (stamped now k)) _ h) [
        | inl h₁ ↦ stored-loud (stamped now k) (ap in_store h₁)
        | inr (made, _, h₁) ↦ elim (bind-eq-err (Db.live_row f.okf k.id if_match b) _ h₁) [
          | inl h₂ ↦ live_row-loud k.id if_match b h₂ g
          | inr (r, _, h₂) ↦
              elim (bind-eq-err
                (add_revision f.okf (updated_entry now k made.0 made.1 r) (codes "update") actor []
                  (record b { rows = put_row (updated now k made.0 made.1 r) b.rows }))
                _ h₂) [
                  | inl h₃ ↦
                      add_revision-loud (updated_entry now k made.0 made.1 r) (codes "update") actor
                        [] (record b { rows = put_row (updated now k made.0 made.1 r) b.rows }) h₃
                  | inr (_, _, h₃) ↦ absurd (cc h₃)
                ]
        ]
      ]

  pub rendered-ok :
      (k : Knowledge) {doc hash : Bytes}
      → stored_doc f.okf k ≡ ok (doc, hash)
      → rendered pl f s caller k ≡ ok (record k { doc = doc; content_hash = hash })
  unfolding rendered
  rendered-ok k h = rw (h, rendered) refl

  -- Who refuses a payload: the access rules, or the checks of the payload.
  pub refused_by :
      (given : Knowledge) {d : WriteError}
      → prepare pl f s caller given ≡ err d
      → ((z : Refusal) × (d ≡ refusal z)) ⊎ ((z : Invalid) × (d ≡ invalid z))
  unfolding prepare
  refused_by given {d} h =
      elim (bind-eq-err (in_scope (may_write pl s caller (f.nfc given.id))) _ h) [
        | inl e ↦ inl (by_scope (may_write pl s caller (f.nfc given.id)) e)
        | inr (_, _, h₁) ↦
            elim (bind-eq-err (in_payload (validate f (normalize_keys f given))) _ h₁) [
              | inl e ↦ inr (by_payload (validate f (normalize_keys f given)) e)
              | inr (_, _, h₂) ↦ absurd (cc h₂)
            ]
      ]
    where
      by_scope :
          (r : Result Fault (Unit {0})) → in_scope r ≡ err d → (z : Refusal) × (d ≡ refusal z)
      by_scope (ok _) e = absurd (cc e)
      by_scope (err z) e = (fault z, cc)

      by_payload :
          (r : Result Invalid (Unit {0})) → in_payload r ≡ err d → (z : Invalid) × (d ≡ invalid z)
      by_payload (ok _) e = absurd (cc e)
      by_payload (err z) e = (z, cc)
