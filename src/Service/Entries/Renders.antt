-- ===== src/Service/Entries/Renders.antt =====
-- What a put rests on where documents render: the store's writes answer, and who may write is told of a
-- missing concept by the store alone.
use ochakai.Common.{ℕ, true, false, [], Option, none, some, ◌≡◌, sym, ap, ◌∙◌, inl, inr, arith}
use ochakai.Common.Result.{Result, ok, err, bind-eq-err, ◌>>=◌}
use ochakai.Text.{Bytes, codes}
use ochakai.Domain.Actor.{Actor}
use ochakai.Domain.Content.{Knowledge}
use ochakai.Store.Entries.{
  Okf, Row, Base, Failure, missing, get_one, put_row, stored_doc, add_revision,
}
use ochakai.Store.Entries.Writes as Db
use ochakai.Store.Entries.Effects.{stamped, updated, updated_entry}
use ochakai.Store.Entries.Invariants.{IsApart}
use ochakai.Service.Access.{Platform, Service, may_write}
use ochakai.Service.Access.Policy.{check_writable}
use ochakai.Service.Entries.{
  Formats, WriteError, Invalid, is_not_found, normalize_keys, derive_links, validate, validate_okf,
}
use ochakai.Service.Entries.Settle.{in_scope, in_payload, prepare, settle_update, stale}
use ochakai.Service.Entries.Overwrites.{prepare-lem}
use ochakai.Service.Entries.Free.{settle_update-free, check_writable-loud}

-- Every concept can be written as a document.
pub record Renders (okf : Okf) : Type 0 where
  pub canonical : (k : Knowledge) → (c : Bytes) × (okf.canonical k ≡ some c)
  pub document : (k : Knowledge) → (d : Bytes) × (okf.document k ≡ some d)

module _ (okf : Okf) (renders : Renders okf) where
  stored_doc-renders : (k : Knowledge) {e : Failure} → stored_doc okf k ≡ err e → ⊥
  unfolding stored_doc
  stored_doc-renders k h = let (c, q) = renders.canonical k in ground (arith, q)

  add_revision-renders :
      (k : Knowledge) (change : Bytes) (actor : Actor) (note : Bytes) (b : Base) {e : Failure}
      → add_revision okf k change actor note b ≡ err e
      → ⊥
  unfolding add_revision
  add_revision-renders k change actor note b h =
      let (d, q) = renders.document k in ground (arith, q)

  live_row-fresh :
      (id : Bytes) (if_match : Option Bytes) (b : Base) {r : Row} {e : Failure}
      → get_one false id b ≡ ok r
      → stale if_match r.entry ≡ false
      → Db.live_row okf id if_match b ≡ err e
      → ⊥
  unfolding Db.live_row
  live_row-fresh id none b g t h = ground arith
  live_row-fresh id (some hash) b g t h = ground arith

  -- The store's update of a live concept whose hash is the one that was asked for.
  pub update-renders :
      (now : ℕ) (actor : Actor) (if_match : Option Bytes) (k : Knowledge) (b : Base) {r : Row}
      {e : Failure}
      → get_one false k.id b ≡ ok r
      → stale if_match r.entry ≡ false
      → Db.update okf now actor if_match k b ≡ err e
      → ⊥
  unfolding Db.update updated updated_entry
  update-renders now actor if_match k b g t h =
      elim (bind-eq-err (stored_doc okf (stamped now k)) _ h) [
        | inl h₁ ↦ stored_doc-renders (stamped now k) h₁
        | inr (made, _, h₁) ↦ elim (bind-eq-err (Db.live_row okf k.id if_match b) _ h₁) [
          | inl h₂ ↦ live_row-fresh k.id if_match b g t h₂
          | inr (r, _, h₂) ↦
              elim (bind-eq-err
                (add_revision okf (updated_entry now k made.0 made.1 r) (codes "update") actor []
                  (record b { rows = put_row (updated now k made.0 made.1 r) b.rows }))
                _ h₂) [
                  | inl h₃ ↦
                      add_revision-renders (updated_entry now k made.0 made.1 r) (codes "update")
                        actor []
                        (record b { rows = put_row (updated now k made.0 made.1 r) b.rows }) h₃
                  | inr (_, _, h₃) ↦ absurd (cc h₃)
                ]
        ]
      ]

  upsert-free :
      (k : Knowledge) (b : Base) {e : Failure}
      → get_one false k.id b ≡ err missing
      → IsApart b.files k.id
      → Db.upsert okf false k b ≡ err e
      → ⊥
  unfolding Db.upsert get_one
  upsert-free k b g apart h = ground arith

  -- The store's create at a free id that no file stands at.
  pub create-renders :
      (now : ℕ) (k : Knowledge) (b : Base) {e : Failure}
      → get_one false k.id b ≡ err missing
      → IsApart b.files k.id
      → Db.create okf now false k b ≡ err e
      → ⊥
  unfolding Db.create
  create-renders now k b g apart h =
      elim (bind-eq-err
        (stored_doc okf (record k { created_at = now; updated_at = now; content_changed_at = now }))
        _ h) [
          | inl h₁ ↦ stored_doc-renders _ h₁
          | inr (made, _, h₁) ↦ elim (bind-eq-err (Db.upsert okf false _ b) _ h₁) [
            | inl h₂ ↦ upsert-free _ b g apart h₂
            | inr (row, _, h₂) ↦
                elim (bind-eq-err (add_revision okf _ (codes "create") _ [] _) _ h₂) [
                  | inl h₃ ↦ add_revision-renders _ (codes "create") _ [] _ h₃
                  | inr (_, _, h₃) ↦ absurd (cc h₃)
                ]
          ]
        ]

module _ (pl : Platform) (f : Formats) (s : Service) (caller : Actor) where
  module _ (given : Knowledge)
      (steady : normalize_keys f (normalize_keys f given) ≡ normalize_keys f given) where
    -- A payload that the checks have passed passes them again.
    pub prepared_twice :
        {p : Knowledge} → prepare pl f s caller given ≡ ok p → prepare pl f s caller p ≡ ok p
    unfolding prepare normalize_keys derive_links validate validate_okf
    prepared_twice h =
        let (w, v, e) = prepare-lem pl f s caller given h in
        ap (prepare pl f s caller) e ∙ ap checked steady ∙ passes w v ∙ ap ok (sym e)
      where
        checked : Knowledge → Result WriteError Knowledge
        checked x = in_scope (may_write pl s caller x.id) >>= λ _.
            in_payload (validate f x) >>= λ _. ok (derive_links f x)

        passes :
            in_scope (may_write pl s caller (f.nfc given.id)) ≡ ok tt
            → in_payload (validate f (normalize_keys f given)) ≡ ok tt
            → checked (normalize_keys f given) ≡ ok (derive_links f (normalize_keys f given))
        passes w v = ground (arith, w, v)

  -- The checks of a payload say nothing of a missing concept to who may write there.
  prepare-loud :
      (given : Knowledge) {e : WriteError}
      → in_scope (may_write pl s caller (f.nfc given.id)) ≡ ok tt
      → prepare pl f s caller given ≡ err e
      → is_not_found e ≡ false
  unfolding prepare is_not_found
  prepare-loud given w h =
      elim (bind-eq-err (in_scope (may_write pl s caller (f.nfc given.id))) _ h) [
        | inl h₁ ↦ absurd (cc)
        | inr (_, _, h₁) ↦
            elim (bind-eq-err (in_payload (validate f (normalize_keys f given))) _ h₁) [
              | inl h₂ ↦ by_payload (validate f (normalize_keys f given)) h₂
              | inr (_, _, h₂) ↦ absurd (cc h₂)
            ]
      ]
    where
      by_payload :
          {e : WriteError} (r : Result Invalid (Unit {0}))
          → in_payload r ≡ err e
          → is_not_found e ≡ false
      by_payload (ok _) q = absurd (cc q)
      by_payload (err z) q = ground arith

  -- What an update that found no concept was given.
  pub settled_free :
      (given : Knowledge) (if_match : Option Bytes) (b : Base) {e : WriteError}
      → in_scope (may_write pl s caller (f.nfc given.id)) ≡ ok tt
      → settle_update pl f s caller given if_match b ≡ err e
      → is_not_found e ≡ true
      → (in_scope (check_writable s.config) ≡ ok tt)
        × (k : Knowledge) × (prepare pl f s caller given ≡ ok k)
        × (get_one false k.id b ≡ err missing)
  unfolding settle_update
  settled_free given if_match b {e} allowed h free =
      elim (bind-eq-err (in_scope (check_writable s.config)) _ h) [
        | inl h₁ ↦ absurd (ground (arith, check_writable-loud pl f s caller h₁))
        | inr (_, w, h₁) ↦ elim (bind-eq-err (prepare pl f s caller given) _ h₁) [
          | inl h₂ ↦ absurd (ground (arith, prepare-loud given allowed h₂))
          | inr (k, p, _) ↦ (w, k, p, settle_update-free pl f s caller given if_match b p h free)
        ]
      ]
