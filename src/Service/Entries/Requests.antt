-- ===== src/Service/Entries/Requests.antt =====
-- internal/service/service.go: Put, Plan, Delete, Verify and Purge, over the writes beside this file.
use ochakai.Common.{ℕ, Bool, true, false, not, Option, none, some, ltb, ◌==◌, if◌then◌else◌, length}
use ochakai.Common.Result.{Result, ok, err, refuse}
use ochakai.Common.Exec.{◌>>=◌, ◌>>◌, pure, lift, gets, others, transaction}
use ochakai.Text.{Bytes, ◌=?◌}
use ochakai.Domain.Actor.{Actor}
use ochakai.Domain.Trust.{lifecycle_of, status_draft}
use ochakai.Domain.Content.{Knowledge}
use ochakai.Store.Entries.{Base, unrenderable, already_exists, get_one, stored_doc}
use ochakai.Store.Entries.Writes as Db
use ochakai.Service.Access.{Platform, Service, may_write}
use ochakai.Service.Access.Policy.{check_writable}
use ochakai.Service.Entries.{Formats, long_note, WriteError, failure, is_not_found}
use ochakai.Service.Entries.Settle.{
  in_store, in_scope, in_payload, Settled, prepare, settle_update, sign,
}
use ochakai.Service.Entries.Writes.{Action, Windows, Written, update, create}

abbrev pub max_rejection_note : ℕ
max_rejection_note = 2000

abbrev pub is_free : Option Bytes → WriteError → Bool
is_free none e = is_not_found e
is_free (some _) e = false

module _ (pl : Platform) (f : Formats) (s : Service) (caller : Actor) where
  abbrev pub checked_write : Bytes → Result WriteError (Unit {0})
  checked_write id = elim (in_scope (check_writable s.config)) [
    | err e ↦ err e
    | ok _ ↦ in_scope (may_write pl s caller id)
  ]

  -- The payload as the checks leave it.
  unfoldable pub prepared : Knowledge → Knowledge
  prepared given = elim (prepare pl f s caller given) [ err _ ↦ given | ok k ↦ k ]

  -- The payload as the store's statements leave it, which may still miss the row.
  unfoldable pub composed : Knowledge → Knowledge
  composed k = elim (stored_doc f.okf k) [
    | err _ ↦ k
    | ok (doc, hash) ↦ record k { doc = doc; content_hash = hash }
  ]

  -- The payload as an update that found nothing leaves it.
  unfoldable pub after_update : ℕ → Actor → Option Bytes → Knowledge → Base → Knowledge
  unfolding prepared composed
  after_update now actor if_match given b = elim (settle_update pl f s caller given if_match b) [
    | err _ ↦ prepared given
    | ok u ↦
        let k = sign now actor u in
        composed (record k {
          updated_at = now;
          content_changed_at = if k.content_changed_at == 0 then now else k.content_changed_at;
        })
  ]

  -- The payload as a create whose id was taken leaves it.
  unfoldable pub after_create : ℕ → Actor → Knowledge → Knowledge
  unfolding prepared composed
  after_create now actor given =
      let k = prepared given in
      composed (record k {
        status = lifecycle_of k.status;
        created_by = actor;
        updated_by = actor;
        created_at = now;
        updated_at = now;
        content_changed_at = now;
      })

  -- Put, from the answer of its create on.
  unfoldable pub put_created :
      Windows
      → ℕ
      → Actor
      → Knowledge
      → Base × Result WriteError Knowledge
      → Base × Result WriteError Written
  unfolding after_create
  put_created w now actor given (b, ok k) =
      (b, ok (record { entry = k; created = true; changed = true }))
  put_created w now actor given (b, err (failure already_exists)) =
      update pl f s caller w.in_retry now actor none (after_create now actor given)
        (w.before_retry b)
  put_created w now actor given (b, err e) = (b, err e)

  -- Put, from the answer of its update on; `left` is the payload as that left it.
  unfoldable pub put_updated :
      Windows
      → ℕ
      → Actor
      → Option Bytes
      → Knowledge
      → Base × Result WriteError Written
      → Base × Result WriteError Written
  unfolding put_created
  put_updated w now actor if_match left (b, ok out) = (b, ok out)
  put_updated w now actor if_match left (b, err e) =
      let made =
        put_created w now actor left (create pl f s caller now actor left (w.before_create b)) in
      if is_free if_match e then made else (b, err e)

  -- Put
  unfoldable pub put : Windows → ℕ → Actor → Option Bytes → Knowledge → Action Written
  unfolding after_update put_updated
  put w now actor if_match given b =
      put_updated w now actor if_match (after_update now actor if_match given b)
        (update pl f s caller w.in_update now actor if_match given b)

  -- The document that a concept would be stored as.
  unfoldable pub rendered : Knowledge → Result WriteError Knowledge
  rendered k = elim (in_store (stored_doc f.okf k)) [
    | err e ↦ err e
    | ok (doc, hash) ↦ ok (record k { doc = doc; content_hash = hash })
  ]

  -- What a create would store.
  abbrev pub planned_create : ℕ → Actor → Knowledge → Knowledge
  planned_create now actor k = record k {
    status = lifecycle_of k.status;
    created_by = actor;
    updated_by = actor;
    created_at = now;
    updated_at = now;
    content_changed_at = now;
  }

  abbrev pub answered : Bool → Result WriteError Knowledge → Result WriteError Written
  answered created (err e) = err e
  answered created (ok k) = ok (record { entry = k; created = created; changed = true })

  -- What Plan makes of the settled update; `left` is the payload as settleUpdate left it.
  unfoldable pub plan_settled :
      ℕ → Actor → Option Bytes → Knowledge → Result WriteError Settled → Result WriteError Written
  unfolding rendered sign
  plan_settled now actor if_match left (ok u) =
      if not u.changed
      then ok (record { entry = u.old; created = false; changed = false })
      else answered false (rendered (record (sign now actor u) { updated_at = now }))
  plan_settled now actor if_match left (err e) =
      if is_free if_match e then answered true (rendered (planned_create now actor left)) else err e

  -- Service.Plan
  unfoldable pub plan : ℕ → Actor → Option Bytes → Knowledge → Base → Result WriteError Written
  unfolding prepared plan_settled
  plan now actor if_match given b = elim (in_scope (may_write pl s caller (f.nfc given.id))) [
    | err e ↦ err e
    | ok _ ↦
        plan_settled now actor if_match (prepared given)
          (settle_update pl f s caller given if_match b)
  ]

  -- Delete
  unfoldable pub delete : ℕ → Actor → Option Bytes → Bytes → Bytes → Action (Unit {0})
  delete now actor if_match note id = do
    lift (in_scope (check_writable s.config))
    lift (in_payload (refuse (ltb max_rejection_note (length note)) long_note))
    lift (in_scope (may_write pl s caller (f.nfc id)))
    transaction (λ b. elim (in_store (Db.soft_delete f.okf now actor if_match note (f.nfc id) b)) [
      | err e ↦ err e
      | ok b' ↦ ok (b', tt)
    ])

  -- The draft with its status set, read back from its document.
  unfoldable pub published : Bytes → Knowledge → Result WriteError Knowledge
  published id cur = elim (in_store (stored_doc f.okf cur)) [
    | err e ↦ err e
    | ok (doc, _) ↦ elim (f.set_stable doc) [
      | none ↦ err (failure unrenderable)
      | some out ↦ elim (f.okf.parse out) [
        | none ↦ err (failure unrenderable)
        | some k ↦ ok (record k { id = id })
      ]
    ]
  ]

  -- publishDraft
  unfoldable pub publish_draft :
      (Base → Base) → (Base → Base) → ℕ → Actor → Bytes → Action (Unit {0})
  unfolding published
  publish_draft window in_update now actor id = do
    cur ← gets (λ b. in_store (get_one false id b))
    if not (lifecycle_of cur.entry.status =? status_draft) then pure tt else (do
      k ← lift (published id cur.entry)
      others window
      _ ← update pl f s caller in_update now actor (some cur.entry.content_hash) k
      pure tt)

  -- Verify, at the application's clock and the database's.
  unfoldable pub verify : Windows → ℕ → ℕ → Actor → Bytes → Action Knowledge
  unfolding publish_draft
  verify w now db_now actor id = do
    lift (in_scope (check_writable s.config))
    lift (in_scope (may_write pl s caller (f.nfc id)))
    publish_draft w.before_create w.in_update now actor (f.nfc id)
    others w.before_retry
    transaction (λ b. in_store (Db.verify f.okf db_now actor (f.nfc id) b))

  -- Purge
  unfoldable pub purge : Actor → Bytes → Action (Unit {0})
  purge actor id = do
    lift (in_scope (check_writable s.config))
    lift (in_scope (may_write pl s caller (f.nfc id)))
    transaction
        (λ b. elim (in_store (Db.purge actor (f.nfc id) b)) [ err e ↦ err e | ok b' ↦ ok (b', tt) ])
