-- ===== src/Service/Entries/Settle.antt =====
-- internal/service/service.go: settleUpdate, what an update decides before it writes, and the checks
-- of a payload that come before the store is read.
use ochakai.Common.{ℕ, Bool, false, not, Option, none, some, if◌then◌else◌}
use ochakai.Common.Result.{Result, ok, err, ◌>>=◌, ◌>>◌}
use ochakai.Text.{Bytes, ◌=?◌}
use ochakai.Domain.Actor.{Actor}
use ochakai.Domain.Trust.{lifecycle_of}
use ochakai.Domain.Content.{Knowledge, same_content}
use ochakai.Store.Entries.{Base, Failure, conflict, get_one, stored_doc}
use ochakai.Service.Access.{Platform, Service, Fault, may_write}
use ochakai.Service.Access.Policy.{check_writable}
use ochakai.Service.Curation.{Refusal, fault}
use ochakai.Service.Entries.{
  Formats, Invalid, WriteError, failure, refusal, invalid, validate, normalize_keys, derive_links,
  drop_claim,
}

-- The kinds of errors, and the store's own.
abbrev pub in_store {ℓ} : {A : Type ℓ} → Result Failure A → Result WriteError A
in_store (ok a) = ok a
in_store (err e) = err (failure e)

abbrev pub in_scope {ℓ} : {A : Type ℓ} → Result Fault A → Result WriteError A
in_scope (ok a) = ok a
in_scope (err e) = err (refusal (fault e))

abbrev pub in_curation {ℓ} : {A : Type ℓ} → Result Refusal A → Result WriteError A
in_curation (ok a) = ok a
in_curation (err e) = err (refusal e)

abbrev pub in_payload {ℓ} : {A : Type ℓ} → Result Invalid A → Result WriteError A
in_payload (ok a) = ok a
in_payload (err e) = err (invalid e)

-- An update that has been settled: the row to be, the row that is, and whether they differ.
pub record Settled : Type 0 where
  pub next : Knowledge
  pub old : Knowledge
  pub changed : Bool

abbrev pub stale : Option Bytes → Knowledge → Bool
stale none old = false
stale (some hash) old = not (old.content_hash =? hash)

-- What a payload becomes beside the concept that is there.
unfoldable pub beside : Formats → Knowledge → Knowledge → Knowledge
unfolding drop_claim
beside f given old =
    let k = if f.is_observation given old then drop_claim f given else given in
    record k {
      status = lifecycle_of k.status;
      created_by = old.created_by;
      created_at = old.created_at;
      verifications = old.verifications;
    }

-- Who an update stands by, and since when.
unfoldable pub sign : ℕ → Actor → Settled → Knowledge
sign now actor u =
    if same_content u.next u.old
    then record u.next {
      updated_by = u.old.updated_by;
      content_changed_at = u.old.content_changed_at;
    }
    else record u.next { updated_by = actor; content_changed_at = now }

-- The checks of a payload that come before the store is read.
module _ (pl : Platform) (f : Formats) (s : Service) (caller : Actor) where
  unfoldable pub prepare : Knowledge → Result WriteError Knowledge
  prepare given = do
    in_scope (may_write pl s caller (f.nfc given.id))
    let k = normalize_keys f given
    in_payload (validate f k)
    ok (derive_links f k)

  -- settleUpdate
  unfoldable pub settle_update : Knowledge → Option Bytes → Base → Result WriteError Settled
  unfolding prepare beside
  settle_update given if_match b = do
    in_scope (check_writable s.config)
    k ← prepare given
    r ← in_store (get_one false k.id b)
    if stale if_match r.entry then err (failure conflict) else ok tt
    let next = beside f k r.entry
    (doc, hash) ← in_store (stored_doc f.okf next)
    ok (record { next = next; old = r.entry; changed = not (doc =? r.entry.doc) })
