-- ===== src/Service/Entries/Writes.antt =====
-- internal/service/service.go: Create, Update, Put, Plan, Delete, Verify and Purge. A clock is an
-- argument where one is read, and `Windows` is what other connections do between two statements of
-- the operation. Embeddings, blobs and the log are left out.
use ochakai.Common.{ℕ, Bool, true, false, not, Option, none, some, if◌then◌else◌}
use ochakai.Common.Result.{Result, ok, err}
use ochakai.Common.Exec.{Exec, ◌>>=◌, ◌>>◌, pure, raise, lift, gets, others, transaction}
use ochakai.Text.{Bytes}
use ochakai.Domain.Actor.{Actor}
use ochakai.Domain.Trust.{lifecycle_of}
use ochakai.Domain.Content.{Knowledge}
use ochakai.Store.Entries.{Base, curated_tombstone, find_row, rulings}
use ochakai.Store.Entries.Writes as Db
use ochakai.Service.Access.{Platform, Service, Fault}
use ochakai.Service.Access.Policy.{check_writable}
use ochakai.Service.Curation.{Slot, free, live, tombstone, refuse_if_reviving_curated}
use ochakai.Service.Entries.Settle.{
  in_store, in_scope, in_curation, Settled, prepare, settle_update, sign,
}
use ochakai.Service.Entries.{Formats, WriteError, failure}

abbrev pub Action : Type 0 → Type 0
Action A = Exec Base WriteError A

pub record Windows : Type 0 where
  pub in_update : Base → Base
  pub before_create : Base → Base
  pub before_retry : Base → Base
  pub in_retry : Base → Base

-- Nobody else writes.
abbrev pub alone : Windows
alone = record {
  in_update = λ b. b;
  before_create = λ b. b;
  before_retry = λ b. b;
  in_retry = λ b. b;
}

pub record Written : Type 0 where
  pub entry : Knowledge
  pub created : Bool
  pub changed : Bool

module _ (pl : Platform) (f : Formats) (s : Service) (caller : Actor) where
  -- Update, from the settled update on.
  unfoldable pub update_settled :
      (Base → Base) → ℕ → Actor → Option Bytes → Settled → Action Written
  unfolding sign
  update_settled window now actor if_match u =
      if not u.changed
      then pure (record { entry = u.old; created = false; changed = false })
      else (do
        others window
        k ← transaction (λ b. in_store (Db.update f.okf now actor if_match (sign now actor u) b))
        pure (record { entry = k; created = false; changed = true }))

  -- Update
  unfoldable pub update : (Base → Base) → ℕ → Actor → Option Bytes → Knowledge → Action Written
  unfolding settle_update update_settled
  update window now actor if_match given = do
    u ← gets (settle_update pl f s caller given if_match)
    update_settled window now actor if_match u

  -- create
  unfoldable pub create_checked : ℕ → Actor → Bool → Knowledge → Action Knowledge
  unfolding prepare
  create_checked now actor keep_curated given = do
    k ← lift (prepare pl f s caller given)
    transaction (λ b. in_store (
        Db.create f.okf now keep_curated
          (record k { status = lifecycle_of k.status; created_by = actor; updated_by = actor }) b))

  -- Create
  unfoldable pub create : ℕ → Actor → Knowledge → Action Knowledge
  unfolding create_checked
  create now actor given = do
    lift (in_scope (check_writable s.config))
    create_checked now actor false given

  -- What RefuseIfRevivingCurated reads at an id.
  unfoldable pub slot_at : Base → Bytes → Result Fault Slot
  unfolding find_row
  slot_at b id = elim (find_row id b.rows) [
    | none ↦ ok free
    | some r ↦
        if r.deleted
        then ok (tombstone (rulings r.entry))
        else ok (live (rulings r.entry) r.entry.content_hash)
  ]

  abbrev pub guard_revival : Bytes → Base → Result WriteError (Unit {0})
  guard_revival id b = in_curation (refuse_if_reviving_curated pl s caller (slot_at b) id)

  -- The second reading of the guard, after the store has refused.
  unfoldable pub explain : Bytes → WriteError → Action Knowledge
  unfolding slot_at
  explain id (failure curated_tombstone) = do
    gets (guard_revival id)
    raise (failure curated_tombstone)
  explain id e = raise e

  unfoldable pub recover :
      Bytes → Base × Result WriteError Knowledge → Base × Result WriteError Knowledge
  unfolding explain
  recover id (b, ok k) = (b, ok k)
  recover id (b, err e) = explain id e b

  -- CreateKeepingCurated; the sentence that explains an id that is taken is left out.
  unfoldable pub create_keeping_curated : (Base → Base) → ℕ → Actor → Knowledge → Action Knowledge
  unfolding slot_at create_checked recover
  create_keeping_curated window now actor given = do
    lift (in_scope (check_writable s.config))
    gets (guard_revival given.id)
    others window
    λ b. recover given.id (create_checked now actor true given b)
