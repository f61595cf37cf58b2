-- ===== src/Service/Curation.antt =====
-- internal/service/service.go: the guards of the surfaces that carry no precondition, which must not
-- replace what somebody ruled on. `slots` is what the store holds at an id, or its error.
pub mod Guards
use ochakai.Common.{Bool, true, false}
use ochakai.Common.Result.{Result, ok, err, ◌>>=◌, ◌>>◌}
use ochakai.Text.{Bytes}
use ochakai.Domain.Actor.{Actor}
use ochakai.Domain.Trust.{Entry, Ruling, no_ruling, ruling_verified, ruling_deprecated, ruling}
use ochakai.Service.Access.{Platform, Service, Fault, not_found, may_write}

-- A concept that is there, with its content hash, and one that was deleted.
pub data Slot : Type 0 where
  free : Slot
  live : Entry → Bytes → Slot
  tombstone : Entry → Slot

pub data Refusal : Type 0 where
  fault : Fault → Refusal
  ruling_stands : Bytes → Bytes → Ruling → Refusal
  would_revive : Bytes → Ruling → Refusal

unfoldable pub lift {ℓ} : {A : Type ℓ} → Result Fault A → Result Refusal A
lift (ok a) = ok a
lift (err e) = err (fault e)

-- Store.Get, which reads what is live.
unfoldable pub get : Result Fault Slot → Result Fault (Entry × Bytes)
get (err e) = err e
get (ok free) = err not_found
get (ok (live k hash)) = ok (k, hash)
get (ok (tombstone k)) = err not_found

-- The switch of RefuseIfCurated.
unfoldable pub refuse_ruled : Bytes → Bytes → Bytes → Ruling → Result Refusal Bytes
refuse_ruled op id hash no_ruling = ok hash
refuse_ruled op id hash ruling_verified = err (ruling_stands op id ruling_verified)
refuse_ruled op id hash ruling_deprecated = err (ruling_stands op id ruling_deprecated)

-- The switch of RefuseIfRevivingCurated.
unfoldable pub refuse_revival : Bytes → Ruling → Result Refusal (Unit {0})
refuse_revival id no_ruling = ok tt
refuse_revival id ruling_verified = err (would_revive id ruling_verified)
refuse_revival id ruling_deprecated = err (would_revive id ruling_deprecated)

-- What RefuseIfRevivingCurated makes of the answer of Store.GetTombstone.
unfoldable pub check_tombstone : Bytes → Result Fault Slot → Result Refusal (Unit {0})
unfolding refuse_revival
check_tombstone id (err e) = err (fault e)
check_tombstone id (ok free) = ok tt
check_tombstone id (ok (live k hash)) = ok tt
check_tombstone id (ok (tombstone k)) = refuse_revival id (ruling k)

module _ (pl : Platform) (s : Service) (caller : Actor) (slots : Bytes → Result Fault Slot) where
  -- RefuseIfCurated: the content hash, for the write that follows.
  unfoldable pub refuse_if_curated : Bytes → Bytes → Result Refusal Bytes
  unfolding lift get refuse_ruled
  refuse_if_curated given op = do
    let id = pl.nfc given
    lift (may_write pl s caller id)
    (k, hash) ← lift (get (slots id))
    refuse_ruled op id hash (ruling k)

  -- RefuseIfRevivingCurated
  unfoldable pub refuse_if_reviving_curated : Bytes → Result Refusal (Unit {0})
  unfolding lift check_tombstone
  refuse_if_reviving_curated given = do
    let id = pl.nfc given
    lift (may_write pl s caller id)
    check_tombstone id (slots id)
