-- ===== src/Service/Curation/Guards.antt =====
-- What the guards let through, and what they tell whom.
use ochakai.Common.{[], ◌≡◌, ◌≢◌, refl, sym, ap, arith}
use ochakai.Common.Result.{Result, ok, err, ◌>>=◌, ◌>>◌}
use ochakai.Text.{Bytes}
use ochakai.Domain.Actor.{Actor}
use ochakai.Domain.Trust.{Entry, Ruling, no_ruling, ruling, verified, status_deprecated}
use ochakai.Service.Access.{Platform, Service, Fault, may_write}
use ochakai.Service.Curation.{
  Slot, free, live, tombstone, Refusal, fault, lift, get, refuse_ruled, refuse_if_curated,
  refuse_if_reviving_curated,
}

-- Nobody verified the entry, and it is not deprecated.
pub record IsUnruled (k : Entry) : Type 0 where
  pub unverified : k.verifications ≡ []
  pub not_deprecated : k.status ≢ status_deprecated

ruling-IsUnruled : (k : Entry) → ruling k ≡ no_ruling → IsUnruled k
unfolding ruling verified
ruling-IsUnruled k h = ground arith

refuse_ruled-ok :
    (op id hash : Bytes) (r : Ruling) {given : Bytes}
    → refuse_ruled op id hash r ≡ ok given
    → (r ≡ no_ruling) × (given ≡ hash)
unfolding refuse_ruled
refuse_ruled-ok op id hash r h = ground arith

-- What stands behind a guard that passed.
pub record IsReplaceable (slot : Result Fault Slot) (hash : Bytes) : Type 0 where
  pub entry : Entry
  pub found : slot ≡ ok (live entry hash)
  pub unruled : IsUnruled entry

get-IsReplaceable :
    (op id : Bytes) (slot : Result Fault Slot) {hash : Bytes}
    → (lift (get slot) >>= λ found. refuse_ruled op id found.1 (ruling found.0)) ≡ ok hash
    → IsReplaceable slot hash
unfolding lift get
get-IsReplaceable op id (err e) h = absurd (ground arith)
get-IsReplaceable op id (ok free) h = absurd (ground arith)
get-IsReplaceable op id (ok (tombstone k)) h = absurd (ground arith)
get-IsReplaceable op id (ok (live k held)) h = record {
  entry = k;
  found = ap (λ x. ok (live k x)) (sym (refuse_ruled-ok op id held (ruling k) h).1);
  unruled = ruling-IsUnruled k (refuse_ruled-ok op id held (ruling k) h).0;
}

lift-ok :
    (r : Result Fault (Unit {0})) (rest : Result Refusal Bytes) {hash : Bytes}
    → (lift r >> rest) ≡ ok hash
    → (r ≡ ok tt) × (rest ≡ ok hash)
unfolding lift
lift-ok (ok tt) rest h = (refl, h)
lift-ok (err e) rest h = absurd (ground arith)

module _ (pl : Platform) (s : Service) (caller : Actor) (slots : Bytes → Result Fault Slot) where
  -- A replacement that the guard lets through is by a caller who may write at the address, of a live
  -- concept that nobody verified and that is not deprecated, and the hash is that concept's.
  pub refuse_if_curated-ok :
      (given op : Bytes) {hash : Bytes}
      → refuse_if_curated pl s caller slots given op ≡ ok hash
      → (may_write pl s caller (pl.nfc given) ≡ ok tt) × IsReplaceable (slots (pl.nfc given)) hash
  unfolding refuse_if_curated
  refuse_if_curated-ok given op h =
      replaceable (lift-ok (may_write pl s caller (pl.nfc given)) rest h)
    where
      rest : Result Refusal Bytes
      rest = lift (get (slots (pl.nfc given))) >>= λ found.
          refuse_ruled op (pl.nfc given) found.1 (ruling found.0)

      replaceable :
          {hash : Bytes}
          → (may_write pl s caller (pl.nfc given) ≡ ok tt) × (rest ≡ ok hash)
          → (may_write pl s caller (pl.nfc given) ≡ ok tt)
            × IsReplaceable (slots (pl.nfc given)) hash
      replaceable (w, r) = (w, get-IsReplaceable op (pl.nfc given) (slots (pl.nfc given)) r)

  -- To a caller who may not write at an address, both guards answer what the write would, whatever
  -- stands there.
  pub guards-closed :
      (given op : Bytes) {e : Fault}
      → may_write pl s caller (pl.nfc given) ≡ err e
      → (refuse_if_curated pl s caller slots given op ≡ err (fault e))
        × (refuse_if_reviving_curated pl s caller slots given ≡ err (fault e))
  unfolding refuse_if_curated refuse_if_reviving_curated lift
  guards-closed given op h = (rw h refl, rw h refl)
