-- ===== src/Tests/Curation.antt =====
-- The guards of curated knowledge in the small deployment.
use ochakai.Common.{[], ◌≡◌, refl}
use ochakai.Common.Result.{Result, ok, err}
use ochakai.Text.{Bytes, has_prefix, codes, bytes_discrete}
use ochakai.Domain.Actor.{principal_of}
use ochakai.Domain.Trust.{Entry, ruling, verified}
use ochakai.Store.Access.{access_policy}
use ochakai.Domain.Access.{under}
use ochakai.Service.Access.{
  Fault, not_found, scope, policy_scope, add_grant, may_write, scope_may_write, scope_may_read,
}
use ochakai.Service.Curation.{Slot, live, lift, get, refuse_ruled, refuse_if_curated}
use ochakai.Service.Curation.Guards.{IsReplaceable, refuse_if_curated-ok}
use ochakai.Tests.Data.{ann, bob, platform, deployment}

abbrev draft : Entry
draft = record { status = codes "draft"; verifications = [] }

abbrev slots : Bytes → Result Fault Slot
slots id = ok (live draft (codes "h1"))

allowed :
    refuse_if_curated platform deployment ann slots (codes "teams/a/x") (codes "replace")
    ≡ ok (codes "h1")
unfolding refuse_if_curated lift get refuse_ruled ruling verified may_write scope policy_scope
    add_grant access_policy principal_of scope_may_write bytes_discrete under has_prefix
allowed = refl

refuse_if_curated-ok_example :
    (may_write platform deployment ann (codes "teams/a/x") ≡ ok tt)
    × IsReplaceable (slots (codes "teams/a/x")) (codes "h1")
refuse_if_curated-ok_example =
    refuse_if_curated-ok platform deployment ann slots (codes "teams/a/x") (codes "replace") allowed

hidden : may_write platform deployment bob (codes "teams/a/x") ≡ err not_found
unfolding may_write scope policy_scope add_grant access_policy principal_of scope_may_write
    scope_may_read bytes_discrete under has_prefix
hidden = refl
