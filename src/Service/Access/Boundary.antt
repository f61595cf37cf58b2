-- ===== src/Service/Access/Boundary.antt =====
-- The boundary that a policy draws: what the resolved scope of a caller covers.
use mathlib.Core.List.{Perm}
use ochakai.Common.{
  Bool, true, false, not, ◌&&◌, ◌||◌, List, [], ◌∷◌, Option, ◌≡◌, refl, arith, any, any-append, ltb,
  length, if◌then◌else◌,
}
use ochakai.Common.Perms.{any-perm}
use ochakai.Common.Result.{ok, err}
use ochakai.Text.{Bytes}
use ochakai.Domain.Actor.{Actor, principal_of}
use ochakai.Domain.Access.{AccessRule, under}
use ochakai.Domain.Access.Under.{under_trans}
use ochakai.Store.Access.{AccessPolicy, access_policy}
use ochakai.Service.Access.{
  Platform, Config, holds, Service, not_found, forbidden, not_writable, Scope, empty_scope,
  everything, under_any, scope_may_read, scope_may_write, applies, add_grant, add_grants, is_admin,
  policy_scope, scope, may_read, may_write,
}

-- Some rule that applies to the principal and passes the test stands over the address.
abbrev pub granted : (AccessRule → Bool) → Bytes → List AccessRule → Bytes → Bool
granted test principal rules id =
    any (λ r. applies principal r && test r && under id r.prefix) rules

abbrev pub any_rule : AccessRule → Bool
any_rule r = true

module _ (principal id : Bytes) where
  add_grant-read :
      (sc : Scope) (r : AccessRule)
      → under_any id (add_grant principal sc r).read
        ≡ (under_any id sc.read || (applies principal r && under id r.prefix))
  unfolding add_grant
  add_grant-read sc r = ground (arith, any-append (λ p. under id p) sc.read (r.prefix ∷ []))

  add_grant-write :
      (sc : Scope) (r : AccessRule)
      → under_any id (add_grant principal sc r).write
        ≡ (under_any id sc.write || (applies principal r && r.may_write && under id r.prefix))
  unfolding add_grant
  add_grant-write sc r = ground (arith, any-append (λ p. under id p) sc.write (r.prefix ∷ []))

  add_grants-read :
      (rules : List AccessRule) (sc : Scope)
      → under_any id (add_grants principal sc rules).read
        ≡ (under_any id sc.read || granted any_rule principal rules id)
  unfolding add_grants
  add_grants-read [] sc = ground arith
  add_grants-read (r ∷ rs) sc =
      ground (arith, add_grants-read rs (add_grant principal sc r), add_grant-read sc r)

  add_grants-write :
      (rules : List AccessRule) (sc : Scope)
      → under_any id (add_grants principal sc rules).write
        ≡ (under_any id sc.write || granted (λ r. r.may_write) principal rules id)
  unfolding add_grants
  add_grants-write [] sc = ground arith
  add_grants-write (r ∷ rs) sc =
      ground (arith, add_grants-write rs (add_grant principal sc r), add_grant-write sc r)

add_grants-everything :
    (principal : Bytes) (rules : List AccessRule) (sc : Scope)
    → everything (add_grants principal sc rules) ≡ everything sc
unfolding add_grants add_grant
add_grants-everything principal [] sc = refl
add_grants-everything principal (r ∷ rs) sc =
    ground (arith, add_grants-everything principal rs (add_grant principal sc r))

-- Who may do what, read off the rules themselves.
abbrev pub reads : Bytes → List AccessRule → Bytes → Bool
reads = granted any_rule

abbrev pub writes : Bytes → List AccessRule → Bytes → Bool
writes = granted (λ r. r.may_write)

policy_scope-reads :
    (principal id : Bytes) (p : AccessPolicy)
    → scope_may_read (policy_scope principal p) id ≡ (not p.active || reads principal p.rules id)
unfolding scope_may_read policy_scope
policy_scope-reads principal id p = ground (
  arith,
  add_grants-read principal id p.rules empty_scope,
  add_grants-everything principal p.rules empty_scope,
)

policy_scope-writes :
    (principal id : Bytes) (p : AccessPolicy)
    → scope_may_write (policy_scope principal p) id ≡ (not p.active || writes principal p.rules id)
unfolding scope_may_write policy_scope
policy_scope-writes principal id p = ground (
  arith,
  add_grants-write principal id p.rules empty_scope,
  add_grants-everything principal p.rules empty_scope,
)

-- No rule at all: the policy is inactive.
abbrev pub is_empty : List AccessRule → Bool
is_empty [] = true
is_empty (_ ∷ _) = false

-- What the documentation of ORDER BY promises: the rows, in some order.
abbrev pub KeepsRows : Platform → Type 0
KeepsRows pl = (rows : List AccessRule) → Perm (pl.order_rows rows) rows

pub active-is_empty :
    (pl : Platform) (rows : List AccessRule)
    → KeepsRows pl
    → (access_policy pl.digest pl.order_rows rows).active ≡ not (is_empty rows)
unfolding access_policy
active-is_empty pl rows k = by_any (pl.order_rows rows) rows (any-perm (λ _. true) (k rows))
  where
    by_any :
        (xs ys : List AccessRule)
        → any (λ _. true) xs ≡ any (λ _. true) ys
        → ltb 0 (length xs) ≡ not (is_empty ys)
    by_any [] [] e = refl
    by_any [] (y ∷ ys) e = e
    by_any (x ∷ xs) [] e = ground arith
    by_any (x ∷ xs) (y ∷ ys) e = ground arith

-- The verdict on reading, read off the configuration and the rows.
abbrev pub reading : Option Config → List AccessRule → Bytes → Bytes → Bool
reading c rows principal id = is_admin c principal || is_empty rows || reads principal rows id

abbrev pub writing : Option Config → List AccessRule → Bytes → Bytes → Bool
writing c rows principal id = is_admin c principal || is_empty rows || writes principal rows id

module _ (pl : Platform) (k : KeepsRows pl) (c : Option Config) (rows : List AccessRule)
    (caller : Actor) (id : Bytes) where
  abbrev at_rest : Service
  at_rest = record { config = c; store = holds rows }

  abbrev who : Bytes
  who = principal_of caller

  abbrev stored : AccessPolicy
  stored = access_policy pl.digest pl.order_rows rows

  stored-reads : scope_may_read (policy_scope who stored) id ≡ (is_empty rows || reads who rows id)
  unfolding access_policy
  stored-reads = ground (
    arith,
    policy_scope-reads who id stored,
    active-is_empty pl rows k,
    any-perm (λ r. applies who r && any_rule r && under id r.prefix) (k rows),
  )

  stored-writes :
      scope_may_write (policy_scope who stored) id ≡ (is_empty rows || writes who rows id)
  unfolding access_policy
  stored-writes = ground (
    arith,
    policy_scope-writes who id stored,
    active-is_empty pl rows k,
    any-perm (λ r. applies who r && r.may_write && under id r.prefix) (k rows),
  )

  admin_reads : scope_may_read (record empty_scope { admin = true }) id ≡ true
  unfolding scope_may_read
  admin_reads = refl

  admin_writes : scope_may_write (record empty_scope { admin = true }) id ≡ true
  unfolding scope_may_write
  admin_writes = refl

  -- A read is let through exactly when the caller is an administrator, there is no policy, or a rule
  -- for the caller stands over the address; it is refused as an address that holds nothing.
  pub may_read-reading :
      may_read pl (record { config = c; store = holds rows }) caller id
      ≡ (if reading c rows (principal_of caller) id then ok tt else err not_found)
  unfolding may_read scope
  may_read-reading = ground (arith, stored-reads, admin_reads)

  -- A write is let through exactly when the caller is an administrator, there is no policy, or a
  -- rule that grants writing stands over the address. Otherwise the answer is "forbidden" where the
  -- caller may read, and what a read answers, "not found", where the caller may not.
  pub may_write-writing : may_write pl (record { config = c; store = holds rows }) caller id ≡ (
      if writing c rows (principal_of caller) id
      then ok tt
      else if reading c rows (principal_of caller) id
      then err (forbidden (not_writable id))
      else err not_found)
  unfolding may_write scope
  may_write-writing = ground (arith, stored-reads, stored-writes, admin_writes)

-- Writing implies reading, and reading goes down the tree.
writes-reads :
    (principal id : Bytes) (rows : List AccessRule)
    → writes principal rows id ≡ true
    → reads principal rows id ≡ true
writes-reads principal id [] h = cc h
writes-reads principal id (r ∷ rs) h = ground (arith, writes-reads principal id rs)

reads-under :
    (principal id p : Bytes) (rows : List AccessRule)
    → under id p ≡ true
    → reads principal rows p ≡ true
    → reads principal rows id ≡ true
reads-under principal id p [] h k = k
reads-under principal id p (r ∷ rs) h k =
    ground (arith, reads-under principal id p rs h, under_trans id p r.prefix h)

module _ (pl : Platform) (keeps : KeepsRows pl) (c : Option Config) (rows : List AccessRule)
    (caller : Actor) where
  -- Whoever may write at an address may read there.
  pub may_write→may_read :
      (id : Bytes)
      → may_write pl (record { config = c; store = holds rows }) caller id ≡ ok tt
      → may_read pl (record { config = c; store = holds rows }) caller id ≡ ok tt
  may_write→may_read id h = ground (
    arith,
    may_write-writing pl keeps c rows caller id,
    may_read-reading pl keeps c rows caller id,
    writes-reads (principal_of caller) id rows,
  )

  -- Whoever may read at a directory may read everything under it.
  pub may_read-under :
      (id p : Bytes)
      → under id p ≡ true
      → may_read pl (record { config = c; store = holds rows }) caller p ≡ ok tt
      → may_read pl (record { config = c; store = holds rows }) caller id ≡ ok tt
  may_read-under id p u h = ground (
    arith,
    may_read-reading pl keeps c rows caller p,
    may_read-reading pl keeps c rows caller id,
    reads-under (principal_of caller) id p rows u,
  )
