-- ===== src/Service/Access.antt =====
-- internal/service/access.go: what a caller may read and write, and the access policy's own
-- operations. `Platform` bundles what the source takes from other modules: Unicode NFC, SHA-256
-- and the database's row order. The calls of one operation see one state of the table.
pub mod Boundary
pub mod Narrow
pub mod Policy
use ochakai.Common.{
  ℕ, Bool, true, false, not, ◌&&◌, ◌||◌, List, [], ◌∷◌, ◌++◌, Option, none, some, ltb, ◌==◌,
  if◌then◌else◌, length, any, keep,
}
use ochakai.Common.Result.{Result, ok, err, ◌>>=◌, ◌>>◌, refuse}
use ochakai.Text.{Bytes, codes, ◌=?◌}
use ochakai.Domain.Actor.{Actor, any_principal, principal_of}
use ochakai.Domain.Access.{
  AccessRule, PolicyError, under, validate_access_rules, access_policy_version,
}
use ochakai.Store.Access.{AccessPolicy, StoreError, access_policy, is_inside, replace_access_policy}

pub record Platform : Type 0 where
  pub nfc : Bytes → Bytes
  pub digest : Bytes → Bytes
  pub order_rows : List AccessRule → List AccessRule

-- The part of the configuration that is read here.
pub record Config : Type 0 where
  pub admins : List Bytes
  pub read_only : Bool

-- The store: none, one that cannot be read, or the rows of access_rule.
pub data Database : Type 0 where
  no_store unreachable : Database
  holds : List AccessRule → Database

pub record Service : Type 0 where
  pub config : Option Config
  pub store : Database

-- Why ErrForbidden is answered.
pub data Refusal : Type 0 where
  not_writable : Bytes → Refusal
  takes_whole_bundle : Bytes → Refusal
  archive_of_root : Refusal
  not_an_administrator : Bytes → Refusal
  outside_administration : Bytes → Refusal

-- The errors of these operations; `nil_store` is the panic on a service without a store.
pub data Fault : Type 0 where
  not_found read_only no_administrators store_unreadable nil_store : Fault
  forbidden : Refusal → Fault
  invalid_policy : PolicyError → Fault
  store_error : StoreError → Fault

-- Scope
pub record Scope : Type 0 where
  pub unscoped : Bool
  pub admin_prefixes : List Bytes
  pub admin : Bool
  pub read : List Bytes
  pub write : List Bytes

abbrev pub empty_scope : Scope
empty_scope = record { unscoped = false; admin_prefixes = []; admin = false; read = []; write = [] }

-- Scope.Everything
abbrev pub everything : Scope → Bool
everything sc = sc.unscoped || sc.admin

-- under
abbrev pub under_any : Bytes → List Bytes → Bool
under_any id prefixes = any (λ p. under id p) prefixes

-- Scope.ReadsWholeBundle
unfoldable pub reads_whole_bundle : Scope → Bool
reads_whole_bundle sc = everything sc || any (λ p. p =? []) sc.read

-- Scope.MayRead
unfoldable pub scope_may_read : Scope → Bytes → Bool
scope_may_read sc id = everything sc || under_any id sc.read

-- Scope.MayWrite
unfoldable pub scope_may_write : Scope → Bytes → Bool
scope_may_write sc id = everything sc || under_any id sc.write

-- matches
abbrev pub matches : Bytes → List Bytes → Bool
matches principal allowed = any (λ a. a =? any_principal || a =? principal) allowed

-- The rules that the loop of `scope` does not skip.
abbrev pub applies : Bytes → AccessRule → Bool
applies principal r = r.principal =? any_principal || r.principal =? principal

-- One round of the loop.
unfoldable pub add_grant : Bytes → Scope → AccessRule → Scope
add_grant principal sc r = if not (applies principal r) then sc else record sc {
  read = sc.read ++ r.prefix ∷ [];
  write = if r.may_write then sc.write ++ r.prefix ∷ [] else sc.write;
  admin_prefixes = if r.may_admin then sc.admin_prefixes ++ r.prefix ∷ [] else sc.admin_prefixes;
}

unfoldable pub add_grants : Bytes → Scope → List AccessRule → Scope
add_grants principal sc [] = sc
add_grants principal sc (r ∷ rs) = add_grants principal (add_grant principal sc r) rs

-- `s.Config != nil && matches(principal, s.Config.Admins)`
unfoldable pub is_admin : Option Config → Bytes → Bool
is_admin none principal = false
is_admin (some c) principal = matches principal c.admins

-- What a policy that was read says of the caller.
unfoldable pub policy_scope : Bytes → AccessPolicy → Scope
unfolding add_grants
policy_scope principal p =
    if not p.active
    then record empty_scope { unscoped = true }
    else add_grants principal empty_scope p.rules

module _ (pl : Platform) where
  -- Store.AccessPolicy on this service's store.
  unfoldable pub read_policy : Database → Result Fault AccessPolicy
  read_policy no_store = err nil_store
  read_policy unreachable = err store_unreadable
  read_policy (holds rows) = ok (access_policy pl.digest pl.order_rows rows)

  store_scope : Database → Bytes → Result Fault Scope
  unfolding read_policy policy_scope
  store_scope no_store principal = ok (record empty_scope { unscoped = true })
  store_scope unreachable principal = do p ← read_policy unreachable; ok (policy_scope principal p)
  store_scope (holds rows) principal = do
    p ← read_policy (holds rows)
    ok (policy_scope principal p)

  -- Service.scope
  unfoldable pub scope : Service → Actor → Result Fault Scope
  unfolding store_scope is_admin
  scope s caller =
      let principal = principal_of caller in
      if is_admin s.config principal
      then ok (record empty_scope { admin = true })
      else store_scope s.store principal

  -- Service.mayRead
  unfoldable pub may_read : Service → Actor → Bytes → Result Fault (Unit {0})
  may_read s caller id = do sc ← scope s caller; refuse (not (scope_may_read sc id)) not_found

  -- mayWriteIn
  unfoldable pub may_write_in : Scope → Bytes → Result Fault (Unit {0})
  may_write_in sc id =
      if scope_may_write sc id
      then ok tt
      else if scope_may_read sc id
      then err (forbidden (not_writable id))
      else err not_found

  -- Service.mayWrite
  unfoldable pub may_write : Service → Actor → Bytes → Result Fault (Unit {0})
  unfolding may_write_in
  may_write s caller id = do sc ← scope s caller; may_write_in sc id

  -- Service.RequireAdmin
  unfoldable pub require_admin : Service → Actor → Bytes → Result Fault (Unit {0})
  require_admin s caller op = do
    sc ← scope s caller
    refuse (not (everything sc)) (forbidden (takes_whole_bundle op))

  -- Service.MayArchive
  unfoldable pub may_archive : Service → Actor → Bytes → Result Fault (Unit {0})
  may_archive s caller prefix = do
    sc ← scope s caller
    if everything sc
        then ok tt
        else if prefix =? []
        then err (forbidden archive_of_root)
        else if not (scope_may_read sc prefix)
        then err not_found
        else ok tt

  -- scopeRows
  unfoldable pub scope_rows {ℓ} : {T : Type ℓ} → Scope → List T → (T → Bytes) → List T
  scope_rows sc rows id = if everything sc then rows else keep (λ r. scope_may_read sc (id r)) rows
