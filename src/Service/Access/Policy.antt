-- ===== src/Service/Access/Policy.antt =====
-- `Policy` and `SetPolicy`: the access policy read and replaced as a whole document. The log line
-- of SetPolicy is left out.
pub mod Write
pub mod Reach
pub mod Floor
use ochakai.Common.{
  ℕ, Bool, true, false, not, ◌&&◌, ◌||◌, List, [], ◌∷◌, ◌++◌, Option, none, some, ltb, ◌==◌,
  if◌then◌else◌, length, any,
}
use ochakai.Common.Result.{Result, ok, err, ◌>>=◌, ◌>>◌, refuse}
use ochakai.Text.{Bytes, codes, ◌=?◌}
use ochakai.Domain.Actor.{Actor, principal_of}
use ochakai.Domain.Access.{AccessRule, PolicyError, validate_access_rules, access_policy_version}
use ochakai.Store.Access.{AccessPolicy, StoreError, access_policy, is_inside, replace_access_policy}
use ochakai.Service.Access.{
  Platform, Config, Database, no_store, unreachable, holds, Service, Fault, read_only,
  no_administrators, store_unreadable, nil_store, forbidden, not_an_administrator,
  outside_administration, invalid_policy, store_error, Scope, everything, read_policy, scope,
  require_admin,
}

-- The rules that are answered, and their version.
abbrev pub Reply : Type 0
Reply = List AccessRule × Bytes

-- partitionRules, the service's copy of the split.
unfoldable pub partition_rules : List AccessRule → List Bytes → List AccessRule × List AccessRule
partition_rules [] prefixes = ([], [])
partition_rules (r ∷ rs) prefixes =
    let (inside, outside) = partition_rules rs prefixes in
    if is_inside prefixes r then (r ∷ inside, outside) else (inside, r ∷ outside)

-- displayPrefix
unfoldable pub display_prefix : Bytes → Bytes
display_prefix p = if p =? [] then codes "/" else p

abbrev is_nil {ℓ} : {A : Type ℓ} → List A → Bool
is_nil [] = true
is_nil (_ ∷ _) = false

-- `s.readOnly()`
unfoldable pub check_writable : Option Config → Result Fault (Unit {0})
check_writable none = ok tt
check_writable (some c) = refuse c.read_only read_only

-- `s.Config == nil || len(s.Config.Admins) == 0`
names_nobody : Option Config → Bool
names_nobody none = true
names_nobody (some c) = is_nil c.admins

lift_policy : Result PolicyError (List AccessRule) → Result Fault (List AccessRule)
lift_policy (ok rules) = ok rules
lift_policy (err e) = err (invalid_policy e)

-- `within`: nil for a caller without a boundary.
unfoldable pub within_of : Scope → Option (List Bytes)
within_of sc = if everything sc then none else some sc.admin_prefixes

-- Every rule of the document sits under what the caller administers.
check_inside : Option (List Bytes) → List AccessRule → Result Fault (Unit {0})
unfolding partition_rules display_prefix
check_inside none checked = ok tt
check_inside (some prefixes) checked = elim (partition_rules checked prefixes).1 [
  | [] ↦ ok tt
  | r ∷ _ ↦ err (forbidden (outside_administration (display_prefix r.prefix)))
]

module _ (pl : Platform) where
  -- `if !sc.Everything() && len(sc.AdminPrefixes) == 0 { RequireAdmin }`
  unfoldable pub require_editor : Service → Actor → Scope → Bytes → Result Fault (Unit {0})
  require_editor s caller sc op =
      if not (everything sc) && is_nil sc.admin_prefixes
      then require_admin pl s caller op
      else ok tt

  -- The rules of a policy that a caller with this scope is answered.
  unfoldable pub reply_for : Scope → AccessPolicy → Reply
  unfolding partition_rules
  reply_for sc p =
      if everything sc
      then (p.rules, p.version)
      else let mine = (partition_rules p.rules sc.admin_prefixes).0 in
        (mine, access_policy_version pl.digest mine)

  -- Service.Policy
  unfoldable pub policy : Service → Actor → Result Fault Reply
  unfolding require_editor reply_for
  policy s caller = do
    sc ← scope pl s caller
    require_editor s caller sc (codes "reading the access policy")
    p ← read_policy pl s.store
    ok (reply_for sc p)

  -- The guards of SetPolicy before the write: what will be written, and within what.
  unfoldable pub plan_policy :
      Service → Actor → List AccessRule → Result Fault (Scope × List AccessRule)
  unfolding require_editor check_writable names_nobody lift_policy check_inside within_of
  plan_policy s caller rules = do
    check_writable s.config
    sc ← scope pl s caller
    require_editor s caller sc (codes "editing the access policy")
    checked ← lift_policy (validate_access_rules pl.nfc rules)
    refuse (not (is_nil checked) && names_nobody s.config) no_administrators
    refuse (not (is_nil checked) && not sc.admin && is_nil sc.admin_prefixes)
        (forbidden (not_an_administrator (principal_of caller)))
    check_inside (within_of sc) checked
    ok (sc, checked)

  -- The call of Store.ReplaceAccessPolicy on this service's store.
  unfoldable pub write_policy :
      ℕ
      → Database
      → List AccessRule
      → Actor
      → Option Bytes
      → Option (List Bytes)
      → Result Fault (List AccessRule)
  write_policy now no_store checked actor if_match within = err nil_store
  write_policy now unreachable checked actor if_match within = err store_unreadable
  write_policy now (holds rows) checked actor if_match within =
      elim (replace_access_policy pl.digest now rows checked actor if_match within) [
        | ok rows' ↦ ok rows'
        | err e ↦ err (store_error e)
      ]

  -- The rows that SetPolicy commits, and its answer.
  unfoldable pub commit_policy :
      ℕ
      → Service
      → Actor
      → List AccessRule
      → Actor
      → Option Bytes
      → Result Fault (List AccessRule × Reply)
  unfolding plan_policy write_policy reply_for
  commit_policy now s caller rules actor if_match = do
    (sc, checked) ← plan_policy s caller rules
    rows ← write_policy now s.store checked actor if_match (within_of sc)
    p ← read_policy pl (holds rows)
    ok (rows, reply_for sc p)

  -- Service.SetPolicy: the service afterwards, and the answer.
  unfoldable pub set_policy :
      ℕ → Service → Actor → List AccessRule → Actor → Option Bytes → Service × Result Fault Reply
  unfolding commit_policy
  set_policy now s caller rules actor if_match =
      elim (commit_policy now s caller rules actor if_match) [
        | ok (rows, reply) ↦ (record s { store = holds rows }, ok reply)
        | err e ↦ (s, err e)
      ]
