-- ===== src/Tests/Policy.antt =====
-- The access policy's own operations.
use ochakai.Common.{ap, true, List, [], ◌∷◌, none, ◌≡◌, refl, All}
use ochakai.Common.Result.{Result, ok, err}
use ochakai.Common.Sorting.{sort}
use ochakai.Text.{Bytes, codes, bytes_discrete, has_prefix, cut, trim}
use ochakai.Text.Split.{split}
use ochakai.Text.Space.{trim_space}
use ochakai.Text.Utf8.{valid_string, runes}
use ochakai.Domain.Segments.{valid_segment, valid_id_prefix}
use ochakai.Domain.Actor.{valid_principal, principal_of, actor_string}
use ochakai.Domain.Access.{AccessRule, under, check_rule, validate_access_rules}
use ochakai.Store.Access.{access_policy}
use ochakai.Store.Access.Replace.{IsTable, ascending_keyed}
use ochakai.Service.Access.{
  holds, Service, Fault, Scope, empty_scope, scope, is_admin, add_grant, may_read, may_write,
  not_found, scope_may_write, scope_may_read, policy_scope,
}
use ochakai.Service.Access.Policy.{within_of, plan_policy, set_policy, reply_for, check_writable}
use ochakai.Service.Access.Policy.Write.{next_rows, set_policy_outcome}
use ochakai.Service.Access.Policy.Reach.{IsSound, set_policy-IsSound, set_policy-isolation}
use ochakai.Service.Access.Policy.Floor.{set_policy-restamps, empty_document_opens}
use ochakai.Tests.Data.{
  root, ann, bob, docs_rule, team_rule, table, platform, platform-KeepsRows, config, deployment,
}
use ochakai.Tests.Access.{table-IsPolicy}

table-IsTable : IsTable table
table-IsTable = record {
  grants = table-IsPolicy.grants;
  keyed = ascending_keyed table table-IsPolicy.grants table-IsPolicy.ascending;
}

-- What ann's rule makes of her.
abbrev ann_scope : Scope
ann_scope = record empty_scope {
  admin_prefixes = codes "teams/a" ∷ [];
  read = codes "docs" ∷ codes "teams/a" ∷ [];
  write = codes "teams/a" ∷ [];
}

scope-ann : scope platform deployment ann ≡ ok ann_scope
unfolding scope policy_scope add_grant access_policy principal_of bytes_discrete
scope-ann = refl

plan-ann : plan_policy platform deployment ann [] ≡ ok (ann_scope, [])
unfolding plan_policy scope policy_scope add_grant access_policy principal_of validate_access_rules
    sort bytes_discrete
plan-ann = refl

set_policy_outcome_example : set_policy platform 7 deployment ann [] ann none ≡ (
  record { config = config; store = holds (next_rows 7 ann ann_scope [] table) },
  ok (
      reply_for platform ann_scope
        (access_policy (λ s. s) (λ rows. rows) (next_rows 7 ann ann_scope [] table))),
)
set_policy_outcome_example =
    set_policy_outcome platform 7 config table ann [] ann none plan-ann table-IsTable

set_policy-IsSound_example : IsSound (set_policy platform 7 deployment bob [] bob none).0.store
set_policy-IsSound_example = set_policy-IsSound platform 7 deployment bob [] bob none table-IsTable

after-ann :
    (set_policy platform 7 deployment ann [] ann none).0.store
    ≡ holds (next_rows 7 ann ann_scope [] table)
after-ann =
    ap (λ (r : Service × Result Fault (List AccessRule × Bytes)). r.0.store)
      set_policy_outcome_example

abbrev with_rows : List AccessRule → Service
with_rows rows = record { config = config; store = holds rows }

set_policy-isolation_example :
    (may_read platform (with_rows (next_rows 7 ann ann_scope [] table)) bob (codes "docs/x")
      ≡ may_read platform (with_rows table) bob (codes "docs/x"))
    × (may_write platform (with_rows (next_rows 7 ann ann_scope [] table)) bob (codes "docs/x")
        ≡ may_write platform (with_rows table) bob (codes "docs/x"))
unfolding under has_prefix bytes_discrete within_of
set_policy-isolation_example =
    set_policy-isolation platform 7 config table ann [] ann none plan-ann table-IsTable
      platform-KeepsRows bob (codes "docs/x") refl refl refl after-ann

set_policy-restamps_example :
    All
      (λ r. (r.granted_by ≡ actor_string ann) × (r.granted_at ≡ 7))
      (next_rows 7 ann ann_scope [] table)
set_policy-restamps_example =
    set_policy-restamps platform 7 config table ann [] ann plan-ann table-IsTable after-ann

-- A first rule on a deployment that has none, by its administrator.
abbrev admin_scope : Scope
admin_scope = record empty_scope { admin = true }

plan-root :
    plan_policy platform (record { config = config; store = holds [] }) root (docs_rule ∷ [])
    ≡ ok (admin_scope, docs_rule ∷ [])
unfolding plan_policy scope is_admin principal_of validate_access_rules check_rule trim_space trim
    valid_id_prefix valid_segment valid_principal cut split runes valid_string has_prefix sort
    bytes_discrete
plan-root = refl

-- A deployment whose only rule is the one of ann's team.
abbrev team_table : List AccessRule
team_table = team_rule ∷ []

abbrev team_scope : Scope
team_scope = record empty_scope {
  admin_prefixes = codes "teams/a" ∷ [];
  read = codes "teams/a" ∷ [];
  write = codes "teams/a" ∷ [];
}

team-IsTable : IsTable team_table
team-IsTable = record { grants = (table-IsTable.grants.1.0, tt); keyed = (tt, tt) }

scope-team :
    scope platform (record { config = config; store = holds team_table }) ann ≡ ok team_scope
unfolding scope policy_scope add_grant access_policy principal_of bytes_discrete
scope-team = refl

empty_document_opens_example :
    may_write platform
      (set_policy platform 7
        (record { config = config; store = holds team_table })
        ann
        []
        ann
        none).0
      bob
      (codes "personnel/x")
    ≡ ok tt
unfolding check_writable under has_prefix bytes_discrete
empty_document_opens_example =
    empty_document_opens platform 7 config team_table ann ann platform-KeepsRows team-IsTable refl
      scope-team (λ e. cc e) refl refl bob (codes "personnel/x")

-- Before that document bob could not write there.
closed_before :
    may_write platform
      (record { config = config; store = holds team_table })
      bob
      (codes "personnel/x")
    ≡ err not_found
unfolding may_write scope policy_scope add_grant access_policy principal_of scope_may_write
    scope_may_read bytes_discrete under has_prefix
closed_before = refl
