-- ===== src/Tests/Access.antt =====
-- The grants and the boundary.
use mathlib.Core.List.Perm
use ochakai.Common.{true, false, List, [], ◌∷◌, map, ◌≡◌, refl, ◌↔◌, if◌then◌else◌}
use ochakai.Common.Result.{ok, err}
use ochakai.Common.Sorting.{sort}
use ochakai.Text.{codes, bytes_discrete, has_prefix, cut, trim}
use ochakai.Text.Split.{split}
use ochakai.Text.Space.{trim_space}
use ochakai.Text.Utf8.{valid_string, runes}
use ochakai.Text.Order.{str_lt}
use ochakai.Domain.Segments.{valid_segment, valid_id_prefix}
use ochakai.Domain.Actor.{valid_principal, principal_of}
use ochakai.Domain.Access.{
  AccessRule, duplicate_rule, admin_at_root, under, check_rule, validate_access_rules, rule_lt,
  access_policy_version,
}
use ochakai.Domain.Access.Validate.{
  IsPolicy, IsAcceptableAll, accepted, validate-IsPolicy, validate_iff,
}
use ochakai.Domain.Access.Version.{version-perm, version-injective, grant_of}
use ochakai.Store.Access.{access_policy}
use ochakai.Service.Access.{
  not_found, forbidden, not_writable, scope, policy_scope, add_grant, reads_whole_bundle, may_read,
  may_write,
}
use ochakai.Service.Access.Boundary.{reading, writing, may_read-reading, may_write-writing}
use ochakai.Service.Access.Narrow.{Filter, narrow, intersect}
use ochakai.Service.Access.Narrow.Laws.{shown, asks, narrow-may_read}
use ochakai.Tests.Data.{
  ann, bob, rule, docs_rule, team_rule, table, platform, platform-KeepsRows, config, deployment,
}

under_run :
    (under (codes "metrics/revenue") (codes "metrics") ≡ true)
    × (under (codes "metrics-legacy/churn") (codes "metrics") ≡ false)
unfolding under has_prefix bytes_discrete
under_run = (refl, refl)

validate_run :
    validate_access_rules
      (λ s. s)
      (rule (codes "/teams/a/") (codes " human:ann") false true ∷ docs_rule ∷ [])
    ≡ ok (docs_rule ∷ team_rule ∷ [])
unfolding validate_access_rules check_rule trim_space trim valid_id_prefix valid_segment
    valid_principal cut split runes valid_string bytes_discrete has_prefix sort str_lt
validate_run = refl

validate_errors :
    (validate_access_rules (λ s. s) (rule [] (codes "*") true true ∷ [])
      ≡ err (admin_at_root (codes "*")))
    × (validate_access_rules (λ s. s) (docs_rule ∷ docs_rule ∷ [])
        ≡ err (duplicate_rule (codes "*") (codes "docs")))
unfolding validate_access_rules check_rule trim_space trim valid_id_prefix valid_segment
    valid_principal cut split runes valid_string bytes_discrete has_prefix sort str_lt
validate_errors = (refl, refl)

validate-IsPolicy_example :
    ◌≡◌ {A = List AccessRule} table (
      sort rule_lt (
        map
          (accepted (λ s. s))
          (rule (codes "/teams/a/") (codes " human:ann") false true ∷ docs_rule ∷ [])))
    × IsPolicy table
validate-IsPolicy_example =
    validate-IsPolicy (λ s. s)
      (rule (codes "/teams/a/") (codes " human:ann") false true ∷ docs_rule ∷ []) validate_run

pub table-IsPolicy : IsPolicy table
table-IsPolicy = (validate-IsPolicy (λ s. s) _ validate_run).1

validate_iff_example :
    ((out : List AccessRule) × (validate_access_rules (λ s. s) table ≡ ok out))
    ↔ IsAcceptableAll (λ s. s) table
validate_iff_example = validate_iff (λ s. s) table

version-perm_example :
    access_policy_version (λ s. s) table
    ≡ access_policy_version (λ s. s) (team_rule ∷ docs_rule ∷ [])
version-perm_example =
    version-perm (λ s. s) (Perm.swap team_rule docs_rule []) ((λ e. cc e, tt), (tt, tt))

version-injective_example : map grant_of table ≡ map grant_of table
version-injective_example =
    version-injective (λ s. s) table table (λ e. e) table-IsPolicy table-IsPolicy refl

intersect_run :
    intersect (codes "teams" ∷ codes "docs/x" ∷ []) (codes "docs" ∷ codes "teams/a" ∷ [])
    ≡ codes "teams/a" ∷ codes "docs/x" ∷ []
unfolding intersect under has_prefix bytes_discrete
intersect_run = refl

may_read-reading_example :
    may_read platform deployment bob (codes "teams/a/x")
    ≡ (if reading config table (principal_of bob) (codes "teams/a/x") then ok tt else err not_found)
may_read-reading_example =
    may_read-reading platform platform-KeepsRows config table bob (codes "teams/a/x")

may_write-writing_example : may_write platform deployment bob (codes "docs/x") ≡ (
    if writing config table (principal_of bob) (codes "docs/x")
    then ok tt
    else if reading config table (principal_of bob) (codes "docs/x")
    then err (forbidden (not_writable (codes "docs/x")))
    else err not_found)
may_write-writing_example =
    may_write-writing platform platform-KeepsRows config table bob (codes "docs/x")

abbrev some_filter : Filter
some_filter = record {
  types = [];
  statuses = [];
  tags = [];
  source = [];
  links_to = [];
  prefixes = codes "teams" ∷ [];
  created_by = [];
  trust = [];
  frontmatter = [];
}

narrow-ann :
    narrow platform deployment ann some_filter
    ≡ ok (record some_filter { prefixes = codes "teams/a" ∷ [] }, true)
unfolding narrow reads_whole_bundle scope policy_scope add_grant access_policy principal_of under
    has_prefix bytes_discrete
narrow-ann = refl

narrow-may_read_example :
    (shown (record some_filter { prefixes = codes "teams/a" ∷ [] }, true) (codes "teams/a/x")
      ≡ true)
    ↔ ((asks (codes "teams" ∷ []) (codes "teams/a/x") ≡ true)
        × (may_read platform deployment ann (codes "teams/a/x") ≡ ok tt))
narrow-may_read_example =
    narrow-may_read platform deployment ann some_filter (codes "teams/a/x") narrow-ann
