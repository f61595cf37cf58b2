-- ===== src/Service/Access/Policy/Write.antt =====
-- What a successful SetPolicy has written, and what no SetPolicy can do.
use ochakai.Common.{
  ℕ, true, List, [], ◌∷◌, ◌++◌, Option, none, some, ◌≡◌, ◌≢◌, refl, sym, ◌∙◌, ◌⊎◌, arith, every,
  keep, if◌then◌else◌,
}
use ochakai.Common.Result.{ok, err}
use ochakai.Text.{Bytes}
use ochakai.Domain.Actor.{Actor}
use ochakai.Domain.Access.{AccessRule, validate_access_rules, access_policy_version}
use ochakai.Domain.Access.Validate.{validate-IsPolicy}
use ochakai.Store.Access.{conflict, is_inside, access_policy, visible_rules}
use ochakai.Store.Access.Replace.{
  IsTable, outside_of, stamped_all, carried, AllInside, match_fails, replace_lem, ascending_keyed,
}
use ochakai.Service.Access.{
  Platform, Config, holds, Service, Scope, scope, store_error, read_policy,
}
use ochakai.Service.Access.Policy.{
  partition_rules, within_of, plan_policy, set_policy, reply_for, check_inside,
}

partition_rules-outside :
    (rules : List AccessRule) (prefixes : List Bytes)
    → (partition_rules rules prefixes).1 ≡ keep (outside_of prefixes) rules
unfolding partition_rules
partition_rules-outside [] prefixes = refl
partition_rules-outside (r ∷ rs) prefixes = ground (arith, partition_rules-outside rs prefixes)

none_outside :
    (prefixes : List Bytes) (rules : List AccessRule)
    → keep (outside_of prefixes) rules ≡ []
    → every (is_inside prefixes) rules ≡ true
none_outside prefixes [] h = refl
none_outside prefixes (r ∷ rs) h = ground (arith, none_outside prefixes rs)

check_inside-AllInside :
    (within : Option (List Bytes)) (checked : List AccessRule)
    → check_inside within checked ≡ ok tt
    → AllInside within checked
unfolding check_inside
check_inside-AllInside none checked h = tt
check_inside-AllInside (some prefixes) checked h = none_outside prefixes checked (
    sym (partition_rules-outside checked prefixes)
    ∙ empty (partition_rules checked prefixes).1 refl)
  where
    empty : (l : List AccessRule) → (partition_rules checked prefixes).1 ≡ l → l ≡ []
    empty [] e = refl
    empty (r ∷ l) e = absurd (cc (rw (e, check_inside) at h))

module _ (pl : Platform) (s : Service) (caller : Actor) (rules : List AccessRule) where
  -- What the guards have established.
  pub record Planned (sc : Scope) (checked : List AccessRule) : Type 0 where
    pub resolved : scope pl s caller ≡ ok sc
    pub validated : validate_access_rules pl.nfc rules ≡ ok checked
    pub inside : AllInside (within_of sc) checked
    pub named : checked ≢ [] → (sc.admin ≡ true) ⊎ (sc.admin_prefixes ≢ [])

  module _ {sc : Scope} {checked : List AccessRule}
      (h : plan_policy pl s caller rules ≡ ok (sc, checked)) where
    plan-resolved : scope pl s caller ≡ ok sc
    unfolding plan_policy
    plan-resolved = ground arith

    plan-validated : validate_access_rules pl.nfc rules ≡ ok checked
    unfolding plan_policy
    plan-validated = ground arith

    plan-inside : check_inside (within_of sc) checked ≡ ok tt
    unfolding plan_policy
    plan-inside = ground arith

    plan-named : checked ≢ [] → (sc.admin ≡ true) ⊎ (sc.admin_prefixes ≢ [])
    unfolding plan_policy
    plan-named ne = ground arith

    pub plan_policy-Planned : Planned sc checked
    plan_policy-Planned = record {
      resolved = plan-resolved;
      validated = plan-validated;
      inside = check_inside-AllInside (within_of sc) checked plan-inside;
      named = plan-named;
    }

-- The rows after a write: the document, then what lies outside the caller's reach, all stamped.
abbrev pub next_rows : ℕ → Actor → Scope → List AccessRule → List AccessRule → List AccessRule
next_rows now actor sc checked rows = stamped_all now actor (checked ++ carried (within_of sc) rows)

-- The rules that the caller's precondition is about.
abbrev pub seen_rows : Scope → List AccessRule → List AccessRule
seen_rows sc rows = (visible_rules rows (within_of sc)).0

pub Planned-IsTable :
    (pl : Platform) (s : Service) (caller : Actor) (rules : List AccessRule) {sc : Scope}
    {checked : List AccessRule}
    → Planned pl s caller rules sc checked
    → IsTable checked
Planned-IsTable pl s caller rules {checked = checked} p =
    let policy = (validate-IsPolicy pl.nfc rules p.validated).1 in
    record {
      grants = policy.grants;
      keyed = ascending_keyed checked policy.grants policy.ascending;
    }

module _ (pl : Platform) (now : ℕ) (c : Option Config) (rows : List AccessRule) (caller : Actor)
    (rules : List AccessRule) (actor : Actor) (if_match : Option Bytes) where
  abbrev before : Service
  before = record { config = c; store = holds rows }

  module _ {sc : Scope} {checked : List AccessRule}
      (planned : plan_policy pl (record { config = c; store = holds rows }) caller rules
        ≡ ok (sc, checked))
      (table : IsTable rows) where
    -- A document that passes the guards is written exactly when the version the caller names is that
    -- of the rules the caller sees. Then those rules are replaced and all others stay, and the answer
    -- is what is stored. Otherwise the answer is the conflict, with the version found, and nothing is
    -- written. No other outcome is left, a violated primary key among them.
    pub set_policy_outcome :
        set_policy pl now (record { config = c; store = holds rows }) caller rules actor if_match
        ≡ (if match_fails pl.digest if_match (seen_rows sc rows)
            then (
              record { config = c; store = holds rows },
              err (store_error (conflict (access_policy_version pl.digest (seen_rows sc rows)))),
            )
            else (
              record { config = c; store = holds (next_rows now actor sc checked rows) },
              ok (
                  reply_for pl sc
                    (access_policy pl.digest pl.order_rows (next_rows now actor sc checked rows))),
            ))
    unfolding set_policy read_policy
    set_policy_outcome =
        let p = plan_policy-Planned pl before caller rules planned in
        ground (
          arith,
          planned,
          replace_lem pl.digest now rows checked actor if_match (within_of sc)
              (Planned-IsTable pl before caller rules p) table p.inside,
        )
