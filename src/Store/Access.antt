-- ===== src/Store/Access.antt =====
-- internal/store/access.go: the table access_rule, its whole-document read and its replacement.
-- The table is the list of its rows, and a transaction that fails leaves the rows as they were.
-- `order_rows` is the database's ORDER BY prefix, principal under its collation, `digest` is
-- SHA-256 in hexadecimal and `now` the clock of the transaction.
pub mod Replace
use ochakai.Common.{
  ℕ, Bool, true, false, not, ◌&&◌, ◌||◌, List, [], ◌∷◌, ◌++◌, Option, none, some, ltb,
  if◌then◌else◌, length, any,
}
use ochakai.Common.Result.{Result, ok, err, ◌>>=◌, ◌>>◌, refuse}
use ochakai.Text.{Bytes, codes, ◌=?◌, trim}
use ochakai.Domain.Actor.{Actor, actor_string}
use ochakai.Domain.Access.{AccessRule, under, rule_key, access_policy_version}

-- AccessPolicy
pub record AccessPolicy : Type 0 where
  pub rules : List AccessRule
  pub active : Bool
  pub version : Bytes

-- Store.AccessPolicy
unfoldable pub access_policy :
    (Bytes → Bytes) → (List AccessRule → List AccessRule) → List AccessRule → AccessPolicy
access_policy digest order_rows table =
    let rules = order_rows table in
    record {
      rules = rules;
      active = ltb 0 (length rules);
      version = access_policy_version digest rules;
    }

-- The inner loop of the partition: does the rule sit at or under one of the prefixes?
abbrev pub is_inside : List Bytes → AccessRule → Bool
is_inside prefixes r = any (λ p. under r.prefix p) prefixes

-- partitionByPrefixes: the rules inside, and the rules outside.
unfoldable pub partition_by_prefixes :
    List AccessRule → List Bytes → List AccessRule × List AccessRule
partition_by_prefixes [] prefixes = ([], [])
partition_by_prefixes (r ∷ rs) prefixes =
    let (inside, outside) = partition_by_prefixes rs prefixes in
    if is_inside prefixes r then (r ∷ inside, outside) else (inside, r ∷ outside)

pub data StoreError : Type 0 where
  conflict : Bytes → StoreError
  duplicate_key : StoreError

-- The row that INSERT writes: the grant as given, the rest from the server.
unfoldable pub stamped : ℕ → Actor → AccessRule → AccessRule
stamped now by r = record r { granted_at = now; granted_by = actor_string by }

-- The batch of INSERTs, under the primary key (prefix, principal).
unfoldable pub insert_rows :
    ℕ → Actor → List AccessRule → List AccessRule → Result StoreError (List AccessRule)
unfolding stamped
insert_rows now by table [] = ok table
insert_rows now by table (r ∷ rs) =
    if any (λ s. rule_key s =? rule_key r) table
    then err duplicate_key
    else insert_rows now by (table ++ stamped now by r ∷ []) rs

-- What the caller was looking at, and what must survive; `none` is a nil `within`.
unfoldable pub visible_rules :
    List AccessRule → Option (List Bytes) → List AccessRule × List AccessRule
unfolding partition_by_prefixes
visible_rules current none = (current, [])
visible_rules current (some prefixes) = partition_by_prefixes current prefixes

-- The precondition on the version.
check_match : (Bytes → Bytes) → Option Bytes → List AccessRule → Result StoreError (Unit {0})
check_match digest none visible = ok tt
check_match digest (some want) visible =
    let got = access_policy_version digest visible in
    refuse (not (got =? trim want (codes "\""))) (conflict got)

-- Store.ReplaceAccessPolicy: the rows after the commit.
unfoldable pub replace_access_policy :
    (Bytes → Bytes)
    → ℕ
    → List AccessRule
    → List AccessRule
    → Actor
    → Option Bytes
    → Option (List Bytes)
    → Result StoreError (List AccessRule)
unfolding check_match visible_rules insert_rows
replace_access_policy digest now table rules by if_match within = do
  let (visible, outside) = visible_rules table within
  check_match digest if_match visible
  insert_rows now by [] (rules ++ outside)
