-- ===== src/Domain/Access.antt =====
-- internal/domain/access.go: the grants of the access policy. `norm.NFC` is the parameter `nfc`,
-- and SHA-256 with its hexadecimal print is the parameter `digest`.
pub mod Under
pub mod Validate
pub mod Version
use ochakai.Common.{
  ℕ, ◌+◌, Bool, true, false, not, ◌&&◌, ◌||◌, List, [], ◌∷◌, ◌++◌, Option, none, some, ltb, leb,
  ◌==◌, if◌then◌else◌, length, any,
}
use ochakai.Common.Result.{Result, ok, err, ◌>>=◌, ◌>>◌, refuse}
use ochakai.Common.Sorting.{sort}
use ochakai.Text.{Bytes, codes, ◌=?◌, has_prefix, trim}
use ochakai.Text.Order.{str_lt}
use ochakai.Text.Space.{trim_space}
use ochakai.Domain.Segments.{slash, valid_id_prefix}
use ochakai.Domain.Actor.{valid_principal}

-- AccessRule; a time is the number of its instant.
pub record AccessRule : Type 0 where
  pub prefix : Bytes
  pub principal : Bytes
  pub may_write : Bool
  pub may_admin : Bool
  pub granted_at : ℕ
  pub granted_by : Bytes

abbrev pub max_access_rules : ℕ
max_access_rules = 1000

-- Under
unfoldable pub under : Bytes → Bytes → Bool
under id prefix =
    if prefix =? [] then true else id =? prefix || has_prefix id (prefix ++ (slash ∷ []))

-- The refusals of ValidateAccessRules, with what their messages quote.
pub data PolicyError : Type 0 where
  too_many_rules : ℕ → PolicyError
  invalid_prefix : Bytes → PolicyError
  admin_at_root : Bytes → PolicyError
  invalid_principal : Bytes → PolicyError
  duplicate_rule : Bytes → Bytes → PolicyError

-- prefix + "\x00" + principal
abbrev pub rule_key : AccessRule → Bytes
rule_key r = r.prefix ++ (0 ∷ r.principal)

-- The order that both sorts impose.
unfoldable pub rule_lt : AccessRule → AccessRule → Bool
rule_lt a b =
    if not (a.prefix =? b.prefix) then str_lt a.prefix b.prefix else str_lt a.principal b.principal

module _ (nfc : Bytes → Bytes) where
  -- The two assignments at the top of the loop.
  unfoldable pub cleaned : AccessRule → AccessRule
  cleaned r = record r {
    prefix = nfc (trim (trim_space r.prefix) (codes "/"));
    principal = trim_space r.principal;
  }

  -- `r.MayWrite = true`, for a rule that may administer.
  unfoldable pub widened : AccessRule → AccessRule
  widened r = if r.may_admin && not r.may_write then record r { may_write = true } else r

  -- What one round of the loop does before it looks at the rules seen so far.
  unfoldable pub check_rule : AccessRule → Result PolicyError AccessRule
  unfolding cleaned widened
  check_rule given = do
    let r = cleaned given
    refuse (not (r.prefix =? []) && not (valid_id_prefix r.prefix)) (invalid_prefix r.prefix)
    refuse (r.may_admin && r.prefix =? []) (admin_at_root r.principal)
    refuse (not (valid_principal r.principal)) (invalid_principal r.principal)
    ok (widened r)

  -- The loop over the rules; `seen` holds the keys so far.
  unfoldable pub check_rules :
      List Bytes → List AccessRule → List AccessRule → Result PolicyError (List AccessRule)
  check_rules seen out [] = ok out
  check_rules seen out (given ∷ rest) = do
    r ← check_rule given
    if any (λ k. k =? rule_key r) seen
        then err (duplicate_rule r.principal r.prefix)
        else check_rules (rule_key r ∷ seen) (out ++ r ∷ []) rest

  -- ValidateAccessRules
  unfoldable pub validate_access_rules : List AccessRule → Result PolicyError (List AccessRule)
  unfolding check_rules rule_lt
  validate_access_rules rules = do
    refuse (ltb max_access_rules (length rules)) (too_many_rules (length rules))
    out ← check_rules [] [] rules
    ok (sort rule_lt out)

-- How a rule's grant is spelled in the hashed text.
unfoldable pub grant_word : AccessRule → Bytes
grant_word r = if r.may_admin then codes "rwa" else if r.may_write then codes "rw" else codes "r"

-- One line of the hashed text.
unfoldable pub rule_line : AccessRule → Bytes
unfolding grant_word
rule_line r = r.prefix ++ (0 ∷ (r.principal ++ (0 ∷ (grant_word r ++ b'\n' ∷ []))))

-- All that is written to the hash.
unfoldable pub policy_text : List AccessRule → Bytes
unfolding rule_line
policy_text [] = []
policy_text (r ∷ rs) = rule_line r ++ policy_text rs

-- AccessPolicyVersion
unfoldable pub access_policy_version : (Bytes → Bytes) → List AccessRule → Bytes
unfolding policy_text rule_lt
access_policy_version digest rules = digest (policy_text (sort rule_lt rules))
