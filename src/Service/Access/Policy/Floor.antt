-- ===== src/Service/Access/Policy/Floor.antt =====
-- The floor under a policy: who can write its first rule, whom the rows name afterwards, and how
-- a prefix administrator can take the last rule away.
use ochakai.Common.{
  ℕ, true, false, List, [], ◌∷◌, map, Option, none, some, ◌≡◌, ◌≢◌, refl, sym, ap, subst, ◌∙◌, inl,
  inr, arith, every, keep, All, length,
}
use ochakai.Common.Result.{ok}
use ochakai.Common.Sorting.{sort, length-sort}
use ochakai.Text.{Bytes}
use ochakai.Domain.Actor.{Actor, principal_of, actor_string}
use ochakai.Domain.Access.{AccessRule, rule_lt, validate_access_rules}
use ochakai.Domain.Access.Validate.{accepted, validate-IsPolicy}
use ochakai.Store.Access.{is_inside, stamped}
use ochakai.Store.Access.Replace.{IsTable, outside_of, stamped_all, carried}
use ochakai.Service.Access.{
  Platform, Config, holds, Service, Scope, everything, is_admin, policy_scope, scope, may_write,
}
use ochakai.Service.Access.Boundary.{KeepsRows, active-is_empty, may_write-writing}
use ochakai.Service.Access.Policy.{
  within_of, plan_policy, set_policy, check_writable, require_editor, check_inside,
}
use ochakai.Service.Access.Policy.Write.{plan_policy-Planned, next_rows, set_policy_outcome}

-- Without rules a scope is that of an administrator, or of a deployment without a boundary.
scope_without_rules :
    (pl : Platform) (k : KeepsRows pl) (c : Option Config) (caller : Actor) {sc : Scope}
    → scope pl (record { config = c; store = holds [] }) caller ≡ ok sc
    → (sc.admin ≡ true → is_admin c (principal_of caller) ≡ true) × (sc.admin_prefixes ≡ [])
unfolding scope policy_scope
scope_without_rules pl k c caller h =
    (ground (arith, active-is_empty pl [] k), ground (arith, active-is_empty pl [] k))

length-accepted :
    (nfc : Bytes → Bytes) (rules : List AccessRule)
    → length (map (accepted nfc) rules) ≡ length rules
length-accepted nfc [] = refl
length-accepted nfc (r ∷ rs) = omega (arith, length-accepted nfc rs)

checked-ne-nil :
    (nfc : Bytes → Bytes) (rules : List AccessRule) {checked : List AccessRule}
    → validate_access_rules nfc rules ≡ ok checked
    → rules ≢ []
    → checked ≢ []
checked-ne-nil nfc [] h ne e = ne refl
checked-ne-nil nfc (r ∷ rs) h ne e =
    let same = sym e ∙ (validate-IsPolicy nfc (r ∷ rs) h).0 in
    absurd (
      omega (
        arith,
        ap length same,
        length-sort rule_lt (map (accepted nfc) (r ∷ rs)),
        length-accepted nfc (r ∷ rs),
      ))

-- Whoever gets a first rule past the guards is an administrator by the configuration, and so can
-- undo it.
pub first_rule_by_admin :
    (pl : Platform) (c : Option Config) (caller : Actor) (rules : List AccessRule) {sc : Scope}
    {checked : List AccessRule}
    → KeepsRows pl
    → rules ≢ []
    → plan_policy pl (record { config = c; store = holds [] }) caller rules ≡ ok (sc, checked)
    → is_admin c (principal_of caller) ≡ true
first_rule_by_admin pl c caller rules k ne planned =
    let p = plan_policy-Planned pl _ caller rules planned in
    let (admin, none_administered) = scope_without_rules pl k c caller p.resolved in
    elim (p.named (checked-ne-nil pl.nfc rules p.validated ne)) [
      | inl a ↦ admin a
      | inr other ↦ absurd (other none_administered)
    ]

stamped_by :
    (now : ℕ) (by : Actor) (l : List AccessRule)
    → All (λ r. (r.granted_by ≡ actor_string by) × (r.granted_at ≡ now)) (stamped_all now by l)
unfolding stamped
stamped_by now by [] = tt
stamped_by now by (r ∷ l) = ((refl, refl), stamped_by now by l)

module _ (pl : Platform) (now : ℕ) (c : Option Config) (rows : List AccessRule) (caller : Actor)
    (rules : List AccessRule) (actor : Actor) {sc : Scope} {checked : List AccessRule}
    (planned : plan_policy pl (record { config = c; store = holds rows }) caller rules
      ≡ ok (sc, checked))
    (table : IsTable rows) where
  -- After an unconditional write that passes the guards every row, those outside the caller's
  -- reach included, names the writer and the time of the write as the grant's own.
  pub set_policy-restamps :
      {after : List AccessRule}
      → (set_policy pl now
          (record { config = c; store = holds rows })
          caller
          rules
          actor
          none).0.store
        ≡ holds after
      → All (λ r. (r.granted_by ≡ actor_string actor) × (r.granted_at ≡ now)) after
  set_policy-restamps {after} h =
      let e : holds after ≡ holds (next_rows now actor sc checked rows) =
        ground (arith, h, set_policy_outcome pl now c rows caller rules actor none planned table) in
      subst (All (λ r. (r.granted_by ≡ actor_string actor) × (r.granted_at ≡ now)))
        (sym (rows_eq e)) (stamped_by now actor _)
    where
      rows_eq : {xs ys : List AccessRule} → holds xs ≡ holds ys → xs ≡ ys
      rows_eq q = cc q

none_kept :
    (prefixes : List Bytes) (rows : List AccessRule)
    → every (is_inside prefixes) rows ≡ true
    → keep (outside_of prefixes) rows ≡ []
none_kept prefixes [] h = refl
none_kept prefixes (r ∷ rs) h = ground (arith, none_kept prefixes rs)

editor_passes :
    (pl : Platform) (s : Service) (caller : Actor) (sc : Scope) (op : Bytes)
    → sc.admin_prefixes ≢ []
    → require_editor pl s caller sc op ≡ ok tt
unfolding require_editor
editor_passes pl s caller sc op ne = ground arith

nothing_checked : (within : Option (List Bytes)) → check_inside within [] ≡ ok tt
unfolding check_inside
nothing_checked none = refl
nothing_checked (some prefixes) = refl

nothing_validated : (nfc : Bytes → Bytes) → validate_access_rules nfc [] ≡ ok []
unfolding validate_access_rules sort
nothing_validated nfc = refl

empty_plan :
    (pl : Platform) (s : Service) (caller : Actor) {sc : Scope}
    → check_writable s.config ≡ ok tt
    → scope pl s caller ≡ ok sc
    → sc.admin_prefixes ≢ []
    → plan_policy pl s caller [] ≡ ok (sc, [])
unfolding plan_policy
empty_plan pl s caller {sc} w e ne =
    rw (w, e, editor_passes pl s caller sc _ ne, nothing_validated, nothing_checked) refl

-- A prefix administrator who administers every rule there is can send an empty document. It is
-- accepted, the policy is then inactive, and everybody may write everywhere, also outside the
-- prefixes administered.
pub empty_document_opens :
    (pl : Platform) (now : ℕ) (c : Option Config) (rows : List AccessRule) (caller actor : Actor)
    {sc : Scope}
    → KeepsRows pl
    → IsTable rows
    → check_writable c ≡ ok tt
    → scope pl (record { config = c; store = holds rows }) caller ≡ ok sc
    → sc.admin_prefixes ≢ []
    → everything sc ≡ false
    → every (is_inside sc.admin_prefixes) rows ≡ true
    → (anyone : Actor) (id : Bytes)
    → may_write pl
        (set_policy pl now (record { config = c; store = holds rows }) caller [] actor none).0
        anyone
        id
      ≡ ok tt
unfolding within_of
empty_document_opens pl now c rows caller actor {sc} k table w e ne bounded all_mine anyone id =
    let planned = empty_plan pl (record { config = c; store = holds rows }) caller w e ne in
    let gone : carried (within_of sc) rows ≡ [] =
      rw bounded (none_kept sc.admin_prefixes rows all_mine) in
    rw (set_policy_outcome pl now c rows caller [] actor none planned table)
      (rw gone (may_write-writing pl k c [] anyone id ∙ ground arith))
