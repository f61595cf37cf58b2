-- ===== src/Domain/Access/Validate.antt =====
-- What ValidateAccessRules accepts, and the policy that it returns.
use ochakai.Common.{
  ◌≤◌, true, false, List, [], ◌∷◌, ◌++◌, map, ◌≡◌, ◌≢◌, refl, sym, ap, subst, ◌∙◌, ◌↔◌, ◌⊎◌, inl,
  inr, arith, append_assoc, append-nil, Bool-cases, any, All, length, ltb,
}
use ochakai.Common.Result.{ok, bind-eq-ok}
use ochakai.Common.Sorting.{
  sort, IsStrict, IsAscending, IsUntied, All-sort, sort-IsAscending, length-sort,
}
use ochakai.Text.{Bytes, ◌=?◌}
use ochakai.Text.Order.{str_lt_trans, str_lt_total, str_lt_asymm}
use ochakai.Domain.Segments.{valid_id_prefix}
use ochakai.Domain.Actor.{valid_principal}
use ochakai.Domain.Access.{
  AccessRule, max_access_rules, rule_key, rule_lt, cleaned, widened, check_rule, check_rules,
  validate_access_rules,
}

-- What every stored grant satisfies: a well-formed prefix and principal, administration only with
-- writing and never at the root.
pub record IsGrant (r : AccessRule) : Type 0 where
  pub prefix_valid : valid_id_prefix r.prefix ≡ true
  pub principal_valid : valid_principal r.principal ≡ true
  pub admin_writes : r.may_admin ≡ true → r.may_write ≡ true
  pub admin_below_root : r.may_admin ≡ true → r.prefix ≢ []

-- A policy: grants in ascending order, no two for one principal and prefix, and not too many.
pub record IsPolicy (rules : List AccessRule) : Type 0 where
  pub grants : All IsGrant rules
  pub ascending : IsAscending rule_lt rules
  pub bounded : length rules ≤ max_access_rules

-- No two rules have one prefix and principal.
abbrev pub HasKey : Bytes → AccessRule → Type 0
HasKey k r = k ≡ rule_key r

abbrev pub HasDistinctKeys : List AccessRule → Type 0
HasDistinctKeys [] = Unit
HasDistinctKeys (r ∷ rs) = All (λ s. rule_key r ≢ rule_key s) rs × HasDistinctKeys rs

pub rule_lt-IsStrict : IsStrict rule_lt
unfolding rule_lt
rule_lt-IsStrict = record {
  asymm =
      λ a b h. ground (arith, str_lt_asymm a.prefix b.prefix, str_lt_asymm a.principal b.principal);
  trans = λ a b c h k. ground (
    arith,
    str_lt_trans a.prefix b.prefix c.prefix,
    str_lt_trans a.principal b.principal c.principal,
    str_lt_asymm a.prefix b.prefix,
  );
}

rule_lt_total :
    (a b : AccessRule) → rule_key a ≢ rule_key b → (rule_lt a b ≡ true) ⊎ (rule_lt b a ≡ true)
unfolding rule_lt
rule_lt_total a b h =
    ground (arith, str_lt_total a.prefix b.prefix, str_lt_total a.principal b.principal)

All-total :
    (a : AccessRule) (bs : List AccessRule)
    → All (λ s. rule_key a ≢ rule_key s) bs
    → All (λ b. (rule_lt a b ≡ true) ⊎ (rule_lt b a ≡ true)) bs
All-total a [] h = tt
All-total a (b ∷ bs) (h, t) = (rule_lt_total a b h, All-total a bs t)

pub HasDistinctKeys-IsUntied : (rs : List AccessRule) → HasDistinctKeys rs → IsUntied rule_lt rs
HasDistinctKeys-IsUntied [] h = tt
HasDistinctKeys-IsUntied (r ∷ rs) (h, t) = (All-total r rs h, HasDistinctKeys-IsUntied rs t)

module _ (nfc : Bytes → Bytes) where
  -- The rule that is stored for a given one.
  abbrev pub accepted : AccessRule → AccessRule
  accepted r = widened nfc (cleaned nfc r)

  -- A given rule that is refused for nothing but its neighbours.
  pub record IsAcceptable (given : AccessRule) : Type 0 where
    pub prefix_valid : valid_id_prefix (cleaned nfc given).prefix ≡ true
    pub principal_valid : valid_principal (cleaned nfc given).principal ≡ true
    pub admin_below_root : given.may_admin ≡ true → (cleaned nfc given).prefix ≢ []

  root_valid : valid_id_prefix [] ≡ true
  unfolding valid_id_prefix
  root_valid = ground arith

  check_rule-ok :
      (given : AccessRule) {r : AccessRule}
      → check_rule nfc given ≡ ok r
      → (r ≡ accepted given) × IsGrant r × IsAcceptable given
  unfolding check_rule
  check_rule-ok given h = ground (arith, root_valid)

  check_rule_of_IsAcceptable :
      (given : AccessRule) → IsAcceptable given → check_rule nfc given ≡ ok (accepted given)
  unfolding check_rule
  check_rule_of_IsAcceptable given h = ground arith

  -- No key of the rules is among those seen.
  abbrev Fresh : List Bytes → List AccessRule → Type 0
  Fresh seen = All (λ r. any (λ k. k =? rule_key r) seen ≡ false)

  Fresh-cons :
      (k : Bytes) (seen : List Bytes) (rs : List AccessRule)
      → Fresh (k ∷ seen) rs
      → Fresh seen rs × All (λ r. k ≢ rule_key r) rs
  Fresh-cons k seen [] h = (tt, tt)
  Fresh-cons k seen (r ∷ rs) (h, t) =
      let (fresh, apart) = Fresh-cons k seen rs t in ((ground arith, fresh), (ground arith, apart))

  Fresh-join :
      (k : Bytes) (seen : List Bytes) (rs : List AccessRule)
      → Fresh seen rs
      → All (λ r. k ≢ rule_key r) rs
      → Fresh (k ∷ seen) rs
  Fresh-join k seen [] h a = tt
  Fresh-join k seen (r ∷ rs) (h, t) (a, b) = (ground arith, Fresh-join k seen rs t b)

  Fresh-nil : (rs : List AccessRule) → Fresh [] rs
  Fresh-nil [] = tt
  Fresh-nil (r ∷ rs) = (refl, Fresh-nil rs)

  -- What the loop adds to its output when it goes through.
  record Added (seen : List Bytes) (rest out res : List AccessRule) : Type 0 where
    adds : res ≡ out ++ map accepted rest
    grants : All IsGrant (map accepted rest)
    acceptable : All IsAcceptable rest
    fresh : Fresh seen (map accepted rest)
    distinct : HasDistinctKeys (map accepted rest)

  check_rules_step :
      (given : AccessRule) (rest : List AccessRule) (seen : List Bytes) (out : List AccessRule)
      {res : List AccessRule}
      → check_rules nfc seen out (given ∷ rest) ≡ ok res
      → (r : AccessRule) × (check_rule nfc given ≡ ok r)
        × (any (λ k. k =? rule_key r) seen ≡ false)
        × (check_rules nfc (rule_key r ∷ seen) (out ++ r ∷ []) rest ≡ ok res)
  unfolding check_rules
  check_rules_step given rest seen out h =
      let (r, e, later) = bind-eq-ok (check_rule nfc given) _ h in
      (r, e, ground arith, ground arith)

  check_rules-ok :
      (rest : List AccessRule) (seen : List Bytes) (out : List AccessRule) {res : List AccessRule}
      → check_rules nfc seen out rest ≡ ok res
      → Added seen rest out res
  check_rules-ok [] seen out h = record {
    adds = unfold check_rules in rw (append-nil out) (ground arith);
    grants = tt;
    acceptable = tt;
    fresh = tt;
    distinct = tt;
  }
  check_rules-ok (given ∷ rest) seen out h =
      let (r, e, new, later) = check_rules_step given rest seen out h in
      let (same, grant, acc) = check_rule-ok given e in
      let more = check_rules-ok rest (rule_key r ∷ seen) (out ++ r ∷ []) later in
      let (fresh, apart) = Fresh-cons (rule_key r) seen (map accepted rest) more.fresh in
      record {
        adds =
            more.adds
            ∙ append_assoc out (r ∷ []) (map accepted rest)
            ∙ ap (λ x. out ++ x ∷ map accepted rest) same;
        grants = (subst IsGrant same grant, more.grants);
        acceptable = (acc, more.acceptable);
        fresh = (subst (λ x. any (λ k. k =? rule_key x) seen ≡ false) same new, fresh);
        distinct = (
          subst (λ x. All (λ s. rule_key x ≢ rule_key s) (map accepted rest)) same apart,
          more.distinct,
        );
      }

  check_rules_complete :
      (rest : List AccessRule) (seen : List Bytes) (out : List AccessRule)
      → All IsAcceptable rest
      → Fresh seen (map accepted rest)
      → HasDistinctKeys (map accepted rest)
      → check_rules nfc seen out rest ≡ ok (out ++ map accepted rest)
  unfolding check_rules
  check_rules_complete [] seen out a f d = rw (append-nil out)
  check_rules_complete (given ∷ rest) seen out (a, as') (f, fs) (d, ds) =
      rw (check_rule_of_IsAcceptable given a) (
        rw f (
          check_rules_complete rest (rule_key (accepted given) ∷ seen) (out ++ accepted given ∷ [])
            as' (Fresh-join _ seen _ fs d) ds
          ∙ ap ok (append_assoc out (accepted given ∷ []) (map accepted rest))))

  -- The rules of a document that ValidateAccessRules takes.
  pub record IsAcceptableAll (rules : List AccessRule) : Type 0 where
    pub few : length rules ≤ max_access_rules
    pub each : All IsAcceptable rules
    pub distinct : HasDistinctKeys (map accepted rules)

  validate-parts :
      (rules : List AccessRule) {out : List AccessRule}
      → validate_access_rules nfc rules ≡ ok out
      → (length rules ≤ max_access_rules)
        × (out ≡ sort rule_lt (map accepted rules))
        × Added [] rules [] (map accepted rules)
  unfolding validate_access_rules
  validate-parts rules {out} h = elim (Bool-cases (ltb max_access_rules (length rules))) [
    | inl many ↦ absurd (ground arith)
    | inr few ↦
        let (res, run, e) = bind-eq-ok (check_rules nfc [] [] rules) _ (rw few at h) in
        let added = check_rules-ok rules [] [] run in
        (
          ground arith,
          sym (ground arith) ∙ ap (sort rule_lt) added.adds,
          subst (Added [] rules []) added.adds added,
        )
  ]

  length-map : (rules : List AccessRule) → length (map accepted rules) ≡ length rules
  length-map [] = refl
  length-map (r ∷ rs) = omega (arith, length-map rs)

  -- A policy that goes through holds the given rules, each as it is stored, in order; and it is
  -- well formed: valid grants, ascending, one for each principal and prefix, no more than the bound.
  pub validate-IsPolicy :
      (rules : List AccessRule) {out : List AccessRule}
      → validate_access_rules nfc rules ≡ ok out
      → (out ≡ sort rule_lt (map accepted rules)) × IsPolicy out
  validate-IsPolicy rules {out} h =
      let (few, e, added) = validate-parts rules h in
      let untied = HasDistinctKeys-IsUntied (map accepted rules) added.distinct in
      (
        e,
        subst IsPolicy (sym e) (record {
          grants = All-sort rule_lt IsGrant (map accepted rules) added.grants;
          ascending = sort-IsAscending rule_lt rule_lt-IsStrict (map accepted rules) untied;
          bounded = omega (arith, length-sort rule_lt (map accepted rules), length-map rules);
        }),
      )

  -- A document is accepted exactly when it has few enough rules, each acceptable, no two of which
  -- are stored under one prefix and principal.
  pub validate_iff :
      (rules : List AccessRule)
      → ((out : List AccessRule) × (validate_access_rules nfc rules ≡ ok out))
        ↔ IsAcceptableAll rules
  unfolding validate_access_rules
  validate_iff rules = (
    (λ w.
        let (few, e, added) = validate-parts rules w.1 in
        record { few = few; each = added.acceptable; distinct = added.distinct }),
    (λ a. (
      sort rule_lt (map accepted rules),
      ground (
        arith,
        a.few,
        check_rules_complete rules [] [] a.each (Fresh-nil (map accepted rules)) a.distinct,
      ),
    )),
  )
