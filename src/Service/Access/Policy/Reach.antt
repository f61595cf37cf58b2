-- ===== src/Service/Access/Policy/Reach.antt =====
-- How far a policy write reaches: the invariant of the table, the addresses whose access it can
-- change, who can write a first rule, and whom the rows name afterwards.
use ochakai.Common.{
  ℕ, Bool, true, false, ◌&&◌, List, [], ◌∷◌, ◌++◌, Option, ◌≡◌, refl, sym, subst, ◌∙◌, ◌⊎◌, inl,
  inr, arith, any-append, every, keep,
}
use ochakai.Common.Result.{ok, err, Result-cases}
use ochakai.Text.{Bytes}
use ochakai.Domain.Actor.{Actor, principal_of}
use ochakai.Domain.Access.{AccessRule, under}
use ochakai.Domain.Access.Under.{under_trans}
use ochakai.Store.Access.{is_inside, stamped}
use ochakai.Store.Access.Replace.{
  IsTable, outside_of, stamped_all, stamped_all-IsTable, carried, next_IsTable,
}
use ochakai.Service.Access.{
  Platform, Config, Database, no_store, unreachable, holds, Service, Fault, Scope, everything,
  under_any, applies, may_read, may_write,
}
use ochakai.Service.Access.Boundary.{
  granted, any_rule, reads, writes, is_empty, KeepsRows, may_read-reading, may_write-writing,
}
use ochakai.Service.Access.Policy.{within_of, plan_policy, set_policy}
use ochakai.Service.Access.Policy.Write.{
  plan_policy-Planned, Planned-IsTable, next_rows, set_policy_outcome,
}

module _ (principal id : Bytes) (test : AccessRule → Bool) where
  abbrev covering : AccessRule → Bool
  covering r = applies principal r && test r && under id r.prefix

  inside_covers :
      (r : AccessRule) (prefixes : List Bytes)
      → is_inside prefixes r ≡ true
      → under id r.prefix ≡ true
      → under_any id prefixes ≡ true
  inside_covers r [] h u = cc h
  inside_covers r (p ∷ ps) h u = ground (arith, inside_covers r ps, under_trans id r.prefix p u)

  -- Rules inside the prefixes say nothing of an address outside of them.
  inside_silent :
      (prefixes : List Bytes) (l : List AccessRule)
      → under_any id prefixes ≡ false
      → every (is_inside prefixes) l ≡ true
      → granted test principal l id ≡ false
  inside_silent prefixes [] o h = refl
  inside_silent prefixes (r ∷ l) o h =
      ground (arith, inside_silent prefixes l o, inside_covers r prefixes)

  outside_says :
      (prefixes : List Bytes) (l : List AccessRule)
      → under_any id prefixes ≡ false
      → granted test principal (keep (outside_of prefixes) l) id ≡ granted test principal l id
  outside_says prefixes [] o = refl
  outside_says prefixes (r ∷ l) o =
      ground (arith, outside_says prefixes l o, inside_covers r prefixes)

  stamped_says :
      (now : ℕ) (by : Actor) (l : List AccessRule)
      → ((r : AccessRule) → test (stamped now by r) ≡ test r)
      → granted test principal (stamped_all now by l) id ≡ granted test principal l id
  unfolding stamped
  stamped_says now by [] h = refl
  stamped_says now by (r ∷ l) h = ground (arith, stamped_says now by l h, h r)

  next_says :
      (now : ℕ) (by : Actor) (sc : Scope) (checked rows : List AccessRule)
      → ((r : AccessRule) → test (stamped now by r) ≡ test r)
      → everything sc ≡ false
      → every (is_inside sc.admin_prefixes) checked ≡ true
      → under_any id sc.admin_prefixes ≡ false
      → granted test principal (next_rows now by sc checked rows) id
        ≡ granted test principal rows id
  unfolding within_of
  next_says now by sc checked rows keeps_test e i o =
      stamped_says now by (checked ++ carried (within_of sc) rows) keeps_test
      ∙ any-append covering checked (carried (within_of sc) rows)
      ∙ rw e (
          ground (
            arith,
            inside_silent sc.admin_prefixes checked o i,
            outside_says sc.admin_prefixes rows o,
          ))

stamped-may_write :
    (now : ℕ) (by : Actor) (r : AccessRule) → (stamped now by r).may_write ≡ r.may_write
unfolding stamped
stamped-may_write now by r = refl

-- The invariant of the database: the rows of a store that can be read are a table.
abbrev pub IsSound : Database → Type 0
IsSound (holds rows) = IsTable rows
IsSound _ = Unit

module _ (pl : Platform) (now : ℕ) (c : Option Config) (caller : Actor) (rules : List AccessRule)
    (actor : Actor) (if_match : Option Bytes) where
  abbrev service : Database → Service
  service d = record { config = c; store = d }

  after_write : Database → Database
  after_write d = (set_policy pl now (service d) caller rules actor if_match).0.store

  refused_plan :
      (d : Database) (e : Fault)
      → plan_policy pl (service d) caller rules ≡ err e
      → after_write d ≡ d
  unfolding after_write set_policy
  refused_plan d e h = ground (arith, h)

  after_no_store : after_write no_store ≡ no_store
  unfolding after_write set_policy
  after_no_store = ground arith

  after_unreachable : after_write unreachable ≡ unreachable
  unfolding after_write set_policy
  after_unreachable = ground arith

  -- The rows afterwards are those before, or the next ones.
  after_holds :
      (rows : List AccessRule) {sc : Scope} {checked : List AccessRule}
      → plan_policy pl (service (holds rows)) caller rules ≡ ok (sc, checked)
      → IsTable rows
      → (after_write (holds rows) ≡ holds rows)
        ⊎ (after_write (holds rows) ≡ holds (next_rows now actor sc checked rows))
  unfolding after_write
  after_holds rows {sc} planned table =
      ground (arith, set_policy_outcome pl now c rows caller rules actor if_match planned table)

  next_sound :
      (rows : List AccessRule) {sc : Scope} {checked : List AccessRule}
      → plan_policy pl (service (holds rows)) caller rules ≡ ok (sc, checked)
      → IsTable rows
      → IsTable (next_rows now actor sc checked rows)
  next_sound rows {sc} {checked} planned table =
      let p = plan_policy-Planned pl (service (holds rows)) caller rules planned in
      stamped_all-IsTable now actor (checked ++ carried (within_of sc) rows) (
        next_IsTable (within_of sc) checked rows (Planned-IsTable pl _ caller rules p) table
          p.inside)

  IsSound-after_write : (d : Database) → IsSound d → IsSound (after_write d)
  IsSound-after_write no_store h = subst IsSound (sym after_no_store) tt
  IsSound-after_write unreachable h = subst IsSound (sym after_unreachable) tt
  IsSound-after_write (holds rows) h =
      elim (Result-cases (plan_policy pl (service (holds rows)) caller rules)) [
        | inr (e, refused) ↦ subst IsSound (sym (refused_plan (holds rows) e refused)) h
        | inl ((sc, checked), planned) ↦ elim (after_holds rows planned h) [
          | inl same ↦ subst IsSound (sym same) h
          | inr next ↦ subst IsSound (sym next) (next_sound rows planned h)
        ]
      ]

-- Whatever SetPolicy is given and answers, the rows stay well-formed grants under their key.
pub set_policy-IsSound :
    (pl : Platform) (now : ℕ) (s : Service) (caller : Actor) (rules : List AccessRule)
    (actor : Actor) (if_match : Option Bytes)
    → IsSound s.store
    → IsSound (set_policy pl now s caller rules actor if_match).0.store
unfolding after_write
set_policy-IsSound pl now s caller rules actor if_match h =
    IsSound-after_write pl now s.config caller rules actor if_match s.store h

holds-injective : {xs ys : List AccessRule} → holds xs ≡ holds ys → xs ≡ ys
holds-injective e = cc e

module _ (pl : Platform) (now : ℕ) (c : Option Config) (rows : List AccessRule) (caller : Actor)
    (rules : List AccessRule) (actor : Actor) (if_match : Option Bytes) {sc : Scope}
    {checked : List AccessRule}
    (planned : plan_policy pl (record { config = c; store = holds rows }) caller rules
      ≡ ok (sc, checked))
    (table : IsTable rows) where
  inside_prefixes : everything sc ≡ false → every (is_inside sc.admin_prefixes) checked ≡ true
  unfolding within_of
  inside_prefixes e = let p = plan_policy-Planned pl _ caller rules planned in rw e at p.inside

  -- The rules say the same at an address outside.
  next_coverage :
      (principal id : Bytes) {after : List AccessRule}
      → everything sc ≡ false
      → under_any id sc.admin_prefixes ≡ false
      → after_write pl now c caller rules actor if_match (holds rows) ≡ holds after
      → (reads principal after id ≡ reads principal rows id)
        × (writes principal after id ≡ writes principal rows id)
  next_coverage principal id {after} e o h =
      elim (after_holds pl now c caller rules actor if_match rows planned table) [
        | inl same ↦ rw (holds-injective (sym h ∙ same)) (refl, refl)
        | inr next ↦ rw (holds-injective (sym h ∙ next)) (
          next_says principal id any_rule now actor sc checked rows (λ _. refl) e
              (inside_prefixes e) o,
          next_says principal id (λ r. r.may_write) now actor sc checked rows
              (stamped-may_write now actor) e (inside_prefixes e) o,
        )
      ]

  -- A prefix administrator's write on a policy that holds rules both before and after it, or at
  -- neither time, leaves every caller's verdicts of MayRead and MayWrite as they were at every
  -- address outside the prefixes administered.
  pub set_policy-isolation :
      (k : KeepsRows pl) (who : Actor) (id : Bytes) {after : List AccessRule}
      → everything sc ≡ false
      → under_any id sc.admin_prefixes ≡ false
      → is_empty after ≡ is_empty rows
      → (set_policy pl now
          (record { config = c; store = holds rows })
          caller
          rules
          actor
          if_match).0.store
        ≡ holds after
      → (may_read pl (record { config = c; store = holds after }) who id
          ≡ may_read pl (record { config = c; store = holds rows }) who id)
        × (may_write pl (record { config = c; store = holds after }) who id
            ≡ may_write pl (record { config = c; store = holds rows }) who id)
  unfolding after_write
  set_policy-isolation k who id {after} e o m h =
      let (r, w) = next_coverage (principal_of who) id e o h in
      (
        may_read-reading pl k c after who id
            ∙ rw (r, m) (sym (may_read-reading pl k c rows who id)),
        may_write-writing pl k c after who id
            ∙ rw (r, w, m) (sym (may_write-writing pl k c rows who id)),
      )
