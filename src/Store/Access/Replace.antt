-- ===== src/Store/Access/Replace.antt =====
-- The replacement of the rows: what it writes, and that the primary key is never violated by a
-- document that is well formed and lies inside the caller's prefixes.
use ochakai.Common.{
  ℕ, Bool, true, false, not, List, [], ◌∷◌, ◌++◌, map, Option, none, some, ◌≡◌, ◌≢◌, refl, ap, ◌∙◌,
  inl, inr, arith, append_assoc, append-nil, any, any-append, every, every-keep, keep, All,
  All-append, if◌then◌else◌, Bool-cases,
}
use ochakai.Common.Result.{ok, err}
use ochakai.Common.Sorting.{IsAscending}
use ochakai.Text.{Bytes, ◌=?◌, codes, trim}
use ochakai.Text.Order.{str_lt_irrefl}
use ochakai.Domain.Segments.Laws.{valid_id_prefix-lacks}
use ochakai.Domain.Actor.{Actor}
use ochakai.Domain.Access.{AccessRule, under, rule_key, rule_lt, access_policy_version}
use ochakai.Domain.Access.Validate.{IsGrant, HasDistinctKeys}
use ochakai.Domain.Access.Version.{cut_first}
use ochakai.Store.Access.{
  conflict, is_inside, partition_by_prefixes, stamped, insert_rows, visible_rules,
  replace_access_policy,
}

-- What the rows of access_rule satisfy: each is a grant, and the primary key is one.
pub record IsTable (rows : List AccessRule) : Type 0 where
  pub grants : All IsGrant rows
  pub keyed : HasDistinctKeys rows

abbrev pub outside_of : List Bytes → AccessRule → Bool
outside_of prefixes r = not (is_inside prefixes r)

pub partition_lem :
    (rules : List AccessRule) (prefixes : List Bytes)
    → partition_by_prefixes rules prefixes
      ≡ (keep (is_inside prefixes) rules, keep (outside_of prefixes) rules)
unfolding partition_by_prefixes
partition_lem [] prefixes = refl
partition_lem (r ∷ rs) prefixes = ground (arith, partition_lem rs prefixes)

-- The key is the pair of the prefix and the principal.
pub key_parts :
    (r s : AccessRule)
    → IsGrant r
    → IsGrant s
    → rule_key r ≡ rule_key s
    → (r.prefix ≡ s.prefix) × (r.principal ≡ s.principal)
key_parts r s g h e =
    cut_first 0 r.prefix s.prefix r.principal s.principal
      (valid_id_prefix-lacks 0 r.prefix (omega arith) g.prefix_valid)
      (valid_id_prefix-lacks 0 s.prefix (omega arith) h.prefix_valid) e

module _ (now : ℕ) (by : Actor) where
  abbrev pub stamped_all : List AccessRule → List AccessRule
  stamped_all = map (stamped now by)

  abbrev NotIn : List AccessRule → List AccessRule → Type 0
  NotIn table = All (λ r. any (λ s. rule_key s =? rule_key r) table ≡ false)

  NotIn-step :
      (table rs : List AccessRule) (r : AccessRule)
      → NotIn table rs
      → All (λ s. rule_key r ≢ rule_key s) rs
      → NotIn (table ++ stamped now by r ∷ []) rs
  unfolding stamped
  NotIn-step table [] r h k = tt
  NotIn-step table (s ∷ rs) r (h, hs) (k, ks) = (
    ground (arith, any-append (λ t. rule_key t =? rule_key s) table (stamped now by r ∷ [])),
    NotIn-step table rs r hs ks,
  )

  -- Rows with keys of their own all go in, stamped.
  insert_rows_total :
      (rs table : List AccessRule)
      → NotIn table rs
      → HasDistinctKeys rs
      → insert_rows now by table rs ≡ ok (table ++ stamped_all rs)
  unfolding insert_rows
  insert_rows_total [] table h d = rw (append-nil table)
  insert_rows_total (r ∷ rs) table (h, hs) (d, ds) = rw h (
      insert_rows_total rs (table ++ stamped now by r ∷ []) (NotIn-step table rs r hs d) ds
      ∙ ap ok (append_assoc table (stamped now by r ∷ []) (stamped_all rs)))

  NotIn-nil : (rs : List AccessRule) → NotIn [] rs
  NotIn-nil [] = tt
  NotIn-nil (r ∷ rs) = (refl, NotIn-nil rs)

  pub insert_all_total :
      (rs : List AccessRule) → HasDistinctKeys rs → insert_rows now by [] rs ≡ ok (stamped_all rs)
  insert_all_total rs d = insert_rows_total rs [] (NotIn-nil rs) d

  -- What goes in is what was given.
  pub insert_rows-ok :
      (rs table : List AccessRule) {res : List AccessRule}
      → insert_rows now by table rs ≡ ok res
      → res ≡ table ++ stamped_all rs
  unfolding insert_rows
  insert_rows-ok [] table h = rw append-nil (ground arith)
  insert_rows-ok (r ∷ rs) table {res} h =
      elim (Bool-cases (any (λ s. rule_key s =? rule_key r) table)) [
        | inl dup ↦ absurd (cc (rw dup at h))
        | inr new ↦
            insert_rows-ok rs (table ++ stamped now by r ∷ []) (rw new at h)
            ∙ append_assoc table (stamped now by r ∷ []) (stamped_all rs)
      ]

  stamped-IsGrant : (r : AccessRule) → IsGrant r → IsGrant (stamped now by r)
  unfolding stamped
  stamped-IsGrant r g = ground arith

  pub stamped_all-IsTable : (rs : List AccessRule) → IsTable rs → IsTable (stamped_all rs)
  stamped_all-IsTable rs t = record {
    grants = all_grants rs t.grants;
    keyed = all_keyed rs t.keyed;
  }
    where
      all_grants : (l : List AccessRule) → All IsGrant l → All IsGrant (stamped_all l)
      all_grants [] h = tt
      all_grants (r ∷ l) (h, hs) = (stamped-IsGrant r h, all_grants l hs)

      all_apart :
          (k : Bytes) (l : List AccessRule)
          → All (λ s. k ≢ rule_key s) l
          → All (λ s. k ≢ rule_key s) (stamped_all l)
      all_apart k [] h = tt
      all_apart k (r ∷ l) (h, hs) = (unfold stamped in h, all_apart k l hs)

      all_keyed : (l : List AccessRule) → HasDistinctKeys l → HasDistinctKeys (stamped_all l)
      all_keyed [] h = tt
      all_keyed (r ∷ l) (h, hs) = (unfold stamped in all_apart (rule_key r) l h, all_keyed l hs)

module _ (test : AccessRule → Bool) where
  All-keep {κ} : (P : AccessRule → Type κ) (rs : List AccessRule) → All P rs → All P (keep test rs)
  All-keep P [] h = tt
  All-keep P (r ∷ rs) (h, hs) = elim (Bool-cases (test r)) [
    | inl e ↦ rw e (h, All-keep P rs hs)
    | inr e ↦ rw e (All-keep P rs hs)
  ]

  keep-keyed : (rs : List AccessRule) → HasDistinctKeys rs → HasDistinctKeys (keep test rs)
  keep-keyed [] h = tt
  keep-keyed (r ∷ rs) (h, hs) = elim (Bool-cases (test r)) [
    | inl e ↦ rw e (All-keep _ rs h, keep-keyed rs hs)
    | inr e ↦ rw e (keep-keyed rs hs)
  ]

module _ (prefixes : List Bytes) where
  apart :
      (r : AccessRule) (rs : List AccessRule)
      → IsGrant r
      → All IsGrant rs
      → is_inside prefixes r ≡ true
      → every (outside_of prefixes) rs ≡ true
      → All (λ s. rule_key r ≢ rule_key s) rs
  apart r [] g gs i o = tt
  apart r (s ∷ rs) g (h, hs) i o =
      ((λ e. differ (key_parts r s g h e).0), apart r rs g hs i (ground arith))
    where
      differ : r.prefix ≡ s.prefix → ⊥
      differ e =
          let same : is_inside prefixes r ≡ is_inside prefixes s =
            ap (λ q. any (λ p. under q p) prefixes) e in
          ground arith

  -- Rules inside the prefixes and rules outside of them never meet in a key.
  join_keyed :
      (xs ys : List AccessRule)
      → IsTable xs
      → IsTable ys
      → every (is_inside prefixes) xs ≡ true
      → every (outside_of prefixes) ys ≡ true
      → HasDistinctKeys (xs ++ ys)
  join_keyed [] ys t u i o = u.keyed
  join_keyed (r ∷ xs) ys t u i o = (
    All-append _ xs ys t.keyed.0 (apart r ys t.grants.0 u.grants (ground arith) o),
    join_keyed xs ys (record { grants = t.grants.1; keyed = t.keyed.1 }) u (ground arith) o,
  )

-- The rules that a nil or a given `within` carries over.
abbrev pub carried : Option (List Bytes) → List AccessRule → List AccessRule
carried none rows = []
carried (some prefixes) rows = keep (outside_of prefixes) rows

abbrev pub AllInside : Option (List Bytes) → List AccessRule → Type 0
AllInside none rules = Unit
AllInside (some prefixes) rules = every (is_inside prefixes) rules ≡ true

visible_rules-carried :
    (rows : List AccessRule) (within : Option (List Bytes))
    → (visible_rules rows within).1 ≡ carried within rows
unfolding visible_rules
visible_rules-carried rows none = refl
visible_rules-carried rows (some prefixes) = rw partition_lem

pub next_IsTable :
    (within : Option (List Bytes)) (rules rows : List AccessRule)
    → IsTable rules
    → IsTable rows
    → AllInside within rules
    → IsTable (rules ++ carried within rows)
next_IsTable none rules rows t u i = rw append-nil t
next_IsTable (some prefixes) rules rows t u i =
    let kept : IsTable (keep (outside_of prefixes) rows) = record {
      grants = All-keep (outside_of prefixes) IsGrant rows u.grants;
      keyed = keep-keyed (outside_of prefixes) rows u.keyed;
    } in
    record {
      grants = All-append IsGrant rules _ t.grants kept.grants;
      keyed = join_keyed prefixes rules _ t kept i (every-keep (outside_of prefixes) rows);
    }

-- What the precondition says of the rows the caller was looking at.
abbrev pub match_fails : (Bytes → Bytes) → Option Bytes → List AccessRule → Bool
match_fails digest none visible = false
match_fails digest (some want) visible =
    not (access_policy_version digest visible =? trim want (codes "\""))

-- A well-formed document inside the caller's prefixes replaces exactly the rules that the caller
-- sees, whenever the precondition holds: no other refusal is left, the primary key among them.
pub replace_lem :
    (digest : Bytes → Bytes) (now : ℕ) (rows rules : List AccessRule) (by : Actor)
    (if_match : Option Bytes) (within : Option (List Bytes))
    → IsTable rules
    → IsTable rows
    → AllInside within rules
    → replace_access_policy digest now rows rules by if_match within ≡ (
        if match_fails digest if_match (visible_rules rows within).0
        then err (conflict (access_policy_version digest (visible_rules rows within).0))
        else ok (stamped_all now by (rules ++ carried within rows)))
unfolding replace_access_policy
replace_lem digest now rows rules by none within t u i =
    rw visible_rules-carried
      (insert_all_total now by _ (next_IsTable within rules rows t u i).keyed)
replace_lem digest now rows rules by (some want) within t u i = ground (
  arith,
  visible_rules-carried rows within,
  insert_all_total now by (rules ++ carried within rows)
      (next_IsTable within rules rows t u i).keyed,
)

ascending_differ :
    (r s : AccessRule) → IsGrant r → IsGrant s → rule_lt r s ≡ true → rule_key r ≢ rule_key s
unfolding rule_lt
ascending_differ r s g h lt e =
    let (p, q) = key_parts r s g h e in ground (arith, str_lt_irrefl s.principal)

ascending_apart :
    (r : AccessRule) (l : List AccessRule)
    → IsGrant r
    → All IsGrant l
    → All (λ s. rule_lt r s ≡ true) l
    → All (λ s. rule_key r ≢ rule_key s) l
ascending_apart r [] g gs k = tt
ascending_apart r (s ∷ l) g (h, hs) (k, ks) =
    (ascending_differ r s g h k, ascending_apart r l g hs ks)

-- Grants in ascending order have keys of their own.
pub ascending_keyed :
    (rs : List AccessRule) → All IsGrant rs → IsAscending rule_lt rs → HasDistinctKeys rs
ascending_keyed [] g h = tt
ascending_keyed (r ∷ rs) (g, gs) (h, hs) = (ascending_apart r rs g gs h, ascending_keyed rs gs hs)
