-- ===== src/HttpAuth/Delegation.antt =====
-- A forwarded identity is recorded beside the caller that forwarded it, or refused.
use ochakai.Common.{
  true, false, List, [], Option, none, some, ◌≡◌, ◌≢◌, sym, ap, ◌⊎◌, inl, inr, subst, arith,
}
use ochakai.Common.Result.{ok, Result-cases}
use ochakai.Text.{Bytes, codes, bytes_discrete, cut, contains_any}
use ochakai.Domain.Actor.{Actor, actor_string, valid_actor_kind}
use ochakai.HttpAuth.{
  permitted, one_value, parse_on_behalf_of, delegate, on_behalf_parts, with_status,
}

-- An identity that a header may name.
pub record IsNamed (a : Actor) : Type 0 where
  pub kind_valid : valid_actor_kind a.kind ≡ true
  pub name_given : a.name ≢ []
  pub name_plain : contains_any a.name (codes " \t") ≡ false
  pub no_producer : a.producer ≡ []

on_behalf_parts-IsNamed :
    (p : Option (Bytes × Bytes)) {a : Actor} → on_behalf_parts p ≡ ok a → IsNamed a
unfolding on_behalf_parts
on_behalf_parts-IsNamed none h = absurd (cc)
on_behalf_parts-IsNamed (some (kind, given)) h = ground arith

pub parse_on_behalf_of-IsNamed : (v : Bytes) {a : Actor} → parse_on_behalf_of v ≡ ok a → IsNamed a
unfolding parse_on_behalf_of
parse_on_behalf_of-IsNamed v h = ground (arith, on_behalf_parts-IsNamed (cut v b':'))

-- The record of a delegated request.
pub record IsDelegated (caller : Actor) (delegators : List Bytes) (a : Actor) : Type 0 where
  pub allowed : permitted caller.name delegators ≡ true
  pub named : IsNamed a
  pub kept : a.via ≡ actor_string caller

pub with_via-IsNamed : {a : Actor} {via : Bytes} → IsNamed a → IsNamed (record a { via = via })
with_via-IsNamed n = record {
  kind_valid = n.kind_valid;
  name_given = n.name_given;
  name_plain = n.name_plain;
  no_producer = n.no_producer;
}

pub delegate-nothing :
    (caller : Actor) (headers delegators : List Bytes) {a : Actor}
    → one_value headers ≡ []
    → delegate caller headers delegators ≡ ok a
    → a ≡ caller
unfolding delegate
delegate-nothing caller headers delegators e h = ground arith

-- What stands behind a request that was let through with a header that is not blank.
pub delegate-something :
    (caller : Actor) (headers delegators : List Bytes) {a : Actor}
    → one_value headers ≢ []
    → delegate caller headers delegators ≡ ok a
    → (permitted caller.name delegators ≡ true)
      × ((b : Actor) × (parse_on_behalf_of (one_value headers) ≡ ok b)
          × (a ≡ record b { via = actor_string caller }))
unfolding delegate with_status
delegate-something caller headers delegators ne h =
    elim (Result-cases (parse_on_behalf_of (one_value headers))) [
      | inl (b, e) ↦ (ground arith, (b, e, ground arith))
      | inr (x, e) ↦ absurd (ground arith)
    ]

-- Where the header is there and not blank, a request that is let through was forwarded by a
-- permitted caller, and is recorded as a well-formed identity with the caller kept beside it. Where
-- it is absent or blank, the caller itself is recorded.
pub delegate_ok :
    (caller : Actor) (headers delegators : List Bytes) {a : Actor}
    → delegate caller headers delegators ≡ ok a
    → ((one_value headers ≡ []) × (a ≡ caller))
      ⊎ ((one_value headers ≢ []) × IsDelegated caller delegators a)
delegate_ok caller headers delegators h = elim (bytes_discrete (one_value headers) []) [
  | yes e ↦ inl (e, delegate-nothing caller headers delegators e h)
  | no ne ↦ inr (ne, forwarded (delegate-something caller headers delegators ne h))
]
  where
    forwarded :
        {a : Actor}
        → (permitted caller.name delegators ≡ true)
          × ((b : Actor) × (parse_on_behalf_of (one_value headers) ≡ ok b)
              × (a ≡ record b { via = actor_string caller }))
        → IsDelegated caller delegators a
    forwarded (p, (b, parsed, e)) = record {
      allowed = p;
      named =
          subst IsNamed (sym e)
            (with_via-IsNamed (parse_on_behalf_of-IsNamed (one_value headers) parsed));
      kept = ap (λ x. x.via) e;
    }
