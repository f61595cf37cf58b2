-- ===== src/HttpAuth/Resolution.antt =====
-- What every answer of the resolution has in common.
use ochakai.Common.{
  ℕ, true, false, List, [], ◌∷◌, ◌≡◌, ◌≢◌, refl, sym, ap, ◌∙◌, ◌⊎◌, inl, inr, subst, arith,
  Bool-cases,
}
use ochakai.Common.Result.{Result, ok, err, bind-eq-ok, Result-cases, ◌>>=◌}
use ochakai.Text.{Bytes, codes, bytes_discrete}
use ochakai.Domain.Actor.{
  Actor, actor_string, valid_actor_kind, valid_producer, actor_human, actor_process,
}
use ochakai.HttpAuth.{
  AuthError, Refused, Header, AuthConfig, anonymous, anonymous_actor, unauthorized, permitted,
  one_value, parse_on_behalf_of, delegate, with_status, producer_from, caller_token, caller_from,
  actor_from_id_token, identity_actor, authenticated, actor_from_header, on_behalf_of_header,
}
use ochakai.HttpAuth.Delegation.{delegate_ok, delegate-nothing, delegate-something}

-- An actor that can be recorded.
pub record IsRecordable (a : Actor) : Type 0 where
  pub kind_valid : valid_actor_kind a.kind ≡ true
  pub name_given : a.name ≢ []

human-valid : valid_actor_kind actor_human ≡ true
unfolding valid_actor_kind bytes_discrete
human-valid = refl

process-valid : valid_actor_kind actor_process ≡ true
unfolding valid_actor_kind bytes_discrete
process-valid = refl

anonymous_actor-IsRecordable : IsRecordable anonymous_actor
anonymous_actor-IsRecordable = record { kind_valid = human-valid; name_given = λ e. cc }

delegate-IsRecordable :
    (caller : Actor) (headers delegators : List Bytes) {a : Actor}
    → IsRecordable caller
    → delegate caller headers delegators ≡ ok a
    → IsRecordable a
delegate-IsRecordable caller headers delegators r h =
    elim (delegate_ok caller headers delegators h) [
      | inl (_, e) ↦ subst IsRecordable (sym e) r
      | inr (_, d) ↦ record { kind_valid = d.named.kind_valid; name_given = d.named.name_given }
    ]

producer_from-valid :
    (h : Header) {p : Bytes} → producer_from h ≡ ok p → (p ≡ []) ⊎ (valid_producer p ≡ true)
unfolding producer_from
producer_from-valid h e = ground arith

-- A recordable actor with the producer it is recorded under.
abbrev pub IsRecorded : Actor → Type 0
IsRecorded a = IsRecordable a × ((a.producer ≡ []) ⊎ (valid_producer a.producer ≡ true))

ok-injective {ℓ} : {A : Type ℓ} {r : Result Refused A} {a b : A} → r ≡ ok a → r ≡ ok b → a ≡ b
ok-injective e f = cc

with_status-ok {ℓ} :
    {A : Type ℓ} (status : ℕ) (r : Result AuthError A) {a : A}
    → with_status status r ≡ ok a
    → r ≡ ok a
unfolding with_status
with_status-ok status (ok a) e = cc
with_status-ok status (err x) e = cc

module _ (email_claim : Bytes → Result AuthError Bytes) (cfg : AuthConfig) where
  caller_from-IsRecordable :
      (token : Bytes) {a : Actor} → caller_from email_claim cfg token ≡ ok a → IsRecordable a
  unfolding caller_from actor_from_id_token identity_actor
  caller_from-IsRecordable token e = ground (arith, human-valid, process-valid)

  -- What the request's own credential resolves to, and how the headers were read after it.
  pub record IsResolved (h : Header) (a : Actor) : Type 0 where
    pub token : Bytes
    pub caller : Actor
    pub taken : caller_token cfg h ≡ ok token
    pub resolved : caller_from email_claim cfg token ≡ ok caller
    pub delegated : delegate caller (h on_behalf_of_header) cfg.delegators ≡ ok a

  from_credential : Header → Result Refused Actor
  from_credential h = do
    token ← with_status unauthorized (caller_token cfg h)
    actor ← with_status unauthorized (caller_from email_claim cfg token)
    delegate actor (h on_behalf_of_header) cfg.delegators

  from_credential-IsResolved : (h : Header) {a : Actor} → from_credential h ≡ ok a → IsResolved h a
  unfolding from_credential
  from_credential-IsResolved h e =
      with_token (bind-eq-ok (with_status unauthorized (caller_token cfg h)) _ e)
    where
      with_caller :
          {a : Actor} (token : Bytes)
          → caller_token cfg h ≡ ok token
          → (caller : Actor) × (with_status unauthorized (caller_from email_claim cfg token)
              ≡ ok caller)
            × (delegate caller (h on_behalf_of_header) cfg.delegators ≡ ok a)
          → IsResolved h a
      with_caller token t (caller, c, d) = record {
        token = token;
        caller = caller;
        taken = t;
        resolved = with_status-ok unauthorized _ c;
        delegated = d;
      }

      with_token :
          {a : Actor}
          → (token : Bytes) × (with_status unauthorized (caller_token cfg h) ≡ ok token)
            × ((with_status unauthorized (caller_from email_claim cfg token) >>= λ actor.
                  delegate actor (h on_behalf_of_header) cfg.delegators)
                ≡ ok a)
          → IsResolved h a
      with_token (token, t, rest) =
          with_caller token (with_status-ok unauthorized _ t)
            (bind-eq-ok (with_status unauthorized (caller_from email_claim cfg token)) _ rest)

  authenticated-cases :
      (h : Header)
      → ((cfg.insecure_dev ≡ true)
          × (authenticated email_claim cfg h
              ≡ delegate anonymous_actor (h on_behalf_of_header) (codes "*" ∷ [])))
        ⊎ ((cfg.insecure_dev ≡ false) × (authenticated email_claim cfg h ≡ from_credential h))
  unfolding authenticated from_credential
  authenticated-cases h = elim (Bool-cases cfg.insecure_dev) [
    | inl e ↦ inl (e, rw e refl)
    | inr e ↦ inr (e, rw e refl)
  ]

  authenticated-IsRecordable :
      (h : Header) {a : Actor} → authenticated email_claim cfg h ≡ ok a → IsRecordable a
  authenticated-IsRecordable h e = elim (authenticated-cases h) [
    | inl (_, f) ↦
        delegate-IsRecordable anonymous_actor (h on_behalf_of_header) (codes "*" ∷ [])
          anonymous_actor-IsRecordable (sym f ∙ e)
    | inr (_, f) ↦ forwarded (from_credential-IsResolved h (sym f ∙ e))
  ]
    where
      forwarded : {a : Actor} → IsResolved h a → IsRecordable a
      forwarded r =
          delegate-IsRecordable r.caller (h on_behalf_of_header) cfg.delegators
            (caller_from-IsRecordable r.token r.resolved) r.delegated

  -- A request that is not anonymous is recorded as its actor and its producer.
  record IsSigned (h : Header) (a : Actor) : Type 0 where
    signer : Actor
    written : Bytes
    signed : authenticated email_claim cfg h ≡ ok signer
    produced : producer_from h ≡ ok written
    recorded : a ≡ record signer { producer = written }

  actor_from_header-IsSigned :
      (h : Header) {a : Actor}
      → anonymous cfg ≡ false
      → actor_from_header email_claim cfg h ≡ ok a
      → IsSigned h a
  unfolding actor_from_header
  actor_from_header-IsSigned h n e = elim (Result-cases (authenticated email_claim cfg h)) [
    | inl (b, s) ↦ elim (Result-cases (producer_from h)) [
      | inl (p, q) ↦ record {
        signer = b;
        written = p;
        signed = s;
        produced = q;
        recorded = ground arith;
      }
      | inr (x, q) ↦ absurd (ground arith)
    ]
    | inr (x, s) ↦ absurd (ground arith)
  ]

  actor_from_header-anonymous :
      (h : Header) → anonymous cfg ≡ true → actor_from_header email_claim cfg h ≡ ok anonymous_actor
  unfolding actor_from_header
  actor_from_header-anonymous h e = rw e refl

  -- Whoever a request is recorded as has a kind that is known, a name that is not empty and a
  -- producer that is empty or well formed.
  pub actor_from_header-IsRecorded :
      (h : Header) {a : Actor} → actor_from_header email_claim cfg h ≡ ok a → IsRecorded a
  actor_from_header-IsRecorded h e = elim (Bool-cases (anonymous cfg)) [
    | inl n ↦ nobody (ok-injective (actor_from_header-anonymous h n) e)
    | inr n ↦ signed (actor_from_header-IsSigned h n e)
  ]
    where
      signed : {a : Actor} → IsSigned h a → IsRecorded a
      signed s = subst IsRecorded (sym s.recorded) (
        record {
          kind_valid = (authenticated-IsRecordable h s.signed).kind_valid;
          name_given = (authenticated-IsRecordable h s.signed).name_given;
        },
        producer_from-valid h s.produced,
      )

      nobody : {a : Actor} → anonymous_actor ≡ a → IsRecorded a
      nobody e = subst IsRecorded e (anonymous_actor-IsRecordable, inl refl)

  -- The caller behind a record: its credential and, where it forwarded somebody, its permission.
  pub record HasCaller (h : Header) (a : Actor) : Type 0 where
    pub token : Bytes
    pub caller : Actor
    pub taken : caller_token cfg h ≡ ok token
    pub resolved : caller_from email_claim cfg token ≡ ok caller
    pub named :
        ((one_value (h on_behalf_of_header) ≡ []) × (a ≡ record caller { producer = a.producer }))
        ⊎ ((one_value (h on_behalf_of_header) ≢ [])
            × (permitted caller.name cfg.delegators ≡ true)
            × (b : Actor) × (parse_on_behalf_of (one_value (h on_behalf_of_header)) ≡ ok b)
            × (a ≡ record b { via = actor_string caller; producer = a.producer }))
    pub produced : producer_from h ≡ ok a.producer

  -- On a deployment that is neither anonymous nor in insecure development mode, a request that is
  -- let through carries a credential that resolves to a caller, and is recorded with the producer
  -- that its header gives. Where the on-behalf-of header is absent or blank, the record is that
  -- caller. Otherwise the caller is one that may delegate, and the record is the identity that the
  -- header parses to, with the caller beside it.
  pub actor_from_header-HasCaller :
      (h : Header) {a : Actor}
      → anonymous cfg ≡ false
      → cfg.insecure_dev ≡ false
      → actor_from_header email_claim cfg h ≡ ok a
      → HasCaller h a
  actor_from_header-HasCaller h n d e = signed (actor_from_header-IsSigned h n e)
    where
      produced :
          {a b caller : Actor} {p : Bytes}
          → a ≡ record b { producer = p }
          → b ≡ caller
          → a ≡ record caller { producer = a.producer }
      produced e same = cc

      forwarded :
          (caller : Actor) {a b : Actor} {p : Bytes}
          → a ≡ record b { producer = p }
          → (permitted caller.name cfg.delegators ≡ true)
            × ((c : Actor) × (parse_on_behalf_of (one_value (h on_behalf_of_header)) ≡ ok c)
                × (b ≡ record c { via = actor_string caller }))
          → (permitted caller.name cfg.delegators ≡ true)
            × (c : Actor) × (parse_on_behalf_of (one_value (h on_behalf_of_header)) ≡ ok c)
            × (a ≡ record c { via = actor_string caller; producer = a.producer })
      forwarded caller {a} {b} {p} e (allowed, (c, parsed, same)) = (
        allowed,
        c,
        parsed,
        e
            ∙ ap (λ (x : Actor). record x { producer = p }) same
            ∙ ap (λ q. record c { via = actor_string caller; producer = q })
                (sym (ap (λ (x : Actor). x.producer) e)),
      )

      resolve : {a : Actor} (s : IsSigned h a) → IsResolved h s.signer → HasCaller h a
      resolve s r = record {
        token = r.token;
        caller = r.caller;
        taken = r.taken;
        resolved = r.resolved;
        named = elim (bytes_discrete (one_value (h on_behalf_of_header)) []) [
          | yes blank ↦ inl (
            blank,
            produced s.recorded (
                delegate-nothing r.caller (h on_behalf_of_header) cfg.delegators blank r.delegated),
          )
          | no given ↦
              let (allowed, b, parsed, same) = forwarded r.caller s.recorded (
                delegate-something r.caller (h on_behalf_of_header) cfg.delegators given
                  r.delegated) in
              inr (given, allowed, b, parsed, same)
        ];
        produced = s.produced ∙ ap ok (sym (ap (λ x. x.producer) s.recorded));
      }

      signed : {a : Actor} → IsSigned h a → HasCaller h a
      signed s = elim (authenticated-cases h) [
        | inl (dev, _) ↦ absurd (cc)
        | inr (_, f) ↦ resolve s (from_credential-IsResolved h (sym f ∙ s.signed))
      ]
