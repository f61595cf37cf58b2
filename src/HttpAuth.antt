-- ===== src/HttpAuth.antt =====
-- internal/httpauth/httpauth.go: who a request is recorded as. The headers are a function from a
-- canonical name to its values. `verify` is the deployment's own verifier, if it has one, and
-- `email_claim` reads the email claim of an unverified token's payload: both are parameters, and so
-- is what each answers.
pub mod Tokens
pub mod Delegation
pub mod Resolution
use ochakai.Common.{
  ℕ, ◌+◌, ◌-◌, Bool, true, false, not, ◌&&◌, ◌||◌, List, [], ◌∷◌, ◌++◌, Option, none, some, ltb,
  leb, ◌==◌, if◌then◌else◌, length, any, take, drop, map,
}
use ochakai.Common.Result.{Result, ok, err, ◌>>=◌, ◌>>◌, refuse}
use ochakai.Text.{Bytes, codes, ◌=?◌, cut, has_suffix, contains_any}
use ochakai.Text.Split.{split}
use ochakai.Text.Space.{trim_space}
use ochakai.Domain.Actor.{
  Actor, actor_string, actor_human, actor_process, valid_actor_kind, valid_producer, max_producer,
}

-- Why a request is refused.
pub data AuthError : Type 0 where
  sent_twice : Bytes → ℕ → AuthError
  not_a_delegator : Bytes → AuthError
  on_behalf_too_long on_behalf_malformed on_behalf_spaced producer_malformed : AuthError
  wrong_header names_nobody no_token malformed_token malformed_payload no_email : AuthError
  not_verified : AuthError

-- A refusal carries its HTTP status.
abbrev pub Refused : Type 0
Refused = ℕ × AuthError

abbrev pub bad_request : ℕ
bad_request = 400

abbrev pub unauthorized : ℕ
unauthorized = 401

abbrev pub forbidden_status : ℕ
forbidden_status = 403

abbrev pub Header : Type 0
Header = Bytes → List Bytes

abbrev pub on_behalf_of_header : Bytes
on_behalf_of_header = codes "Ochakai-On-Behalf-Of"

abbrev pub producer_header : Bytes
producer_header = codes "Ochakai-Producer"

abbrev pub authorization : Bytes
authorization = codes "Authorization"

abbrev pub serverless_authorization : Bytes
serverless_authorization = codes "X-Serverless-Authorization"

-- http.Header.Get: the first value, or the empty string.
abbrev pub first : List Bytes → Bytes
first [] = []
first (v ∷ _) = v

-- Identity, what a verifier makes of a token.
pub record Identity : Type 0 where
  pub name : Bytes
  pub machine : Bool

-- The part of config.Config that is read here; `verifier` is none where there is none.
pub record AuthConfig : Type 0 where
  pub public_read_only : Bool
  pub sandbox : Bool
  pub insecure_dev : Bool
  pub delegators : List Bytes
  pub verifier : Option (Bytes → Option Identity)

-- Config.Anonymous
abbrev pub anonymous : AuthConfig → Bool
anonymous cfg = cfg.public_read_only || cfg.sandbox

abbrev pub plain_actor : Bytes → Bytes → Actor
plain_actor kind name = record { kind = kind; name = name; via = []; producer = [] }

abbrev pub anonymous_actor : Actor
anonymous_actor = plain_actor actor_human (codes "anonymous")

-- An ASCII letter in lower case; no other character folds to a letter of "bearer ".
lower : ℕ → ℕ
lower c = if leb b'A' c && leb c b'Z' then c + 32 else c

-- bearerFrom
unfoldable pub bearer_from : Bytes → Bytes
unfolding lower
bearer_from header =
    if ltb 7 (length header) && map lower (take 7 header) =? codes "bearer "
    then drop 7 header
    else []

-- permitted
abbrev pub permitted : Bytes → List Bytes → Bool
permitted caller delegators = any (λ d. d =? codes "*" || d =? caller) delegators

abbrev pub max_on_behalf_of : ℕ
max_on_behalf_of = 320

-- What parseOnBehalfOf makes of the two halves of the value.
on_behalf_parts : Option (Bytes × Bytes) → Result AuthError Actor
on_behalf_parts none = err on_behalf_malformed
on_behalf_parts (some (kind, given)) =
    let name = trim_space given in
    if name =? [] || not (valid_actor_kind kind)
    then err on_behalf_malformed
    else if contains_any name (codes " \t")
    then err on_behalf_spaced
    else ok (plain_actor kind name)

-- parseOnBehalfOf
unfoldable pub parse_on_behalf_of : Bytes → Result AuthError Actor
unfolding on_behalf_parts
parse_on_behalf_of v =
    if ltb max_on_behalf_of (length v) then err on_behalf_too_long else on_behalf_parts (cut v b':')

-- The header's one value, trimmed.
unfoldable pub one_value : List Bytes → Bytes
one_value [] = []
one_value (v ∷ _) = trim_space v

unfoldable pub with_status {ℓ} : {A : Type ℓ} → ℕ → Result AuthError A → Result Refused A
with_status status (ok a) = ok a
with_status status (err e) = err (status, e)

-- delegate
unfoldable pub delegate : Actor → List Bytes → List Bytes → Result Refused Actor
unfolding one_value with_status
delegate caller headers delegators =
    let header = one_value headers in
    if ltb 1 (length headers)
    then err (bad_request, sent_twice on_behalf_of_header (length headers))
    else if header =? []
    then ok caller
    else if not (permitted caller.name delegators)
    then err (forbidden_status, not_a_delegator caller.name)
    else (do
      on_behalf ← with_status bad_request (parse_on_behalf_of header)
      ok (record on_behalf { via = actor_string caller }))

-- producerFrom
unfoldable pub producer_from : Header → Result AuthError Bytes
unfolding one_value
producer_from h =
    let values = h producer_header in
    let v = one_value values in
    if ltb 1 (length values)
    then err (sent_twice producer_header (length values))
    else if v =? []
    then ok []
    else if not (valid_producer v)
    then err producer_malformed
    else ok v

-- callerToken where the deployment verifies its own tokens.
own_token : Header → Result AuthError Bytes
own_token h =
    let token = bearer_from (first (h authorization)) in
    if not (token =? [])
    then ok token
    else if not (first (h serverless_authorization) =? [])
    then err wrong_header
    else ok []

-- callerToken where Cloud Run verified one.
platform_token : Header → Result AuthError Bytes
platform_token h =
    let token = bearer_from (first (h serverless_authorization)) in
    if not (token =? []) then ok token else ok (bearer_from (first (h authorization)))

-- callerToken
unfoldable pub caller_token : AuthConfig → Header → Result AuthError Bytes
unfolding own_token platform_token
caller_token cfg h = elim cfg.verifier [ some _ ↦ own_token h | none ↦ platform_token h ]

-- The payload, the second of the three parts of a token.
payload_of : List Bytes → Option Bytes
payload_of (a ∷ b ∷ c ∷ []) = some b
payload_of _ = none

module _ (email_claim : Bytes → Result AuthError Bytes) where
  -- actorFromIDToken; `email_claim` decodes the payload and reads the claim.
  unfoldable pub actor_from_id_token : Bytes → Result AuthError Actor
  unfolding payload_of
  actor_from_id_token token =
      if token =? [] then err no_token else elim (payload_of (split b'.' token)) [
        | none ↦ err malformed_token
        | some payload ↦ (do
          email ← email_claim payload
          if email =? []
              then err no_email
              else ok (
                  plain_actor
                    (if has_suffix email (codes ".gserviceaccount.com")
                      then actor_process
                      else actor_human)
                    email))
      ]

  -- What callerFrom makes of a verified identity.
  identity_actor : Option Identity → Result AuthError Actor
  identity_actor none = err not_verified
  identity_actor (some id) =
      if id.name =? []
      then err names_nobody
      else ok (plain_actor (if id.machine then actor_process else actor_human) id.name)

  -- callerFrom
  unfoldable pub caller_from : AuthConfig → Bytes → Result AuthError Actor
  unfolding identity_actor
  caller_from cfg token = elim cfg.verifier [
    | none ↦ actor_from_id_token token
    | some verify ↦ identity_actor (verify token)
  ]

  -- authenticated
  unfoldable pub authenticated : AuthConfig → Header → Result Refused Actor
  unfolding with_status
  authenticated cfg h =
      if cfg.insecure_dev
      then delegate anonymous_actor (h on_behalf_of_header) (codes "*" ∷ [])
      else (do
        token ← with_status unauthorized (caller_token cfg h)
        actor ← with_status unauthorized (caller_from cfg token)
        delegate actor (h on_behalf_of_header) cfg.delegators)

  -- ActorFromHeader
  unfoldable pub actor_from_header : AuthConfig → Header → Result Refused Actor
  unfolding with_status
  actor_from_header cfg h = if anonymous cfg then ok anonymous_actor else (do
    actor ← authenticated cfg h
    producer ← with_status bad_request (producer_from h)
    ok (record actor { producer = producer }))
