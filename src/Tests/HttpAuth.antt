-- ===== src/Tests/HttpAuth.antt =====
-- The resolution of callers on small requests.
use ochakai.Common.{false, List, [], ◌∷◌, Option, none, some, ◌≡◌, ◌≢◌, ◌⊎◌, refl, if◌then◌else◌}
use ochakai.Common.Result.{Result, ok, err}
use ochakai.Text.{Bytes, codes, ◌=?◌, bytes_discrete, cut, has_suffix}
use ochakai.Text.Split.{split}
use ochakai.Text.Space.{trim_space}
use ochakai.Domain.Actor.{Actor, valid_actor_kind, actor_string}
use ochakai.HttpAuth.{
  AuthError, Header, AuthConfig, Identity, first, authorization, serverless_authorization,
  on_behalf_of_header, bearer_from, caller_token, caller_from, actor_from_id_token, authenticated,
  actor_from_header, producer_from, delegate, one_value, parse_on_behalf_of, with_status,
  plain_actor, unauthorized, wrong_header,
}
use ochakai.HttpAuth.Tokens.{serverless_decides, authorization_decides}
use ochakai.HttpAuth.Resolution.{HasCaller, actor_from_header-HasCaller}

-- A decoder that reads the payload itself as the address.
abbrev claim : Bytes → Result AuthError Bytes
claim payload = ok payload

abbrev cloud_run : AuthConfig
cloud_run = record {
  public_read_only = false;
  sandbox = false;
  insecure_dev = false;
  delegators = codes "bot" ∷ [];
  verifier = none;
}

abbrev verify : Bytes → Option Identity
verify token = some (record { name = token; machine = false })

abbrev own_issuer : AuthConfig
own_issuer = record cloud_run { verifier = some verify }

-- A request of `bot`, with what stands in Authorization and in the on-behalf-of header.
abbrev request : Bytes → List Bytes → Header
request token behalf name =
    if name =? serverless_authorization
    then codes "Bearer x.bot.y" ∷ []
    else if name =? authorization
    then token ∷ []
    else if name =? on_behalf_of_header
    then behalf
    else []

abbrev request_bob : Header
request_bob = request [] (codes "human:bob" ∷ [])

abbrev bot : Actor
bot = plain_actor (codes "human") (codes "bot")

abbrev recorded_bob : Actor
recorded_bob = record {
  kind = codes "human";
  name = codes "bob";
  via = codes "human:bot";
  producer = [];
}

recorded : actor_from_header claim cloud_run request_bob ≡ ok recorded_bob
unfolding actor_from_header authenticated caller_token caller_from actor_from_id_token producer_from
    delegate parse_on_behalf_of with_status one_value bearer_from bytes_discrete split trim_space
    cut valid_actor_kind actor_string has_suffix
recorded = refl

delegated : delegate bot (codes "human:bob" ∷ []) (codes "bot" ∷ []) ≡ ok recorded_bob
unfolding delegate parse_on_behalf_of with_status one_value bytes_discrete trim_space cut
    valid_actor_kind actor_string
delegated = refl

actor_from_header-HasCaller_example : HasCaller claim cloud_run request_bob recorded_bob
actor_from_header-HasCaller_example =
    actor_from_header-HasCaller claim cloud_run request_bob refl refl recorded

checked-bot : bearer_from (first (request_bob serverless_authorization)) ≢ []
unfolding bearer_from bytes_discrete
checked-bot e = cc

serverless_decides_example :
    actor_from_header claim cloud_run request_bob
    ≡ actor_from_header claim cloud_run (request (codes "Bearer x.root.y") (codes "human:bob" ∷ []))
unfolding bytes_discrete
serverless_decides_example =
    serverless_decides claim cloud_run request_bob
      (request (codes "Bearer x.root.y") (codes "human:bob" ∷ []))
      (record { on_behalf = refl; producer = refl }) refl refl checked-bot

-- A request that shows its credential to the platform alone.
abbrev unshown : Bytes → Header
unshown checked name = if name =? serverless_authorization then checked ∷ [] else []

authorization_decides_example :
    (actor_from_header claim own_issuer (unshown [])
      ≡ actor_from_header claim own_issuer (unshown (codes "Bearer root")))
    ⊎ ((bearer_from (first (unshown [] authorization)) ≡ [])
        × ((actor_from_header claim own_issuer (unshown []) ≡ err (unauthorized, wrong_header))
            ⊎ (actor_from_header claim own_issuer (unshown (codes "Bearer root"))
                ≡ err (unauthorized, wrong_header))))
unfolding bytes_discrete
authorization_decides_example =
    authorization_decides claim own_issuer (unshown []) (unshown (codes "Bearer root")) verify
      (record { on_behalf = refl; producer = refl }) refl refl
