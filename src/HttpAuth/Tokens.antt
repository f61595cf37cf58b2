-- ===== src/HttpAuth/Tokens.antt =====
-- The header that nobody checked never decides who a request is recorded as.
use ochakai.Common.{
  true, false, [], Option, none, some, ◌≡◌, ◌≢◌, refl, sym, ap, ◌∙◌, ◌⊎◌, inl, inr, arith,
  Bool-cases,
}
use ochakai.Common.Result.{Result, ok, err}
use ochakai.Text.{Bytes}
use ochakai.HttpAuth.{
  AuthError, Header, AuthConfig, Identity, first, authorization, serverless_authorization,
  on_behalf_of_header, producer_header, bearer_from, caller_token, authenticated, actor_from_header,
  producer_from, anonymous, unauthorized, wrong_header, with_status,
}

-- Two requests that carry the same self-declared headers.
pub record SameDeclared (h k : Header) : Type 0 where
  pub on_behalf : h on_behalf_of_header ≡ k on_behalf_of_header
  pub producer : h producer_header ≡ k producer_header

module _ (email_claim : Bytes → Result AuthError Bytes) (cfg : AuthConfig) (h k : Header)
    (same : SameDeclared h k) where
  same_token :
      caller_token cfg h ≡ caller_token cfg k
      → actor_from_header email_claim cfg h ≡ actor_from_header email_claim cfg k
  unfolding actor_from_header authenticated producer_from
  same_token e = rw (e, same.on_behalf, same.producer) refl

  -- On Cloud Run, where the platform checked X-Serverless-Authorization: a request whose checked
  -- header holds a credential is recorded the same whatever stands in Authorization.
  pub serverless_decides :
      cfg.verifier ≡ none
      → h serverless_authorization ≡ k serverless_authorization
      → bearer_from (first (h serverless_authorization)) ≢ []
      → actor_from_header email_claim cfg h ≡ actor_from_header email_claim cfg k
  serverless_decides v e ne = same_token token
    where
      token : caller_token cfg h ≡ caller_token cfg k
      token = unfold caller_token in ground arith

  -- Where the deployment checks its callers, the answer follows the token.
  from_token :
      {e : AuthError}
      → anonymous cfg ≡ false
      → cfg.insecure_dev ≡ false
      → caller_token cfg h ≡ err e
      → actor_from_header email_claim cfg h ≡ err (unauthorized, e)
  unfolding actor_from_header authenticated with_status
  from_token n d e = ground (arith, n, d, e)

  -- Without a check of its callers, the deployment reads no token.
  unread :
      (anonymous cfg ≡ true) ⊎ (cfg.insecure_dev ≡ true)
      → actor_from_header email_claim cfg h ≡ actor_from_header email_claim cfg k
  unfolding actor_from_header authenticated producer_from
  unread (inl n) = rw n refl
  unread (inr d) = rw (d, same.on_behalf, same.producer) refl

own_token-cases :
    (cfg : AuthConfig) (h : Header) (verify : Bytes → Option Identity)
    → cfg.verifier ≡ some verify
    → (caller_token cfg h ≡ ok (bearer_from (first (h authorization))))
      ⊎ ((bearer_from (first (h authorization)) ≡ []) × (caller_token cfg h ≡ err wrong_header))
unfolding caller_token
own_token-cases cfg h verify v = ground arith

-- With a verifier of its own, whatever two requests with the same Authorization and the same
-- self-declared headers hold in X-Serverless-Authorization: they are answered alike, or their
-- Authorization holds no credential and one of them is refused for the header it used.
pub authorization_decides :
    (email_claim : Bytes → Result AuthError Bytes) (cfg : AuthConfig) (h k : Header)
    (verify : Bytes → Option Identity)
    → SameDeclared h k
    → cfg.verifier ≡ some verify
    → h authorization ≡ k authorization
    → (actor_from_header email_claim cfg h ≡ actor_from_header email_claim cfg k)
      ⊎ ((bearer_from (first (h authorization)) ≡ [])
          × ((actor_from_header email_claim cfg h ≡ err (unauthorized, wrong_header))
              ⊎ (actor_from_header email_claim cfg k ≡ err (unauthorized, wrong_header))))
authorization_decides email_claim cfg h k verify same v e = elim (Bool-cases (anonymous cfg)) [
  | inl n ↦ inl (unread email_claim cfg h k same (inl n))
  | inr n ↦ elim (Bool-cases cfg.insecure_dev) [
    | inl d ↦ inl (unread email_claim cfg h k same (inr d))
    | inr d ↦ elim (own_token-cases cfg h verify v) [
      | inr (blank, x) ↦ inr (blank, inl (from_token email_claim cfg h k same n d x))
      | inl t ↦ elim (own_token-cases cfg k verify v) [
        | inr (blank, x) ↦ inr (
          ap (λ z. bearer_from (first z)) e ∙ blank,
          inr (from_token email_claim cfg k h (flipped same) n d x),
        )
        | inl u ↦ inl (
            same_token email_claim cfg h k same
              (t ∙ ap (λ z. ok (bearer_from (first z))) e ∙ sym u))
      ]
    ]
  ]
]
  where
    flipped : {h k : Header} → SameDeclared h k → SameDeclared k h
    flipped s = record { on_behalf = sym s.on_behalf; producer = sym s.producer }
