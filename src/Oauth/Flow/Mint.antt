-- ===== src/Oauth/Flow/Mint.antt =====
-- `issueTokens` of internal/oauth/flow.go: for whom and what it mints.
use fund_dashboard.Prelude.{ℕ, ◌≡◌, List, ◌∷◌, ◌++◌, Option, none, some, refl, not, Bytes}
use fund_dashboard.Go.Base64.{url, encode}
use fund_dashboard.Oauth.State.{
  Server, plain, Outcome, success, failed, Flow, ◌>>=◌, pure, raise, as_server_error, read_random,
}
use fund_dashboard.Oauth.State.Ensures.{
  IsGood, Ensures, Ensures-pure, Ensures-raise, Ensures-if, Ensures-bind, Ensures-as_server_error,
  Ensures-weaken,
}
use fund_dashboard.Oauth.Store.{new_refresh_token, insert_refresh_token}
use fund_dashboard.Oauth.Signing.{Signer, Claims, signing_input, sign_es256}
use fund_dashboard.Oauth.Flow.{
  Service, TokenResponse, join_scopes, random_id, compact, sign_access_token, claims_of,
  with_refresh, store_refresh, refresh_row, response_of, mint, response_after,
}

-- The access token carries claims on behalf of the client, for the resource and the scopes, and the
-- response names the same scopes.
pub IsFor : Signer → Bytes → List Bytes → Bytes → TokenResponse → Type 0
IsFor c client_id scopes resource r =
    (r.scope ≡ join_scopes scopes)
    × ((claims : Claims) × (claims.audience ≡ resource)
        × (claims.client_id ≡ client_id)
        × (claims.scope ≡ join_scopes scopes)
        × ((raw : Bytes) × (r.access_token ≡ signing_input c claims ++ b'.' ∷ encode url raw)))

abbrev pub Any : Server → Type 0
Any w = Unit

abbrev pub IsAnything : {A : Type 0} → A → Type 0
IsAnything a = Unit

pub any : {A : Type 0} (m : Flow A) → Ensures Any IsAnything m
any m w p = (tt, elim (m w).0 as (λ r. IsGood IsAnything r) [ success a ↦ tt | failed e ↦ tt ])

module _ (c : Signer) (s : Service) where
  abbrev IsToken : Claims → Bytes → Type 0
  IsToken claims t = (raw : Bytes) × (t ≡ signing_input c claims ++ b'.' ∷ encode url raw)

  -- The token carries the output of ECDSA for its signing input.
  abbrev pub IsSigned : Claims → Bytes → Type 0
  IsSigned claims t =
      (seed : Bytes) × (raw : Bytes) × (sign_es256 c (c.sha256 (signing_input c claims)) seed
        ≡ some raw)
      × (t ≡ signing_input c claims ++ b'.' ∷ encode url raw)

  compact-IsSigned :
      (claims : Claims) (seed : Bytes) (o : Option Bytes)
      → sign_es256 c (c.sha256 (signing_input c claims)) seed ≡ o
      → Ensures Any (IsSigned claims) (compact c s (signing_input c claims) o)
  unfolding compact
  compact-IsSigned claims seed none e w p = (tt, tt)
  compact-IsSigned claims seed (some raw) e w p = (tt, (seed, raw, e, refl))

  pub sign-IsSigned :
      (claims : Claims) → Ensures Any (IsSigned claims) (sign_access_token c s claims)
  unfolding sign_access_token
  sign-IsSigned claims =
      let input = signing_input c claims in
      let k : Bytes → Flow Bytes = λ seed. compact c s input (sign_es256 c (c.sha256 input) seed) in
      Ensures-if Any (IsSigned claims) (not s.has_key) (raise plain) (read_random >>= k)
        (Ensures-raise Any (IsSigned claims) plain)
        (λ e.
          Ensures-bind Any IsAnything (IsSigned claims) read_random k (any read_random)
            (λ seed q. compact-IsSigned claims seed (sign_es256 c (c.sha256 input) seed) refl))

  sign-IsToken : (claims : Claims) → Ensures Any (IsToken claims) (sign_access_token c s claims)
  sign-IsToken claims =
      Ensures-weaken Any (IsSigned claims) (IsToken claims) (sign_access_token c s claims)
        (λ t (seed, raw, e, same). (raw, same)) (sign-IsSigned claims)

  module _ (client_id : Bytes) (scopes : List Bytes) (resource : Bytes) where
    abbrev pub IsMade : TokenResponse → Type 0
    IsMade r = IsFor c client_id scopes resource r

    response_after-IsFor :
        (r : TokenResponse) (raw : Bytes) (o : Outcome (Unit {0}))
        → IsMade r
        → IsMade (response_after c s r raw o)
    unfolding response_after IsFor
    response_after-IsFor r raw (success u) h = h
    response_after-IsFor r raw (failed e) h = h

    with_refresh-IsFor :
        (now : ℕ) (r : TokenResponse)
        → IsMade r
        → Ensures Any IsMade (with_refresh c s now client_id scopes resource r)
    unfolding with_refresh store_refresh
    with_refresh-IsFor now r h =
        let make = as_server_error (new_refresh_token c.sha256) in
        let k : Bytes × Bytes → Flow TokenResponse = λ made.
          store_refresh c s (refresh_row c s now made.1 client_id scopes resource) made.0 r in
        Ensures-if Any IsMade (not s.has_store) (pure r) (make >>= k) (Ensures-pure Any IsMade r h)
          (λ e. Ensures-bind Any IsAnything IsMade make k (any make) (λ made q v u. (
            tt,
            response_after-IsFor r made.0
                (insert_refresh_token (refresh_row c s now made.1 client_id scopes resource) v).0 h,
          )))

    pub mint-IsFor :
        (now : ℕ) (issuer : Bytes)
        → Ensures Any IsMade (mint c s now issuer client_id scopes resource)
    unfolding mint
    mint-IsFor now issuer =
        let finish : Bytes → Flow TokenResponse = λ access.
          with_refresh c s now client_id scopes resource (response_of c s scopes access) in
        let claims : Bytes → Claims = claims_of c s now issuer client_id scopes resource in
        Ensures-bind Any IsAnything IsMade (as_server_error random_id)
          (λ jti. as_server_error (sign_access_token c s (claims jti)) >>= finish)
          (any (as_server_error random_id))
          (λ jti q.
            Ensures-bind Any (IsToken (claims jti)) IsMade
              (as_server_error (sign_access_token c s (claims jti))) finish
              (Ensures-as_server_error Any (IsToken (claims jti))
                (sign_access_token c s (claims jti)) (sign-IsToken (claims jti)))
              (λ access t.
                with_refresh-IsFor now (response_of c s scopes access) (
                  unfold IsFor response_of claims_of in (refl, (claims jti, refl, refl, refl, t)))))
