-- ===== src/Oauth/Flow/Steps.antt =====
-- Properties of the server's state that the calls of the token endpoint keep.
use fund_dashboard.Prelude.{
  ℕ, ◌+◌, not, ◌||◌, List, [], ◌∷◌, Option, none, some, Bytes, bytes, beq, if◌then◌else◌,
}
use fund_dashboard.Go.Base64.{url, encode}
use fund_dashboard.Go.Text.{trim_space}
use fund_dashboard.Oauth.Pkce.{verify_code_verifier}
use fund_dashboard.Oauth.State.{
  Grant, CodeEntry, RefreshToken, Server, Failure, plain, invalid_grant, invalid_request,
  server_error, unsupported_grant_type, success, Flow, ◌>>=◌, ◌>>◌, pure, raise, as_server_error,
  read_random, unix,
}
use fund_dashboard.Oauth.State.Ensures.{
  Ensures, Ensures-pure, Ensures-raise, Ensures-bind, Ensures-if, Ensures-elim,
  Ensures-as_server_error,
}
use fund_dashboard.Oauth.Codes.{redeem, issue_grant, put_code, sweep_expired_codes}
use fund_dashboard.Oauth.Store.{
  token_id, new_refresh_token, refresh_token_by_id, revoke_refresh_token, revoke_client_tokens,
}
use fund_dashboard.Oauth.Store.Keeps.{
  Anything, IsKept, IsPair, random-keeps, by_id-keeps, revoke-keeps, revoke_client-keeps,
  insert-keeps, new_token-keeps,
}
use fund_dashboard.Oauth.Signing.{Signer, Claims, signing_input, sign_es256}
use fund_dashboard.Oauth.Flow.{
  Service, TokenRequest, TokenResponse, or_read, differs, random_id, compact, sign_access_token,
  claims_of, refresh_row, store_refresh, with_refresh, response_of, mint, issue_tokens,
  exchange_grant, exchange_code, rotate, refresh, issue_token, revoke_token, revoke_client,
  validate_resource, split_scopes, Call, issues_code, issues_token, revokes_token, revokes_client,
  step, run,
}

-- A property that outlives all calls.
pub record IsClosed (sha256 : Bytes → Bytes) (P : Server → Type 0) (Q : Bytes → Type 0)
    : Type 0 where
  pub kept : IsKept sha256 P Q
  pub redeemed : (t : ℕ) (code : Bytes) (w : Server) → P w → P (redeem t code w).1
  pub issued :
      (b : Bytes) (t : ℕ) (e : CodeEntry) (w : Server)
      → Q b
      → P w
      → P (record w { codes = put_code (encode url b) e (sweep_expired_codes t w.codes) })

module _ (c : Signer) (s : Service) (P : Server → Type 0) (Q : Bytes → Type 0)
    (k : IsClosed c.sha256 P Q) where
  random : Ensures P Q read_random
  random = random-keeps c.sha256 P Q k.kept

  compact-keeps : (input : Bytes) (o : Option Bytes) → Ensures P Anything (compact c s input o)
  unfolding compact
  compact-keeps input none w p = (p, tt)
  compact-keeps input (some raw) w p = (p, tt)

  sign-keeps : (claims : Claims) → Ensures P Anything (sign_access_token c s claims)
  unfolding sign_access_token
  sign-keeps claims =
      let input = signing_input c claims in
      let k' : Bytes → Flow Bytes =
        λ seed. compact c s input (sign_es256 c (c.sha256 input) seed) in
      Ensures-if P Anything (not s.has_key) (raise plain) (read_random >>= k')
        (Ensures-raise P (Anything {A = Bytes}) plain)
        (λ e.
          Ensures-bind P Q Anything read_random k' random
            (λ seed q. compact-keeps input (sign_es256 c (c.sha256 input) seed)))

  random_id-keeps : Ensures P Anything random_id
  unfolding random_id
  random_id-keeps =
      Ensures-bind P Q Anything read_random (λ buf. pure (encode url buf)) random
        (λ b q. Ensures-pure P Anything (encode url b) tt)

  with_refresh-keeps :
      (now : ℕ) (client_id : Bytes) (scopes : List Bytes) (resource : Bytes) (r : TokenResponse)
      → Ensures P Anything (with_refresh c s now client_id scopes resource r)
  unfolding with_refresh store_refresh refresh_row
  with_refresh-keeps now client_id scopes resource r =
      let Pair = IsPair c.sha256 P Q k.kept in
      let make = as_server_error (new_refresh_token c.sha256) in
      let k' : Bytes × Bytes → Flow TokenResponse =
        λ made. store_refresh c s (refresh_row c s now made.1 client_id scopes resource) made.0 r in
      Ensures-if P Anything (not s.has_store) (pure r) (make >>= k') (Ensures-pure P Anything r tt)
        (λ e.
          Ensures-bind P Pair Anything make k'
            (Ensures-as_server_error P Pair (new_refresh_token c.sha256)
              (new_token-keeps c.sha256 P Q k.kept))
            (λ made pair v p. (
              (insert-keeps c.sha256 P Q k.kept pair.0
                  (refresh_row c s now made.1 client_id scopes resource) pair.1 pair.2 v p).0,
              tt,
            )))

  mint-keeps :
      (now : ℕ) (issuer client_id : Bytes) (scopes : List Bytes) (resource : Bytes)
      → Ensures P Anything (mint c s now issuer client_id scopes resource)
  unfolding mint
  mint-keeps now issuer client_id scopes resource =
      let finish : Bytes → Flow TokenResponse =
        λ access. with_refresh c s now client_id scopes resource (response_of c s scopes access) in
      let sign : Bytes → Flow Bytes = λ jti.
        as_server_error
          (sign_access_token c s (claims_of c s now issuer client_id scopes resource jti)) in
      Ensures-bind P Anything Anything (as_server_error random_id) (λ jti. sign jti >>= finish)
        (Ensures-as_server_error P Anything random_id random_id-keeps)
        (λ jti q.
          Ensures-bind P Anything Anything (sign jti) finish
            (Ensures-as_server_error P Anything
              (sign_access_token c s (claims_of c s now issuer client_id scopes resource jti))
              (sign-keeps (claims_of c s now issuer client_id scopes resource jti)))
            (λ access t.
              with_refresh-keeps now client_id scopes resource (response_of c s scopes access)))

  pub issue_tokens-keeps :
      (now : ℕ) (issuer client_id : Bytes) (scopes : List Bytes) (resource : Bytes)
      → Ensures P Anything (issue_tokens c s now issuer client_id scopes resource)
  unfolding issue_tokens
  issue_tokens-keeps now issuer client_id scopes resource =
      mint-keeps now issuer client_id (or_read scopes) resource

  pub exchange_grant-keeps :
      (now : ℕ) (issuer : Bytes) (req : TokenRequest) (o : Option Grant)
      → Ensures P Anything (exchange_grant c s now issuer req o)
  unfolding exchange_grant
  exchange_grant-keeps now issuer req none =
      Ensures-raise P (Anything {A = TokenResponse}) invalid_grant
  exchange_grant-keeps now issuer req (some g) =
      let bad = λ (e : Failure). Ensures-raise P (Anything {A = TokenResponse}) e in
      let made : Flow TokenResponse = issue_tokens c s now issuer g.client_id g.scopes g.resource in
      let last : Flow TokenResponse = elim (validate_resource s issuer req.resource) [
        | none ↦ raise invalid_request
        | some canonical ↦ made
      ] in
      let third : Flow TokenResponse =
        if not (verify_code_verifier c.sha256 req.code_verifier g.code_challenge)
        then raise invalid_grant
        else last in
      let second : Flow TokenResponse =
        if differs req.redirect_uri g.redirect_uri then raise invalid_grant else third in
      Ensures-if P Anything (differs req.client_id g.client_id) (raise invalid_grant) second
        (bad invalid_grant)
        (λ e.
          Ensures-if P Anything (differs req.redirect_uri g.redirect_uri) (raise invalid_grant)
            third (bad invalid_grant)
            (λ e'.
              Ensures-if P Anything
                (not (verify_code_verifier c.sha256 req.code_verifier g.code_challenge))
                (raise invalid_grant) last (bad invalid_grant)
                (λ e''.
                  Ensures-elim P Anything (validate_resource s issuer req.resource)
                    (raise invalid_request) (λ canonical. made) (bad invalid_request)
                    (λ canonical q.
                      issue_tokens-keeps now issuer g.client_id g.scopes g.resource))))

  exchange_code-keeps :
      (t now : ℕ) (issuer : Bytes) (req : TokenRequest)
      → Ensures P Anything (exchange_code c s t now issuer req)
  unfolding exchange_code
  exchange_code-keeps t now issuer req =
      let go : Flow TokenResponse =
        λ w. let taken = redeem t req.code w in exchange_grant c s now issuer req taken.0 taken.1 in
      Ensures-if P Anything (beq (trim_space req.code) []) (raise invalid_request) go
        (Ensures-raise P (Anything {A = TokenResponse}) invalid_request)
        (λ e w p.
          exchange_grant-keeps now issuer req (redeem t req.code w).0 (redeem t req.code w).1
            (k.redeemed t req.code w p))

  rotate-keeps :
      (t now : ℕ) (issuer : Bytes) (req : TokenRequest) (o : Option RefreshToken)
      → Ensures P Anything (rotate c s t now issuer req o)
  unfolding rotate
  rotate-keeps t now issuer req none = Ensures-raise P (Anything {A = TokenResponse}) invalid_grant
  rotate-keeps t now issuer req (some r) =
      let revoke = as_server_error (revoke_refresh_token r.id (unix t)) in
      let made : Flow TokenResponse =
        issue_tokens c s now issuer r.client_id (split_scopes r.scope) r.resource in
      let last : Flow TokenResponse = revoke >> made in
      Ensures-if P Anything (differs req.client_id r.client_id) (raise invalid_grant)
        (elim (validate_resource s issuer req.resource) [
          | none ↦ raise invalid_request
          | some canonical ↦ last
        ])
        (Ensures-raise P (Anything {A = TokenResponse}) invalid_grant)
        (λ e.
          Ensures-elim P Anything (validate_resource s issuer req.resource) (raise invalid_request)
            (λ canonical. last) (Ensures-raise P (Anything {A = TokenResponse}) invalid_request)
            (λ canonical q.
              Ensures-bind P Anything Anything revoke (λ u. made)
                (Ensures-as_server_error P Anything (revoke_refresh_token r.id (unix t))
                  (revoke-keeps c.sha256 P Q k.kept r.id (unix t)))
                (λ u v.
                  issue_tokens-keeps now issuer r.client_id (split_scopes r.scope) r.resource)))

  refresh-keeps :
      (t u now : ℕ) (issuer : Bytes) (req : TokenRequest)
      → Ensures P Anything (refresh c s t u now issuer req)
  unfolding refresh
  refresh-keeps t u now issuer req =
      let id = token_id c.sha256 (trim_space req.refresh_token) in
      let load = as_server_error (refresh_token_by_id id (unix t)) in
      let k' : Option RefreshToken → Flow TokenResponse = rotate c s u now issuer req in
      Ensures-if P Anything (beq (trim_space req.refresh_token) []) (raise invalid_request)
        (if not s.has_store then raise server_error else load >>= k')
        (Ensures-raise P (Anything {A = TokenResponse}) invalid_request)
        (λ e.
          Ensures-if P Anything (not s.has_store) (raise server_error) (load >>= k')
            (Ensures-raise P (Anything {A = TokenResponse}) server_error)
            (λ e'.
              Ensures-bind P Anything Anything load k'
                (Ensures-as_server_error P Anything (refresh_token_by_id id (unix t))
                  (by_id-keeps c.sha256 P Q k.kept id (unix t)))
                (λ o q. rotate-keeps u now issuer req o)))

  issue_token-keeps :
      (t u now : ℕ) (issuer : Bytes) (req : TokenRequest)
      → Ensures P Anything (issue_token c s t u now issuer req)
  unfolding issue_token
  issue_token-keeps t u now issuer req =
      let kind = trim_space req.grant_type in
      let bad = λ (e : Failure). Ensures-raise P (Anything {A = TokenResponse}) e in
      let last : Flow TokenResponse =
        if beq kind [] then raise invalid_request else raise unsupported_grant_type in
      let second : Flow TokenResponse =
        if beq kind (bytes "refresh_token") then refresh c s t u now issuer req else last in
      Ensures-if P Anything (beq kind (bytes "authorization_code"))
        (exchange_code c s t now issuer req) second (exchange_code-keeps t now issuer req)
        (λ e.
          Ensures-if P Anything (beq kind (bytes "refresh_token")) (refresh c s t u now issuer req)
            last (refresh-keeps t u now issuer req)
            (λ e'.
              Ensures-if P Anything (beq kind []) (raise invalid_request)
                (raise unsupported_grant_type) (bad invalid_request)
                (λ e''. bad unsupported_grant_type)))

  step-keeps : (call : Call) (w : Server) → P w → P (step c s call w)
  unfolding step issue_grant revoke_token revoke_client
  step-keeps (issues_code t g) w p =
      (Ensures-bind P Q (Anything {A = Bytes}) read_random
        (λ buf v. (
          success (encode url buf),
          record v {
            codes =
                put_code (encode url buf)
                  (record { grant = g; expires_at = t + s.options.code_ttl })
                  (sweep_expired_codes t v.codes);
          },
        ))
        random
        (λ b q v p'.
          (k.issued b t (record { grant = g; expires_at = t + s.options.code_ttl }) v q p', tt))
        w p).0
  step-keeps (issues_token t u now issuer req) w p = (issue_token-keeps t u now issuer req w p).0
  step-keeps (revokes_token t token) w p =
      let id = token_id c.sha256 (trim_space token) in
      (Ensures-if P Anything (beq (trim_space token) [] || not s.has_store) (pure tt)
        (revoke_refresh_token id (unix t)) (Ensures-pure P Anything tt tt)
        (λ e. revoke-keeps c.sha256 P Q k.kept id (unix t)) w p).0
  step-keeps (revokes_client t id) w p =
      (Ensures-if P Anything (not s.has_store) (raise plain) (revoke_client_tokens id (unix t))
        (Ensures-raise P (Anything {A = Unit {0}}) plain)
        (λ e. revoke_client-keeps c.sha256 P Q k.kept id (unix t)) w p).0

  pub run-keeps : (calls : List Call) (w : Server) → P w → P (run c s calls w)
  unfolding run
  run-keeps [] w p = p
  run-keeps (call ∷ calls) w p = run-keeps calls (step c s call w) (step-keeps call w p)
