-- ===== src/Oauth/Flow.antt =====
-- The token endpoint of internal/oauth/flow.go, with the options of internal/oauth/oauth.go and
-- `SignAccessToken` of internal/oauth/jwt.go. A method takes the clock's readings in nanoseconds, in their order.
pub mod Mint
pub mod Exchange
pub mod Steps
pub mod Single
pub mod Rotate
pub mod Replay
pub mod KillSwitch
mod Tests
use fund_dashboard.Prelude.{
  ℕ, ◌+◌, ◌*◌, ◌/◌, ◌≡◌, Bool, true, false, ◌&&◌, ◌||◌, not, List, [], ◌∷◌, ◌++◌, Option, none,
  some, leb, ltb, ◌==◌, if◌then◌else◌, Bytes, bytes, beq, length, keep, second, hour, has_prefix,
}
use fund_dashboard.Go.Base64.{url, encode}
use fund_dashboard.Go.Text.{trim_space, trim_end, fields, join}
use fund_dashboard.Oauth.Pkce.{verify_code_verifier}
use fund_dashboard.Oauth.Signing.{Claims, Signer, signing_input, sign_es256}
use fund_dashboard.Oauth.State.{
  Grant, RefreshToken, Server, Failure, plain, invalid_request, invalid_grant,
  unsupported_grant_type, server_error, Outcome, success, failed, Flow, ◌>>=◌, ◌>>◌, pure, raise,
  as_server_error, read_random, unix,
}
use fund_dashboard.Oauth.Codes.{redeem, issue_grant}
use fund_dashboard.Oauth.Store.{
  token_id, new_refresh_token, insert_refresh_token, refresh_token_by_id, revoke_refresh_token,
  revoke_client_tokens,
}

abbrev pub scope_read : Bytes
scope_read = bytes "fund.read"

abbrev pub scope_write : Bytes
scope_write = bytes "fund.write"

pub record Options : Type 0 where
  pub public_base_url : Bytes
  pub resource_path : Bytes
  pub access_ttl : ℕ
  pub refresh_ttl : ℕ
  pub code_ttl : ℕ
  pub auto_approve : Bool
  pub allow_write_scope : Bool

pub with_defaults : Options → Options
with_defaults o =
    let path = if beq (trim_space o.resource_path) [] then bytes "/mcp" else o.resource_path in
    record o {
      resource_path = if not (has_prefix (bytes "/") path) then b'/' ∷ path else path;
      access_ttl = if o.access_ttl == 0 then hour else o.access_ttl;
      refresh_ttl = if o.refresh_ttl == 0 then 720 * hour else o.refresh_ttl;
      code_ttl = if o.code_ttl == 0 then 60 * second else o.code_ttl;
      public_base_url = trim_end b'/' (trim_space o.public_base_url);
    }

-- Whether there is a database, and whether a signing key is loaded.
pub record Service : Type 0 where
  pub options : Options
  pub has_store : Bool
  pub has_key : Bool

pub issuer_of : Service → Bytes → Bytes
issuer_of s fallback =
    if not (beq s.options.public_base_url [])
    then s.options.public_base_url
    else trim_end b'/' (trim_space fallback)

unfoldable pub resource_of : Service → Bytes → Bytes
resource_of s issuer = trim_end b'/' issuer ++ s.options.resource_path

abbrev pub is_present : Bytes → Bool
is_present s = not (beq s [])

unfoldable pub split_scopes : Bytes → List Bytes
split_scopes raw = if beq (trim_space raw) [] then [] else keep is_present (fields (trim_space raw))

unfoldable pub join_scopes : List Bytes → Bytes
join_scopes scopes = join b' ' scopes

-- `validateResource`, whose error is `none`.
unfoldable pub validate_resource : Service → Bytes → Bytes → Option Bytes
validate_resource s issuer requested =
    let canonical = resource_of s issuer in
    let r = trim_space requested in
    if beq r []
    then some canonical
    else if not (beq r canonical) && not (beq (trim_end b'/' r) canonical)
    then none
    else some canonical

pub record TokenRequest : Type 0 where
  pub grant_type : Bytes
  pub code : Bytes
  pub redirect_uri : Bytes
  pub client_id : Bytes
  pub code_verifier : Bytes
  pub refresh_token : Bytes
  pub scope : Bytes
  pub resource : Bytes

pub record TokenResponse : Type 0 where
  pub access_token : Bytes
  pub token_type : Bytes
  pub expires_in : ℕ
  pub refresh_token : Bytes
  pub scope : Bytes

pub random_id : Flow Bytes
random_id = do buf ← read_random; pure (encode url buf)

-- A scope list that is empty stands for read access.
pub or_read : List Bytes → List Bytes
or_read [] = scope_read ∷ []
or_read (x ∷ xs) = x ∷ xs

-- A value that a request may leave out, but not change.
pub differs : Bytes → Bytes → Bool
differs provided bound = is_present (trim_space provided) && not (beq (trim_space provided) bound)

module _ (c : Signer) (s : Service) where
  unfoldable pub compact : Bytes → Option Bytes → Flow Bytes
  compact input none = raise plain
  compact input (some raw) = pure (input ++ b'.' ∷ encode url raw)

  unfoldable pub sign_access_token : Claims → Flow Bytes
  sign_access_token claims = if not s.has_key then raise plain else do
    seed ← read_random
    let input = signing_input c claims
    compact input (sign_es256 c (c.sha256 input) seed)

  pub claims_of : ℕ → Bytes → Bytes → List Bytes → Bytes → Bytes → Claims
  claims_of now issuer client_id scopes resource jti = record {
    issuer = issuer;
    subject = bytes "fund-owner";
    audience = resource;
    client_id = client_id;
    scope = join_scopes scopes;
    expiry = unix (now + s.options.access_ttl);
    issued_at = unix now;
    jwt_id = jti;
    token_type = bytes "at+jwt";
  }

  -- A refresh token that cannot be stored is logged and left out of the response.
  response_after : TokenResponse → Bytes → Outcome (Unit {0}) → TokenResponse
  response_after r raw (success u) = record r { refresh_token = raw }
  response_after r raw (failed e) = r

  refresh_row : ℕ → Bytes → Bytes → List Bytes → Bytes → RefreshToken
  refresh_row now id client_id scopes resource = record {
    id = id;
    client_id = client_id;
    scope = join_scopes scopes;
    resource = resource;
    created_at = unix now;
    expires_at = unix (now + s.options.refresh_ttl);
    revoked_at = none;
  }

  store_refresh : RefreshToken → Bytes → TokenResponse → Flow TokenResponse
  store_refresh row raw r w =
      let stored = insert_refresh_token row w in (success (response_after r raw stored.0), stored.1)

  with_refresh : ℕ → Bytes → List Bytes → Bytes → TokenResponse → Flow TokenResponse
  with_refresh now client_id scopes resource r = if not s.has_store then pure r else do
    made ← as_server_error (new_refresh_token c.sha256)
    store_refresh (refresh_row now made.1 client_id scopes resource) made.0 r

  response_of : List Bytes → Bytes → TokenResponse
  response_of scopes access = record {
    access_token = access;
    token_type = bytes "Bearer";
    expires_in = s.options.access_ttl / second;
    refresh_token = [];
    scope = join_scopes scopes;
  }

  -- `issueTokens` once the scopes are settled.
  pub mint : ℕ → Bytes → Bytes → List Bytes → Bytes → Flow TokenResponse
  mint now issuer client_id scopes resource = do
    jti ← as_server_error random_id
    access ←
        as_server_error (sign_access_token (claims_of now issuer client_id scopes resource jti))
    with_refresh now client_id scopes resource (response_of scopes access)

  pub issue_tokens : ℕ → Bytes → Bytes → List Bytes → Bytes → Flow TokenResponse
  issue_tokens now issuer client_id scopes resource =
      mint now issuer client_id (or_read scopes) resource

  -- `exchangeCode` for what the code store gave.
  pub exchange_grant : ℕ → Bytes → TokenRequest → Option Grant → Flow TokenResponse
  exchange_grant now issuer req none = raise invalid_grant
  exchange_grant now issuer req (some g) =
      if differs req.client_id g.client_id
      then raise invalid_grant
      else if differs req.redirect_uri g.redirect_uri
      then raise invalid_grant
      else if not (verify_code_verifier c.sha256 req.code_verifier g.code_challenge)
      then raise invalid_grant
      else elim (validate_resource s issuer req.resource) [
        | none ↦ raise invalid_request
        | some canonical ↦ issue_tokens now issuer g.client_id g.scopes g.resource
      ]

  -- The clock is read for the code and again for the tokens.
  pub exchange_code : ℕ → ℕ → Bytes → TokenRequest → Flow TokenResponse
  exchange_code redeemed_at now issuer req =
      if beq (trim_space req.code) [] then raise invalid_request else λ w.
      let taken = redeem redeemed_at req.code w in exchange_grant now issuer req taken.0 taken.1

  -- `refresh` for what the store gave.
  pub rotate : ℕ → ℕ → Bytes → TokenRequest → Option RefreshToken → Flow TokenResponse
  rotate revoked_at now issuer req none = raise invalid_grant
  rotate revoked_at now issuer req (some t) =
      if differs req.client_id t.client_id
      then raise invalid_grant
      else elim (validate_resource s issuer req.resource) [
        | none ↦ raise invalid_request
        | some canonical ↦ do
          as_server_error (revoke_refresh_token t.id (unix revoked_at))
          issue_tokens now issuer t.client_id (split_scopes t.scope) t.resource
      ]

  pub refresh : ℕ → ℕ → ℕ → Bytes → TokenRequest → Flow TokenResponse
  refresh loaded_at revoked_at now issuer req =
      if beq (trim_space req.refresh_token) []
      then raise invalid_request
      else if not s.has_store
      then raise server_error
      else do
        stored ← as_server_error (
            refresh_token_by_id (token_id c.sha256 (trim_space req.refresh_token)) (unix loaded_at))
        rotate revoked_at now issuer req stored

  -- The first clock reading is of the code or the stored token, the second of the revocation.
  pub issue_token : ℕ → ℕ → ℕ → Bytes → TokenRequest → Flow TokenResponse
  issue_token first revoked_at now issuer req =
      let kind = trim_space req.grant_type in
      if beq kind (bytes "authorization_code")
      then exchange_code first now issuer req
      else if beq kind (bytes "refresh_token")
      then refresh first revoked_at now issuer req
      else if beq kind []
      then raise invalid_request
      else raise unsupported_grant_type

  pub revoke_token : ℕ → Bytes → Flow (Unit {0})
  revoke_token now token =
      if beq (trim_space token) [] || not s.has_store
      then pure tt
      else revoke_refresh_token (token_id c.sha256 (trim_space token)) (unix now)

  pub revoke_client : ℕ → Bytes → Flow (Unit {0})
  revoke_client now client_id =
      if not s.has_store then raise plain else revoke_client_tokens client_id (unix now)

-- The calls of the HTTP handlers that reach codes and refresh tokens, with the clock's readings.
pub data Call : Type 0 where
  issues_code : ℕ → Grant → Call
  issues_token : ℕ → ℕ → ℕ → Bytes → TokenRequest → Call
  revokes_token : ℕ → Bytes → Call
  revokes_client : ℕ → Bytes → Call

pub step : Signer → Service → Call → Server → Server
step c s (issues_code now g) w = (issue_grant s.options.code_ttl now g w).1
step c s (issues_token t u now issuer req) w = (issue_token c s t u now issuer req w).1
step c s (revokes_token now token) w = (revoke_token c s now token w).1
step c s (revokes_client now id) w = (revoke_client c s now id w).1

pub run : Signer → Service → List Call → Server → Server
run c s [] w = w
run c s (k ∷ ks) w = run c s ks (step c s k w)
