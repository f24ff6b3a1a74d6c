-- ===== src/Oauth/Flow/Tests.antt =====
-- internal/oauth/pkce.go and internal/oauth/flow.go on concrete requests.
use fund_dashboard.Oauth.Flow.KillSwitch.{revoke_client_kills}
use fund_dashboard.Prelude.{
  ◌*◌, ◌≡◌, ◌≢◌, ◌≤◌, ◌<◌, ◌↔◌, ◌⊎◌, true, false, [], ◌∷◌, none, some, refl, arith, Bytes, bytes,
  beq, second, hour, All, length, if◌then◌else◌,
}
use fund_dashboard.Go.Base64.{url, encode}
use fund_dashboard.Go.Text.{trim_space, trim_end, fields, join, hex}
use fund_dashboard.Oauth.Pkce.{s256, verify_code_verifier, subtle_equal, same_bytes}
use fund_dashboard.Oauth.Pkce.Checks.{verify_code_verifier_iff}
use fund_dashboard.Oauth.State.{Grant, CodeEntry, RefreshToken, Server, success, query, unix}
use fund_dashboard.Oauth.Codes.{redeem, redeem_entry, live_code}
use fund_dashboard.Oauth.Store.{
  revoke_client_tokens, token_id, new_refresh_token, insert_refresh_token, find_token, usable,
  scanned, refresh_token_by_id, revoke_refresh_token, revoke_where, sweep_expired_refresh_tokens,
}
use fund_dashboard.Oauth.Signing.{Signer, signing_input, sign_es256}
use fund_dashboard.Oauth.Flow.{
  revoke_client, Service, TokenRequest, TokenResponse, scope_read, or_read, split_scopes,
  join_scopes, exchange_code, refresh, run, revokes_client, differs, validate_resource, resource_of,
  exchange_grant, issue_tokens, mint, random_id, sign_access_token, compact, claims_of, response_of,
  with_refresh, store_refresh, refresh_row, response_after, rotate,
}
use fund_dashboard.Oauth.Flow.Mint.{IsFor}
use fund_dashboard.Oauth.Flow.Exchange.{exchange_code_sound}
use fund_dashboard.Oauth.Flow.Single.{IsOther, code_once}
use fund_dashboard.Oauth.Flow.Rotate.{refresh_sound}
use fund_dashboard.Oauth.Flow.Replay.{IsOtherId, refresh_once}

abbrev verifier : Bytes
verifier = bytes "abcdefghijklmnopqrstuvwxyz0123456789abcdefghijk"

-- Stand-ins for SHA-256, JSON and ECDSA.
abbrev signer : Signer
signer = record {
  kid = bytes "k";
  sha256 = λ s. length s ∷ [];
  header_json = λ h. h.kid;
  claims_json = λ c. c.client_id;
  sign_asn1 = λ d s. some s;
  read_asn1 = λ der. some (der, 7 ∷ []);
}

abbrev service : Service
service = record {
  options = record {
    public_base_url = bytes "https://f";
    resource_path = bytes "/mcp";
    access_ttl = hour;
    refresh_ttl = 720 * hour;
    code_ttl = 60 * second;
    auto_approve = true;
    allow_write_scope = false;
  };
  has_store = true;
  has_key = true;
}

abbrev grant : Grant
grant = record {
  client_id = bytes "cli";
  redirect_uri = bytes "https://c/cb";
  scopes = scope_read ∷ [];
  resource = bytes "https://f/mcp";
  code_challenge = bytes "Lw";
  code_challenge_method = s256;
  session_id = [];
  authorized_at = 0;
}

abbrev entry : CodeEntry
entry = record { grant = grant; expires_at = 60 * second }

abbrev stored : RefreshToken
stored = record {
  id = bytes "05";
  client_id = bytes "cli";
  scope = scope_read;
  resource = bytes "https://f/mcp";
  created_at = 0;
  expires_at = 9000;
  revoked_at = none;
}

abbrev server : Server
server = record {
  codes = λ k. if beq k (bytes "code") then some entry else none;
  screens = λ k. none;
  clients = [];
  tokens = stored ∷ [];
  approvals = [];
  signing_key = none;
  faults = [];
  entropy = some (0 ∷ []) ∷ some (1 ∷ []) ∷ some (2 ∷ []) ∷ [];
}

abbrev request : TokenRequest
request = record {
  grant_type = bytes "authorization_code";
  code = bytes "code";
  redirect_uri = [];
  client_id = bytes "cli";
  code_verifier = verifier;
  refresh_token = bytes "token";
  scope = [];
  resource = [];
}

abbrev issuer : Bytes
issuer = bytes "https://f"

abbrev response : TokenResponse
response = record {
  access_token =
      bytes
        "aw.Y2xp.AAAAAAAAAAAAAAAAAAAAAAAAAAAAAAAAAAAAAAAAAAEAAAAAAAAAAAAAAAAAAAAAAAAAAAAAAAAAAAAAAAAABw";
  token_type = bytes "Bearer";
  expires_in = 3600;
  refresh_token = bytes "Ag";
  scope = scope_read;
}

exchanged :
    (exchange_code signer service second (2 * second) issuer request server).0 ≡ success response
unfolding exchange_code exchange_grant redeem redeem_entry live_code differs verify_code_verifier
    subtle_equal same_bytes encode trim_space validate_resource resource_of trim_end issue_tokens
    mint random_id sign_access_token compact signing_input sign_es256 claims_of response_of
    with_refresh store_refresh refresh_row response_after new_refresh_token token_id hex
    insert_refresh_token query find_token sweep_expired_refresh_tokens beq or_read join_scopes join
exchanged = refl

verify_code_verifier_iff_example :
    (verify_code_verifier signer.sha256 verifier (bytes "Lw") ≡ true) ↔ (
      (43 ≤ length verifier)
      × (length verifier ≤ 128)
      × ((bytes "Lw" ≡ []) → ⊥)
      × (encode url (signer.sha256 verifier) ≡ bytes "Lw"))
verify_code_verifier_iff_example = verify_code_verifier_iff signer.sha256 verifier (bytes "Lw")

exchange_code_sound_example :
    (e : CodeEntry) × (server.codes request.code ≡ some e)
    × (second < e.expires_at)
    × ((trim_space request.client_id ≡ []) ⊎ (trim_space request.client_id ≡ e.grant.client_id))
    × ((trim_space request.redirect_uri ≡ [])
        ⊎ (trim_space request.redirect_uri ≡ e.grant.redirect_uri))
    × (encode url (signer.sha256 request.code_verifier) ≡ e.grant.code_challenge)
    × IsFor signer e.grant.client_id (or_read e.grant.scopes) e.grant.resource response
exchange_code_sound_example =
    exchange_code_sound signer service second (2 * second) issuer request server response exchanged

IsOther-codes : All (IsOther request.code) server.entropy
unfolding encode
IsOther-codes =
    ((λ e. ground (arith, e)), ((λ e. ground (arith, e)), ((λ e. ground (arith, e)), tt)))

given : trim_space request.code ≢ []
unfolding trim_space
given e = ground (arith, e)

code_once_example :
    (exchange_code signer service (3 * second) (4 * second) issuer request (
      run signer service
        (revokes_client second (bytes "x") ∷ [])
        (exchange_code signer service second (2 * second) issuer request server).1)).0
    ≢ success response
code_once_example =
    code_once signer service second (2 * second) (3 * second) (4 * second) issuer issuer request
      request (revokes_client second (bytes "x") ∷ []) server response given IsOther-codes refl

refreshed :
    (refresh signer service second second (2 * second) issuer request server).0 ≡ success response
unfolding refresh rotate differs encode trim_space validate_resource resource_of trim_end
    issue_tokens mint random_id sign_access_token compact signing_input sign_es256 claims_of
    response_of with_refresh store_refresh refresh_row response_after new_refresh_token token_id hex
    insert_refresh_token query find_token sweep_expired_refresh_tokens beq or_read join_scopes join
    split_scopes fields usable refresh_token_by_id revoke_refresh_token revoke_where
refreshed = refl

refresh_sound_example :
    (t : RefreshToken) × (find_token
        (token_id signer.sha256 (trim_space request.refresh_token))
        server.tokens
      ≡ some t)
    × (scanned t.revoked_at ≡ 0)
    × (unix second < t.expires_at)
    × ((trim_space request.client_id ≡ []) ⊎ (trim_space request.client_id ≡ t.client_id))
    × IsFor signer t.client_id (or_read (split_scopes t.scope)) t.resource response
refresh_sound_example =
    refresh_sound signer service second second (2 * second) issuer request server response refreshed

other_ids :
    All
      (IsOtherId signer.sha256 (token_id signer.sha256 (trim_space request.refresh_token)))
      server.entropy
unfolding encode token_id hex trim_space
other_ids = ((λ e. ground (arith, e)), ((λ e. ground (arith, e)), ((λ e. ground (arith, e)), tt)))

refresh_once_example :
    (refresh signer service (3 * second) (3 * second) (4 * second) issuer request (
      run signer service
        (revokes_client second (bytes "x") ∷ [])
        (refresh signer service second second (2 * second) issuer request server).1)).0
    ≢ success response
refresh_once_example =
    refresh_once signer service second second (2 * second) (3 * second) (3 * second) (4 * second)
      issuer issuer request request (revokes_client second (bytes "x") ∷ []) server response
      response (omega arith) (tt, tt) other_ids refreshed refl

abbrev plenty : Server
plenty = record server {
  entropy =
      some (0 ∷ [])
      ∷ some (1 ∷ [])
      ∷ some (2 ∷ [])
      ∷ some (3 ∷ [])
      ∷ some (4 ∷ [])
      ∷ some (5 ∷ [])
      ∷ [];
}

-- Two refreshes that both load the row before either revokes it: the second also answers an access token.
racing :
    (rotate signer service second
      (2 * second)
      issuer
      request
      (some stored)
      (rotate signer service second (2 * second) issuer request (some stored) plenty).1).0
    ≡ success (record response {
      access_token =
          bytes
            "aw.Y2xp.AAAAAAAAAAAAAAAAAAAAAAAAAAAAAAAAAAAAAAAAAAQAAAAAAAAAAAAAAAAAAAAAAAAAAAAAAAAAAAAAAAAABw";
      refresh_token = [];
    })
unfolding rotate differs encode trim_space validate_resource resource_of trim_end issue_tokens mint
    random_id sign_access_token compact signing_input sign_es256 claims_of response_of with_refresh
    store_refresh refresh_row response_after new_refresh_token token_id hex insert_refresh_token
    query find_token sweep_expired_refresh_tokens beq or_read join_scopes join split_scopes fields
    usable revoke_refresh_token revoke_where
racing = refl

killed : (revoke_client signer service second (bytes "cli") server).0 ≡ success tt
unfolding revoke_client revoke_client_tokens query
killed = refl

revoke_client_kills_example :
    (refresh signer service (2 * second) (2 * second) (3 * second) issuer request (
      run signer service
        (revokes_client second (bytes "x") ∷ [])
        (revoke_client signer service second (bytes "cli") server).1)).0
    ≢ success response
revoke_client_kills_example =
    revoke_client_kills signer service second (2 * second) (2 * second) (3 * second) (bytes "cli")
      issuer request (revokes_client second (bytes "x") ∷ []) server response (omega arith)
      ((λ e. refl, tt), tt) other_ids killed
