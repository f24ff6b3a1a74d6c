-- ===== src/Oauth/Authorize/Tests.antt =====
-- A client that registers and is authorized without a click, on concrete values.
use fund_dashboard.Prelude.{
  ◌+◌, ◌*◌, ◌<◌, ◌≡◌, true, false, List, [], ◌∷◌, none, some, refl, Bytes, bytes, beq, All, tally,
  if◌then◌else◌, second, hour, Bool, ◌≤◌, ◌⊎◌, length,
}
use fund_dashboard.Go.Base64.{encode}
use fund_dashboard.Go.Text.{trim_space, trim_end, fields}
use fund_dashboard.Go.Search.{to_lower}
use fund_dashboard.Oauth.Pkce.{
  s256, validate_code_challenge, is_s256, all_unreserved, is_unreserved,
}
use fund_dashboard.Oauth.State.{Grant, Client, Server, query}
use fund_dashboard.Oauth.Codes.{issue_grant, sweep_expired_codes, live_code}
use fund_dashboard.Oauth.Store.{
  is_approval, insert_client, find_client, client_by_id, has_client_consent, mentions,
}
use fund_dashboard.Oauth.Flow.{Service, scope_read, resource_of, validate_resource, split_scopes}
use fund_dashboard.Oauth.Scopes.{
  negotiate_scopes, read_if_none, dedupe_strings, dedupe_from, scopes_supported,
}
use fund_dashboard.Oauth.Consent.{
  consent_required, only_read, issue_code, state_pair, or_server_error,
}
use fund_dashboard.Oauth.Clients.{
  Url, Net, Resolver, RegisterClientRequest, register_client, new_client, clean_from,
  normalize_redirect_uri, check_url, absolute_https, has_wild, registered, truncate, name_or,
  auth_method, normalize_grant_types, both_if_none, is_grant, new_client_id, with_first,
  resolve_client, stored_or_document, validate_redirect_uri, is_registered, loopback_equivalent,
  loopback_urls, is_loopback_host,
}
use fund_dashboard.Oauth.Clients.Target.{IsTargetOf, IsLanding}
use fund_dashboard.Oauth.Authorize.{
  Queries, Times, AuthorizeRequest, redirect, authorize, Visit, registers, visit, visits,
  after_checks, with_client, check_request, decide_client, decide_target, decide_grant, grant_for,
  or_page, method_of,
}
use fund_dashboard.Oauth.Authorize.Silent.{redirect_sound}

abbrev callback : Bytes
callback = bytes "https://c/cb"

abbrev parsed : Url
parsed = record {
  scheme = bytes "https";
  host = bytes "c";
  hostname = bytes "c";
  path = bytes "/cb";
  raw_query = [];
  fragment = [];
  has_user = false;
  text = callback;
}

abbrev net : Net
net = record {
  parse = λ x. if beq x callback then some parsed else none;
  fetch = λ t x. none;
  decode = λ x. none;
}

-- Stand-ins for package net/url.
abbrev queries : Queries
queries = record { with_query = λ uri pairs. some uri; encode_values = λ pairs. [] }

abbrev service : Service
service = record {
  options = record {
    public_base_url = [];
    resource_path = bytes "/mcp";
    access_ttl = hour;
    refresh_ttl = 720 * hour;
    code_ttl = 60 * second;
    auto_approve = true;
    allow_write_scope = false;
  };
  has_store = true;
  has_key = true;
}

abbrev joins : RegisterClientRequest
joins = record {
  client_name = bytes "cli";
  redirect_uris = callback ∷ [];
  grant_types = [];
  token_endpoint_auth_method = [];
  scope = [];
  client_uri = [];
}

abbrev resolver : Resolver
resolver = record { hosts = λ h. false; cache = λ k. none }

-- The approval is on record for the id that the registration makes.
abbrev server : Server
server = record {
  codes = λ k. none;
  screens = λ k. none;
  clients = [];
  tokens = [];
  approvals = record { client_id = bytes "YWJj"; scope = scope_read; approved_at = 5 } ∷ [];
  signing_key = none;
  faults = [];
  entropy = some (bytes "abc") ∷ some (bytes "def") ∷ [];
}

abbrev joined : Client
joined = record {
  id = bytes "YWJj";
  name = bytes "cli";
  redirect_uris = callback ∷ [];
  grant_types = bytes "authorization_code" ∷ bytes "refresh_token" ∷ [];
  token_endpoint_auth_method = bytes "none";
  scope = [];
  client_uri = [];
  registration_access_token = [];
  created_at = 7;
}

abbrev challenge : Bytes
challenge = bytes "aaaaaaaaaabbbbbbbbbbccccccccccddddddddddeee"

abbrev request : AuthorizeRequest
request = record {
  client_id = bytes "YWJj";
  redirect_uri = callback;
  response_type = bytes "code";
  scope = scope_read;
  state = bytes "s";
  code_challenge = challenge;
  code_challenge_method = bytes "S256";
  resource = [];
  authenticated = true;
  session_id = [];
}

abbrev granted : Grant
granted = record {
  client_id = bytes "YWJj";
  redirect_uri = callback;
  scopes = scope_read ∷ [];
  resource = bytes "https://f/mcp";
  code_challenge = challenge;
  code_challenge_method = bytes "S256";
  session_id = [];
  authorized_at = 8;
}

abbrev times : Times
times = record { resolved_at = 8 * second; authorized_at = 8 * second; issued_at = 8 * second }

abbrev before : List Visit
before = registers (7 * second) joins ∷ []

answered :
    let (r, w) = visits queries net service before (resolver, server) in
    (authorize queries net service times (bytes "https://f") request r w).0
    ≡ redirect callback joined granted
unfolding visits visit authorize after_checks with_client check_request decide_client decide_target
    decide_grant grant_for or_page method_of register_client new_client clean_from
    normalize_redirect_uri check_url absolute_https has_wild registered truncate name_or auth_method
    normalize_grant_types both_if_none is_grant new_client_id with_first resolve_client
    stored_or_document validate_redirect_uri is_registered consent_required only_read issue_code
    state_pair or_server_error negotiate_scopes read_if_none dedupe_strings dedupe_from
    scopes_supported resource_of validate_resource split_scopes insert_client find_client
    client_by_id has_client_consent mentions issue_grant sweep_expired_codes live_code query
    validate_code_challenge is_s256 all_unreserved is_unreserved to_lower trim_space trim_end fields
    encode beq
answered = refl

redirect_sound_example :
    let (r, w) = visits queries net service before (resolver, server) in
    let out = authorize queries net service times (bytes "https://f") request r w in
    (request.authenticated ≡ true)
    × (service.options.auto_approve ≡ true)
    × All (λ x. x ≡ scope_read) granted.scopes
    × (0 < tally (is_approval joined.id scope_read) w.approvals)
    × (granted.client_id ≡ joined.id)
    × (granted.resource ≡ resource_of service (bytes "https://f"))
    × ((43 ≤ length granted.code_challenge)
        × (length granted.code_challenge ≤ 128)
        × All (λ c. is_unreserved c ≡ true) granted.code_challenge
        × ((request.code_challenge_method ≡ []) ⊎ (request.code_challenge_method ≡ s256)))
    × IsTargetOf net joined.redirect_uris granted.redirect_uri
    × IsLanding net granted.redirect_uri
    × ((code : Bytes) × (out.2.codes code
          ≡ some
              (record { grant = granted; expires_at = times.issued_at + service.options.code_ttl }))
        × (queries.with_query granted.redirect_uri (
              (bytes "code", code)
              ∷ (if beq request.state [] then [] else (bytes "state", request.state) ∷ []))
            ≡ some callback))
redirect_sound_example =
    redirect_sound queries net service before resolver server times (bytes "https://f") request
      callback joined granted (λ k. refl) refl answered

abbrev local_url : Bytes → Bytes → Bool → Url
local_url hostname fragment has_user = record {
  scheme = bytes "http";
  host = hostname;
  hostname = hostname;
  path = bytes "/cb";
  raw_query = [];
  fragment = fragment;
  has_user = has_user;
  text = [];
}

abbrev local_net : Net
local_net = record net {
  parse = λ x.
      if beq x (bytes "http://127.0.0.1:1/cb")
      then some (local_url (bytes "127.0.0.1") [] false)
      else if beq x (bytes "http://u@localhost:2/cb#x")
      then some (local_url (bytes "localhost") (bytes "x") true)
      else none;
}

-- A variant of a loopback target may differ in more than its port.
loose_loopback :
    loopback_equivalent local_net
      (bytes "http://127.0.0.1:1/cb")
      (bytes "http://u@localhost:2/cb#x")
    ≡ true
unfolding loopback_equivalent loopback_urls is_loopback_host to_lower beq
loose_loopback = refl
