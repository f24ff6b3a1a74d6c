-- ===== src/Oauth/Authorize.antt =====
-- `Authorize` of internal/oauth/flow.go. A failure, also one after the client is resolved, is an error
-- page. The query of a URL and `url.Values.Encode` (package net/url) are parameters.
pub mod Issued
pub mod Sound
pub mod Visits
pub mod Silent
mod Tests
use fund_dashboard.Prelude.{
  ℕ, Bool, not, List, [], ◌∷◌, ◌++◌, Option, none, some, if◌then◌else◌, Bytes, bytes, beq, keep,
}
use fund_dashboard.Go.Text.{trim_space}
use fund_dashboard.Oauth.State.{
  Grant, Client, Server, Failure, invalid_request, unsupported_response_type, invalid_redirect_uri,
  Outcome, success, failed, Flow, ◌>>=◌, pure, unix,
}
use fund_dashboard.Oauth.Pkce.{s256, validate_code_challenge}
use fund_dashboard.Oauth.Flow.{Service, validate_resource, is_present}
use fund_dashboard.Oauth.Scopes.{negotiate_scopes}
use fund_dashboard.Oauth.Consent.{consent_required, issue_code}
use fund_dashboard.Oauth.Clients.{
  Net, Resolver, RegisterClientRequest, resolve_client, validate_redirect_uri, register_client,
}

pub record AuthorizeRequest : Type 0 where
  pub client_id : Bytes
  pub redirect_uri : Bytes
  pub response_type : Bytes
  pub scope : Bytes
  pub state : Bytes
  pub code_challenge : Bytes
  pub code_challenge_method : Bytes
  pub resource : Bytes
  pub authenticated : Bool
  pub session_id : Bytes

-- `AuthorizeDecision` by its kind. The scopes and the resource are those of the grant; the last text
-- of a login and of an error page is the return path.
pub data AuthorizeDecision : Type 0 where
  redirect : Bytes → Client → Grant → AuthorizeDecision
  login : Client → Grant → Bytes → AuthorizeDecision
  consent : Client → Grant → AuthorizeDecision
  error_page : Failure → Option Client → Bytes → AuthorizeDecision

-- The readings of the clock: for the resolver, for the grant and for the code.
pub record Times : Type 0 where
  pub resolved_at : ℕ
  pub authorized_at : ℕ
  pub issued_at : ℕ

-- What package net/url does to queries: set parameters of a URL, and encode them.
pub record Queries : Type 0 where
  pub with_query : Bytes → List (Bytes × Bytes) → Option Bytes
  pub encode_values : List (Bytes × Bytes) → Bytes

abbrev is_set : Bytes × Bytes → Bool
is_set (key, value) = is_present (trim_space value)

-- The error of the checks before the client is resolved.
pub check_request : AuthorizeRequest → Option Failure
check_request req =
    if beq (trim_space req.response_type) []
    then some invalid_request
    else if not (beq req.response_type (bytes "code"))
    then some unsupported_response_type
    else if not (validate_code_challenge req.code_challenge req.code_challenge_method)
    then some invalid_request
    else none

method_of : AuthorizeRequest → Bytes
method_of req =
    let method = trim_space req.code_challenge_method in if beq method [] then s256 else method

-- A request to register a client or to authorize one.
pub data Visit : Type 0 where
  registers : ℕ → RegisterClientRequest → Visit
  authorizes : Times → Bytes → AuthorizeRequest → Visit

module _ (q : Queries) (net : Net) (s : Service) where
  authorize_return_path : AuthorizeRequest → Bytes
  authorize_return_path req =
      bytes "/oauth/authorize?"
      ++ q.encode_values (
          keep is_set (
            (bytes "client_id", req.client_id)
            ∷ (bytes "redirect_uri", req.redirect_uri)
            ∷ (bytes "response_type", req.response_type)
            ∷ (bytes "scope", req.scope)
            ∷ (bytes "state", req.state)
            ∷ (bytes "code_challenge", req.code_challenge)
            ∷ (bytes "code_challenge_method", req.code_challenge_method)
            ∷ (bytes "resource", req.resource)
            ∷ []))

  unsafe_failure : AuthorizeRequest → Failure → AuthorizeDecision
  unsafe_failure req e = error_page e none (authorize_return_path req)

  grant_for : Times → AuthorizeRequest → Bytes → Client → Bytes → Grant
  grant_for t req resource client redirect_uri = record {
    client_id = client.id;
    redirect_uri = redirect_uri;
    scopes = negotiate_scopes s.options req.scope;
    resource = resource;
    code_challenge = req.code_challenge;
    code_challenge_method = method_of req;
    session_id = req.session_id;
    authorized_at = unix t.authorized_at;
  }

  -- The decision for a grant of a caller that has a session.
  pub decide_grant : Times → Bytes → Client → Grant → Flow AuthorizeDecision
  decide_grant t state client grant = consent_required s client.id grant.scopes >>= λ required.
      if required
      then pure (consent client grant)
      else issue_code q.with_query s t.issued_at grant.redirect_uri state grant >>= λ target.
          pure (redirect target client grant)

  decide_target : Times → AuthorizeRequest → Bytes → Client → Option Bytes → Flow AuthorizeDecision
  decide_target t req resource client none = pure (error_page invalid_redirect_uri (some client) [])
  decide_target t req resource client (some uri) =
      let grant = grant_for t req resource client uri in
      if not req.authenticated
      then pure (login client grant (authorize_return_path req))
      else decide_grant t req.state client grant

  decide_client : Times → AuthorizeRequest → Bytes → Client → Flow AuthorizeDecision
  decide_client t req resource client =
      decide_target t req resource client (validate_redirect_uri net client req.redirect_uri)

  or_page : AuthorizeRequest → Outcome AuthorizeDecision → AuthorizeDecision
  or_page req (success d) = d
  or_page req (failed e) = unsafe_failure req e

  -- The resolver keeps what it has cached when a later step fails.
  with_client :
      Times
      → AuthorizeRequest
      → Bytes
      → Resolver
      → Outcome (Client × Resolver) × Server
      → AuthorizeDecision × Resolver × Server
  with_client t req resource r (failed e, w) = (unsafe_failure req e, r, w)
  with_client t req resource r (success (client, r'), w) =
      let out = decide_client t req resource client w in (or_page req out.0, r', out.1)

  after_checks :
      Times
      → AuthorizeRequest
      → Option Bytes
      → Option Failure
      → Resolver
      → Server
      → AuthorizeDecision × Resolver × Server
  after_checks t req none e r w = (unsafe_failure req invalid_request, r, w)
  after_checks t req (some resource) (some e) r w = (unsafe_failure req e, r, w)
  after_checks t req (some resource) none r w =
      with_client t req resource r (resolve_client net s t.resolved_at req.client_id r w)

  pub authorize :
      Times → Bytes → AuthorizeRequest → Resolver → Server → AuthorizeDecision × Resolver × Server
  authorize t issuer req r w =
      after_checks t req (validate_resource s issuer req.resource) (check_request req) r w

  pub visit : Visit → Resolver × Server → Resolver × Server
  visit (registers now req) (r, w) = (r, (register_client net s now req w).1)
  visit (authorizes t issuer req) (r, w) = let out = authorize t issuer req r w in (out.1, out.2)

  pub visits : List Visit → Resolver × Server → Resolver × Server
  visits [] rw = rw
  visits (v ∷ vs) rw = visits vs (visit v rw)
