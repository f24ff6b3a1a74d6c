-- ===== src/Oauth/Authorize/Visits.antt =====
-- Registrations and authorizations in any order: `RegisterClient` and `Authorize` of internal/oauth.
use fund_dashboard.Prelude.{
  ℕ, ◌+◌, ◌≡◌, Bool, true, false, not, List, [], ◌∷◌, Option, none, some, refl, Bytes, bytes, All,
  tally, if◌then◌else◌, length, ◌==◌,
}
use fund_dashboard.Oauth.State.{
  Grant, Client, Server, Failure, Outcome, success, failed, Flow, ◌>>=◌, pure, as_server_error,
  query, read_random, server_error, invalid_redirect_uri,
}
use fund_dashboard.Oauth.State.Ensures.{
  IsGood, Ensures, Ensures-pure, Ensures-raise, Ensures-bind, Ensures-if, Ensures-as_server_error,
  Ensures-query, Ensures-read_random,
}
use fund_dashboard.Oauth.Store.{counts, has_client_consent}
use fund_dashboard.Oauth.Store.Keeps.{Anything}
use fund_dashboard.Go.Base64.{url, encode}
use fund_dashboard.Oauth.Codes.{issue_grant, put_code, sweep_expired_codes}
use fund_dashboard.Oauth.Flow.{validate_resource, Service}
use fund_dashboard.Oauth.Consent.{
  consent_required, issue_code, only_read, state_pair, or_server_error,
}
use fund_dashboard.Oauth.Clients.{Net, Resolver, resolve_client, validate_redirect_uri}
use fund_dashboard.Oauth.Clients.Safe.{IsSafeClient}
use fund_dashboard.Oauth.Clients.Keeps.{register_client-keeps}
use fund_dashboard.Oauth.Clients.Resolve.{IsSafeResolver, IsResolved, resolve_client-keeps}
use fund_dashboard.Oauth.Authorize.{
  Queries, Times, AuthorizeRequest, AuthorizeDecision, redirect, login, consent, error_page,
  check_request, grant_for, decide_grant, decide_target, decide_client, with_client, after_checks,
  authorize, authorize_return_path, Visit, registers, authorizes, visit, visits,
}

module _ (q : Queries) (net : Net) (s : Service) where
  abbrev AllSafe : Server → Type 0
  AllSafe w = All (IsSafeClient net) w.clients

  asked-keeps :
      (client_id : Bytes) (scopes : List Bytes)
      → Ensures AllSafe Anything (has_client_consent client_id scopes)
  unfolding has_client_consent
  asked-keeps client_id scopes =
      Ensures-if AllSafe Anything (length scopes == 0) (pure false)
        (query (λ w. (tally (counts client_id scopes) w.approvals == length scopes, w)))
        (Ensures-pure AllSafe Anything false tt)
        (λ e.
          Ensures-query AllSafe Anything
            (λ w. (tally (counts client_id scopes) w.approvals == length scopes, w)) (λ w rest p. p)
            (λ v p. (p, tt)))

  required-keeps :
      (client_id : Bytes) (scopes : List Bytes)
      → Ensures AllSafe Anything (consent_required s client_id scopes)
  unfolding consent_required
  required-keeps client_id scopes =
      let yes = Ensures-pure AllSafe Anything true tt in
      let ask : Flow Bool =
        has_client_consent client_id scopes >>= λ approved. pure (not approved) in
      let stored : Flow Bool = if not s.has_store then pure true else ask in
      let readers : Flow Bool = if not (only_read scopes) then pure true else stored in
      Ensures-if AllSafe Anything (not s.options.auto_approve) (pure true) readers yes (λ e.
        Ensures-if AllSafe Anything (not (only_read scopes)) (pure true) stored yes (λ e'.
          Ensures-if AllSafe Anything (not s.has_store) (pure true) ask yes (λ e''.
            Ensures-bind AllSafe Anything Anything (has_client_consent client_id scopes)
              (λ approved. pure (not approved)) (asked-keeps client_id scopes)
              (λ approved u. Ensures-pure AllSafe Anything (not approved) tt))))

  grant-keeps : (ttl now : ℕ) (grant : Grant) → Ensures AllSafe Anything (issue_grant ttl now grant)
  unfolding issue_grant
  grant-keeps ttl now grant =
      let finish : Bytes → Flow Bytes = λ buf w. (
        success (encode url buf),
        record w {
          codes =
              put_code (encode url buf) (record { grant = grant; expires_at = now + ttl })
                (sweep_expired_codes now w.codes);
        },
      ) in
      Ensures-bind AllSafe Anything Anything read_random finish
        (Ensures-read_random AllSafe Anything (λ w o rest e p. p) (λ w b rest e p. tt))
        (λ buf u w p. (p, tt))

  sent-keeps : (o : Option Bytes) → Ensures AllSafe Anything (or_server_error q.with_query s o)
  unfolding or_server_error
  sent-keeps none = Ensures-raise AllSafe (Anything {A = Bytes}) server_error
  sent-keeps (some target) = Ensures-pure AllSafe Anything target tt

  issue-keeps :
      (now : ℕ) (uri state : Bytes) (grant : Grant)
      → Ensures AllSafe Anything (issue_code q.with_query s now uri state grant)
  unfolding issue_code
  issue-keeps now uri state grant =
      let made : Flow Bytes = issue_grant s.options.code_ttl now grant in
      let aim : Bytes → Option Bytes =
        λ code. q.with_query uri ((bytes "code", code) ∷ state_pair q.with_query s state) in
      Ensures-bind AllSafe Anything Anything (as_server_error made)
        (λ code. or_server_error q.with_query s (aim code))
        (Ensures-as_server_error AllSafe Anything made (grant-keeps s.options.code_ttl now grant))
        (λ code u. sent-keeps (aim code))

  decided-keeps :
      (t : Times) (state : Bytes) (client : Client) (grant : Grant)
      → Ensures AllSafe Anything (decide_grant q net s t state client grant)
  unfolding decide_grant
  decided-keeps t state client grant =
      let send : Flow AuthorizeDecision =
        issue_code q.with_query s t.issued_at grant.redirect_uri state grant >>= λ target.
        pure (redirect target client grant) in
      Ensures-bind AllSafe Anything Anything (consent_required s client.id grant.scopes)
        (λ required. if required then pure (consent client grant) else send)
        (required-keeps client.id grant.scopes)
        (λ required u.
          Ensures-if AllSafe Anything required (pure (consent client grant)) send
            (Ensures-pure AllSafe Anything (consent client grant) tt)
            (λ e.
              Ensures-bind AllSafe Anything Anything
                (issue_code q.with_query s t.issued_at grant.redirect_uri state grant)
                (λ target. pure (redirect target client grant))
                (issue-keeps t.issued_at grant.redirect_uri state grant)
                (λ target u'. Ensures-pure AllSafe Anything (redirect target client grant) tt)))

  target-keeps :
      (t : Times) (req : AuthorizeRequest) (resource : Bytes) (client : Client) (o : Option Bytes)
      → Ensures AllSafe Anything (decide_target q net s t req resource client o)
  unfolding decide_target
  target-keeps t req resource client none =
      Ensures-pure AllSafe Anything (error_page invalid_redirect_uri (some client) []) tt
  target-keeps t req resource client (some uri) =
      let grant = grant_for q net s t req resource client uri in
      let page = login client grant (authorize_return_path q net s req) in
      Ensures-if AllSafe Anything (not req.authenticated) (pure page)
        (decide_grant q net s t req.state client grant) (Ensures-pure AllSafe Anything page tt)
        (λ e. decided-keeps t req.state client grant)

  -- The clients in the table and in the cache are safe.
  abbrev AllResolve : Resolver × Server → Type 0
  AllResolve (r, w) = IsSafeResolver net r × AllSafe w

  client-keeps :
      (t : Times) (req : AuthorizeRequest) (resource : Bytes) (r : Resolver)
      (o : Outcome (Client × Resolver)) (w : Server)
      → IsGood (IsResolved net) o
      → IsSafeResolver net r
      → AllSafe w
      → let out = with_client q net s t req resource r (o, w) in AllResolve (out.1, out.2)
  unfolding with_client decide_client
  client-keeps t req resource r (failed e) w h cached safe = (cached, safe)
  client-keeps t req resource r (success (client, r')) w h cached safe = (
    h.1,
    (target-keeps t req resource client (validate_redirect_uri net client req.redirect_uri) w
        safe).0,
  )

  checks-keep :
      (t : Times) (req : AuthorizeRequest) (resource : Option Bytes) (e : Option Failure)
      (r : Resolver) (w : Server)
      → AllResolve (r, w)
      → let out = after_checks q net s t req resource e r w in AllResolve (out.1, out.2)
  unfolding after_checks
  checks-keep t req none e r w h = h
  checks-keep t req (some resource) (some e) r w h = h
  checks-keep t req (some resource) none r w (cached, safe) =
      let (kept, resolved) =
        resolve_client-keeps net s w.approvals t.resolved_at req.client_id r cached w
          (safe, refl) in
      let found = resolve_client net s t.resolved_at req.client_id r w in
      client-keeps t req resource r found.0 found.1 resolved cached kept.0

  visit-keeps :
      (v : Visit) (rw : Resolver × Server) → AllResolve rw → AllResolve (visit q net s v rw)
  unfolding visit authorize
  visit-keeps (registers now req) (r, w) (cached, safe) =
      (cached, (register_client-keeps net s w.approvals now req w (safe, refl)).0.0)
  visit-keeps (authorizes t issuer req) (r, w) h =
      checks-keep t req (validate_resource s issuer req.resource) (check_request req) r w h

  visits-keep :
      (vs : List Visit) (rw : Resolver × Server) → AllResolve rw → AllResolve (visits q net s vs rw)
  unfolding visits
  visits-keep [] rw h = h
  visits-keep (v ∷ vs) rw h = visits-keep vs (visit q net s v rw) (visit-keeps v rw h)

  -- Any registrations and authorizations leave clients with safe targets.
  pub visits-safe :
      (vs : List Visit) (r : Resolver) (w : Server)
      → ((k : Bytes) → r.cache k ≡ none)
      → w.clients ≡ []
      → let out = visits q net s vs (r, w) in
        IsSafeResolver net out.0 × All (IsSafeClient net) out.1.clients
  visits-safe vs r w empty none_yet = visits-keep vs (r, w) (λ k. rw (empty k) tt, rw none_yet tt)
