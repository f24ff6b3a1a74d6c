-- ===== src/Oauth/Authorize/Sound.antt =====
-- When `Authorize` of internal/oauth/flow.go answers a redirect, from any state whose clients are safe.
use fund_dashboard.Prelude.{
  ◌<◌, ◌≡◌, true, false, not, List, Option, none, some, refl, arith, Bytes, All, tally,
  if◌then◌else◌, sym, subst,
}
use fund_dashboard.Oauth.Pkce.{validate_code_challenge}
use fund_dashboard.Oauth.State.{
  Grant, Client, Approval, Server, Failure, Outcome, success, failed, pure,
}
use fund_dashboard.Oauth.State.Ensures.{IsGood}
use fund_dashboard.Oauth.State.Answers.{Answers}
use fund_dashboard.Oauth.Store.{is_approval}
use fund_dashboard.Oauth.Flow.{Service, scope_read, resource_of, validate_resource}
use fund_dashboard.Oauth.Clients.{Net, Resolver, resolve_client, validate_redirect_uri}
use fund_dashboard.Oauth.Clients.Safe.{IsSafeClient}
use fund_dashboard.Oauth.Clients.Resolve.{IsSafeResolver, IsResolved, resolve_client-keeps}
use fund_dashboard.Oauth.Clients.Target.{IsTargetOf, IsLanding, validate-IsTargetOf}
use fund_dashboard.Oauth.Authorize.{
  Queries, Times, AuthorizeRequest, AuthorizeDecision, redirect, login, consent, error_page,
  check_request, grant_for, decide_grant, decide_target, decide_client, or_page, with_client,
  after_checks, authorize, authorize_return_path, unsafe_failure,
}
use fund_dashboard.Oauth.Authorize.Issued.{IsIssued, IsGranted, decide_grant-IsGranted}

checks-none :
    (req : AuthorizeRequest)
    → check_request req ≡ none
    → validate_code_challenge req.code_challenge req.code_challenge_method ≡ true
unfolding check_request
checks-none req e = ground (arith, e)

resource-some :
    (s : Service) (issuer requested resource : Bytes)
    → validate_resource s issuer requested ≡ some resource
    → resource ≡ resource_of s issuer
unfolding validate_resource
resource-some s issuer requested resource e = ground (arith, e)

module _ (q : Queries) (net : Net) (s : Service) where
  -- A session, a silent approval for read access, a target that the client has registered and that is
  -- safe, and a code that is pending for the grant with the checked challenge.
  abbrev pub IsSound :
      Times → AuthorizeRequest → Bytes → List Approval → AuthorizeDecision → Server → Type 0
  IsSound t req resource rows (redirect target client grant) v =
      (req.authenticated ≡ true)
      × (s.options.auto_approve ≡ true)
      × All (λ x. x ≡ scope_read) grant.scopes
      × (0 < tally (is_approval client.id scope_read) rows)
      × (grant.client_id ≡ client.id)
      × (grant.resource ≡ resource)
      × (grant.code_challenge ≡ req.code_challenge)
      × IsTargetOf net client.redirect_uris grant.redirect_uri
      × IsLanding net grant.redirect_uri
      × IsIssued q s t.issued_at grant.redirect_uri req.state grant target v
  IsSound t req resource rows _ v = Unit

  -- What holds of a decision of a caller with a session for a grant, of the request.
  granted-IsSound :
      (t : Times) (req : AuthorizeRequest) (resource : Bytes) (rows : List Approval)
      (client : Client) (uri : Bytes) (d : AuthorizeDecision) (v : Server)
      → req.authenticated ≡ true
      → IsTargetOf net client.redirect_uris uri × IsLanding net uri
      → IsGranted q s t.issued_at req.state client
          (grant_for q net s t req resource client uri)
          rows
          d
          v
      → IsSound t req resource rows d v
  unfolding grant_for
  granted-IsSound t req resource rows client uri (redirect target c g) v auth (of, lands)
        (same, grant, silent, issued) =
      let (auto, reads, approved) = silent refl in
      let Q = λ (x : Client × Grant).
        (req.authenticated ≡ true)
        × (s.options.auto_approve ≡ true)
        × All (λ y. y ≡ scope_read) x.1.scopes
        × (0 < tally (is_approval x.0.id scope_read) rows)
        × (x.1.client_id ≡ x.0.id)
        × (x.1.resource ≡ resource)
        × (x.1.code_challenge ≡ req.code_challenge)
        × IsTargetOf net x.0.redirect_uris x.1.redirect_uri
        × IsLanding net x.1.redirect_uri
        × IsIssued q s t.issued_at x.1.redirect_uri req.state x.1 target v in
      subst (λ (x : Client). Q (x, g)) (sym same)
        (subst (λ (x : Grant). Q (client, x)) (sym grant)
          (auth, auto, reads, approved, refl, refl, refl, of, lands, issued))
  granted-IsSound t req resource rows client uri (login c g path) v auth to h = tt
  granted-IsSound t req resource rows client uri (consent c g) v auth to h = tt
  granted-IsSound t req resource rows client uri (error_page e c path) v auth to h = tt

  weaken-IsSound :
      (t : Times) (req : AuthorizeRequest) (resource : Bytes) (rows : List Approval)
      (client : Client) (uri : Bytes) (o : Outcome AuthorizeDecision) (v : Server)
      → req.authenticated ≡ true
      → IsTargetOf net client.redirect_uris uri × IsLanding net uri
      → IsGood
          (λ d.
            IsGranted q s t.issued_at req.state client
              (grant_for q net s t req resource client uri)
              rows
              d
              v)
          o
      → IsGood (λ d. IsSound t req resource rows d v) o
  weaken-IsSound t req resource rows client uri (success d) v auth to h =
      granted-IsSound t req resource rows client uri d v auth to h
  weaken-IsSound t req resource rows client uri (failed e) v auth to h = tt

  target-IsSound :
      (t : Times) (req : AuthorizeRequest) (resource : Bytes) (client : Client) (o : Option Bytes)
      (w : Server)
      → IsSafeClient net client
      → validate_redirect_uri net client req.redirect_uri ≡ o
      → Answers
          (IsSound t req resource w.approvals)
          (decide_target q net s t req resource client o)
          w
  unfolding decide_target
  target-IsSound t req resource client none w safe e = tt
  target-IsSound t req resource client (some uri) w safe e =
      let grant = grant_for q net s t req resource client uri in
      let page = authorize_return_path q net s req in
      elim req.authenticated
          as (λ b.
            req.authenticated ≡ b
            → Answers (IsSound t req resource w.approvals)
                (if not b
                  then pure (login client grant page)
                  else decide_grant q net s t req.state client grant)
                w) [
                  | true ↦ λ auth.
                      weaken-IsSound t req resource w.approvals client uri
                        (decide_grant q net s t req.state client grant w).0
                        (decide_grant q net s t req.state client grant w).1 auth
                        (validate-IsTargetOf net client req.redirect_uri uri safe e)
                        (decide_grant-IsGranted q s net t req.state client grant w)
                  | false ↦ λ none_there. tt
                ]
        refl

  page-IsSound :
      (t : Times) (req : AuthorizeRequest) (resource : Bytes) (rows : List Approval)
      (o : Outcome AuthorizeDecision) (v : Server)
      → IsGood (λ d. IsSound t req resource rows d v) o
      → IsSound t req resource rows (or_page q net s req o) v
  unfolding or_page unsafe_failure
  page-IsSound t req resource rows (success d) v h = h
  page-IsSound t req resource rows (failed e) v h = tt

  resolved-IsSound :
      (t : Times) (req : AuthorizeRequest) (resource : Bytes) (rows : List Approval) (r : Resolver)
      (o : Outcome (Client × Resolver)) (w : Server)
      → IsGood (IsResolved net) o
      → w.approvals ≡ rows
      → let out = with_client q net s t req resource r (o, w) in
        IsSound t req resource rows out.0 out.2
  unfolding with_client decide_client unsafe_failure
  resolved-IsSound t req resource rows r (failed e) w h same = tt
  resolved-IsSound t req resource rows r (success (client, r')) w h same =
      let target = validate_redirect_uri net client req.redirect_uri in
      let out = decide_target q net s t req resource client target w in
      subst (λ (x : List Approval). IsSound t req resource x (or_page q net s req out.0) out.1) same
        (page-IsSound t req resource w.approvals out.0 out.1
          (target-IsSound t req resource client target w h.0 refl))

  checked-IsSound :
      (t : Times) (req : AuthorizeRequest) (resource : Option Bytes) (e : Option Failure)
      (canonical : Bytes) (r : Resolver) (w : Server)
      → ((x : Bytes) → resource ≡ some x → x ≡ canonical)
      → All (IsSafeClient net) w.clients
      → IsSafeResolver net r
      → let out = after_checks q net s t req resource e r w in
        IsSound t req canonical w.approvals out.0 out.2
  unfolding after_checks unsafe_failure
  checked-IsSound t req none e canonical r w h safe cached = tt
  checked-IsSound t req (some resource) (some e) canonical r w h safe cached = tt
  checked-IsSound t req (some resource) none canonical r w h safe cached =
      let (kept, resolved) =
        resolve_client-keeps net s w.approvals t.resolved_at req.client_id r cached w
          (safe, refl) in
      let found = resolve_client net s t.resolved_at req.client_id r w in
      let out = with_client q net s t req resource r found in
      subst (λ (x : Bytes). IsSound t req x w.approvals out.0 out.2) (h resource refl)
        (resolved-IsSound t req resource w.approvals r found.0 found.1 resolved kept.1)

  pub authorize-IsSound :
      (t : Times) (issuer : Bytes) (req : AuthorizeRequest) (r : Resolver) (w : Server)
      → All (IsSafeClient net) w.clients
      → IsSafeResolver net r
      → let out = authorize q net s t issuer req r w in
        IsSound t req (resource_of s issuer) w.approvals out.0 out.2
  unfolding authorize
  authorize-IsSound t issuer req r w safe cached =
      checked-IsSound t req (validate_resource s issuer req.resource) (check_request req)
        (resource_of s issuer) r w (λ x e. resource-some s issuer req.resource x e) safe cached

  challenge_go :
      (t : Times) (req : AuthorizeRequest) (resource : Option Bytes) (e : Option Failure)
      (r : Resolver) (w : Server) (target : Bytes) (client : Client) (grant : Grant)
      → check_request req ≡ e
      → (after_checks q net s t req resource e r w).0 ≡ redirect target client grant
      → validate_code_challenge req.code_challenge req.code_challenge_method ≡ true
  unfolding after_checks unsafe_failure
  challenge_go t req none e r w target client grant h d = absurd (ground (arith, d))
  challenge_go t req (some x) (some e) r w target client grant h d = absurd (ground (arith, d))
  challenge_go t req (some x) none r w target client grant h d = checks-none req h

  -- No redirect without a code challenge that is valid.
  pub redirect_challenged :
      (t : Times) (issuer : Bytes) (req : AuthorizeRequest) (r : Resolver) (w : Server)
      (target : Bytes) (client : Client) (grant : Grant)
      → (authorize q net s t issuer req r w).0 ≡ redirect target client grant
      → validate_code_challenge req.code_challenge req.code_challenge_method ≡ true
  unfolding authorize
  redirect_challenged t issuer req r w target client grant d =
      challenge_go t req (validate_resource s issuer req.resource) (check_request req) r w target
        client grant refl d
