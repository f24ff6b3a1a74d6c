-- ===== src/Oauth/Authorize/Silent.antt =====
-- What an authorization without a click rests on: `Authorize` of internal/oauth/flow.go.
use fund_dashboard.Prelude.{
  ◌+◌, ◌<◌, ◌≡◌, true, List, [], ◌∷◌, none, some, Bytes, bytes, beq, All, tally, if◌then◌else◌,
  subst, sym, ◌≤◌, ◌⊎◌, length,
}
use fund_dashboard.Oauth.Pkce.{s256, is_unreserved, validate_code_challenge}
use fund_dashboard.Oauth.Pkce.Checks.{validate_code_challenge_iff}
use fund_dashboard.Oauth.State.{Grant, Client, Server}
use fund_dashboard.Oauth.Store.{is_approval}
use fund_dashboard.Oauth.Flow.{Service, scope_read, resource_of}
use fund_dashboard.Oauth.Clients.{Net, Resolver}
use fund_dashboard.Oauth.Clients.Target.{IsTargetOf, IsLanding}
use fund_dashboard.Oauth.Authorize.{
  Queries, Times, AuthorizeRequest, AuthorizeDecision, redirect, authorize, Visit, visits,
}
use fund_dashboard.Oauth.Authorize.Sound.{IsSound, authorize-IsSound, redirect_challenged}
use fund_dashboard.Oauth.Authorize.Visits.{visits-safe}

-- After any registrations and authorizations, from no clients and an empty cache of metadata
-- documents: an authorization that answers a redirect had a session, is for read access alone where
-- approvals are reused, and for a client with an approval of read access on record; the grant is
-- for that client and this resource, with a code challenge of 43 to 128 unreserved characters and
-- the method S256 or none; its target is one that the client registered or a loopback variant of
-- one, and is https or http on the loopback interface; and the redirect is that target with the
-- state of the request and a code that is pending for the grant.
pub redirect_sound :
    (q : Queries) (net : Net) (s : Service) (vs : List Visit) (r : Resolver) (w : Server)
    (t : Times) (issuer : Bytes) (req : AuthorizeRequest) (target : Bytes) (client : Client)
    (grant : Grant)
    → ((k : Bytes) → r.cache k ≡ none)
    → w.clients ≡ []
    → let (r', w') = visits q net s vs (r, w) in
      let out = authorize q net s t issuer req r' w' in
      out.0 ≡ redirect target client grant
      → (req.authenticated ≡ true)
        × (s.options.auto_approve ≡ true)
        × All (λ x. x ≡ scope_read) grant.scopes
        × (0 < tally (is_approval client.id scope_read) w'.approvals)
        × (grant.client_id ≡ client.id)
        × (grant.resource ≡ resource_of s issuer)
        × ((43 ≤ length grant.code_challenge)
            × (length grant.code_challenge ≤ 128)
            × All (λ c. is_unreserved c ≡ true) grant.code_challenge
            × ((req.code_challenge_method ≡ []) ⊎ (req.code_challenge_method ≡ s256)))
        × IsTargetOf net client.redirect_uris grant.redirect_uri
        × IsLanding net grant.redirect_uri
        × ((code : Bytes) × (out.2.codes code
              ≡ some (record { grant = grant; expires_at = t.issued_at + s.options.code_ttl }))
            × (q.with_query grant.redirect_uri (
                  (bytes "code", code)
                  ∷ (if beq req.state [] then [] else (bytes "state", req.state) ∷ []))
                ≡ some target))
redirect_sound q net s vs r w t issuer req target client grant empty none_yet d =
    let rw' = visits q net s vs (r, w) in
    let (cached, safe) = visits-safe q net s vs r w empty none_yet in
    let out = authorize q net s t issuer req rw'.0 rw'.1 in
    let (auth, auto, reads, approved, id, res, challenge, of, lands, issued) =
      subst
        (λ (x : AuthorizeDecision).
          IsSound q net s t req (resource_of s issuer) rw'.1.approvals x out.2)
        d (authorize-IsSound q net s t issuer req rw'.0 rw'.1 safe cached) in
    (
      auth,
      auto,
      reads,
      approved,
      id,
      res,
      (validate_code_challenge_iff grant.code_challenge req.code_challenge_method).0 (
          subst (λ (x : Bytes). validate_code_challenge x req.code_challenge_method ≡ true)
            (sym challenge)
            (redirect_challenged q net s t issuer req rw'.0 rw'.1 target client grant d)),
      of,
      lands,
      issued,
    )
