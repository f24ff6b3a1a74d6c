-- ===== src/Oauth/Authorize/Issued.antt =====
-- `issueCode` and the decision for a grant in internal/oauth/flow.go.
use fund_dashboard.Prelude.{
  ℕ, ◌+◌, ◌≡◌, Bool, true, false, List, [], ◌∷◌, Option, none, some, refl, Bytes, bytes, beq,
  beq_iff, if◌then◌else◌,
}
use fund_dashboard.Go.Base64.{url, encode}
use fund_dashboard.Oauth.State.{
  Grant, CodeEntry, Client, Approval, Server, success, Flow, ◌>>=◌, pure, as_server_error,
  read_random,
}
use fund_dashboard.Oauth.State.Answers.{
  Answers, Answers-bind, Answers-as_server_error, Answers-read_random,
}
use fund_dashboard.Oauth.Codes.{issue_grant, put_code, sweep_expired_codes}
use fund_dashboard.Oauth.Flow.{Service}
use fund_dashboard.Oauth.Consent.{state_pair, or_server_error, issue_code, consent_required}
use fund_dashboard.Oauth.Consent.Silent.{IsSilent, required-IsSilent}
use fund_dashboard.Oauth.Clients.{Net}
use fund_dashboard.Oauth.Authorize.{
  Queries, Times, AuthorizeDecision, redirect, consent, decide_grant,
}

-- The code is pending for the grant.
abbrev IsPending : ℕ → ℕ → Grant → Bytes → Server → Type 0
IsPending ttl now grant code v =
    v.codes code ≡ some (record { grant = grant; expires_at = now + ttl })

put_self :
    (code : Bytes) (e : CodeEntry) (m : Bytes → Option CodeEntry) → put_code code e m code ≡ some e
put_self code e m = rw ((beq_iff code code).1 refl) refl

issue_grant-IsPending :
    (ttl now : ℕ) (grant : Grant) (w : Server)
    → Answers (IsPending ttl now grant) (issue_grant ttl now grant) w
unfolding issue_grant
issue_grant-IsPending ttl now grant w =
    let entry : CodeEntry = record { grant = grant; expires_at = now + ttl } in
    let finish : Bytes → Flow Bytes = λ buf v. (
      success (encode url buf),
      record v { codes = put_code (encode url buf) entry (sweep_expired_codes now v.codes) },
    ) in
    Answers-bind (λ b v. Unit {0}) (IsPending ttl now grant) read_random finish w
      (Answers-read_random (λ b v. Unit {0}) w (λ b v. tt))
      (λ buf v u. put_self (encode url buf) entry (sweep_expired_codes now v.codes))

module _ (q : Queries) (s : Service) where
  -- The target carries the state and a code that is pending for the grant.
  abbrev pub IsIssued : ℕ → Bytes → Bytes → Grant → Bytes → Server → Type 0
  IsIssued now uri state grant target v =
      (code : Bytes) × (v.codes code
        ≡ some (record { grant = grant; expires_at = now + s.options.code_ttl }))
      × (q.with_query uri
            ((bytes "code", code) ∷ (if beq state [] then [] else (bytes "state", state) ∷ []))
          ≡ some target)

  target-IsIssued :
      (now : ℕ) (uri state code : Bytes) (grant : Grant) (v : Server) (o : Option Bytes)
      → IsPending s.options.code_ttl now grant code v
      → q.with_query uri
          ((bytes "code", code) ∷ (if beq state [] then [] else (bytes "state", state) ∷ []))
        ≡ o
      → Answers (IsIssued now uri state grant) (or_server_error q.with_query s o) v
  unfolding or_server_error
  target-IsIssued now uri state code grant v none h e = tt
  target-IsIssued now uri state code grant v (some target) h e = (code, h, e)

  issue_code-IsIssued :
      (now : ℕ) (uri state : Bytes) (grant : Grant) (w : Server)
      → Answers (IsIssued now uri state grant) (issue_code q.with_query s now uri state grant) w
  unfolding issue_code state_pair
  issue_code-IsIssued now uri state grant w =
      let made : Flow Bytes = issue_grant s.options.code_ttl now grant in
      let query : Bytes → List (Bytes × Bytes) =
        λ code. (bytes "code", code) ∷ (if beq state [] then [] else (bytes "state", state) ∷ []) in
      let send : Bytes → Flow Bytes =
        λ code. or_server_error q.with_query s (q.with_query uri (query code)) in
      Answers-bind (IsPending s.options.code_ttl now grant) (IsIssued now uri state grant)
        (as_server_error made) send w
        (Answers-as_server_error (IsPending s.options.code_ttl now grant) made w
          (issue_grant-IsPending s.options.code_ttl now grant w))
        (λ code v h.
          target-IsIssued now uri state code grant v (q.with_query uri (query code)) h refl)

  -- What a redirect rests on, for a grant and the approvals on record.
  abbrev pub IsGranted :
      ℕ → Bytes → Client → Grant → List Approval → AuthorizeDecision → Server → Type 0
  IsGranted now state client grant rows (redirect target c g) v =
      (c ≡ client)
      × (g ≡ grant)
      × IsSilent s client.id grant.scopes rows false
      × IsIssued now grant.redirect_uri state grant target v
  IsGranted now state client grant rows _ v = Unit

  answer-IsGranted :
      (t : Times) (state : Bytes) (client : Client) (grant : Grant) (rows : List Approval)
      (required : Bool) (v : Server)
      → IsSilent s client.id grant.scopes rows required
      → Answers
          (IsGranted t.issued_at state client grant rows)
          (if required
            then pure (consent client grant)
            else issue_code q.with_query s t.issued_at grant.redirect_uri state grant >>= λ target.
                pure (redirect target client grant))
          v
  answer-IsGranted t state client grant rows true v h = tt
  answer-IsGranted t state client grant rows false v h =
      Answers-bind (IsIssued t.issued_at grant.redirect_uri state grant)
        (IsGranted t.issued_at state client grant rows)
        (issue_code q.with_query s t.issued_at grant.redirect_uri state grant)
        (λ target. pure (redirect target client grant)) v
        (issue_code-IsIssued t.issued_at grant.redirect_uri state grant v)
        (λ target x issued. (refl, refl, h, issued))

  pub decide_grant-IsGranted :
      (net : Net) (t : Times) (state : Bytes) (client : Client) (grant : Grant) (w : Server)
      → Answers
          (IsGranted t.issued_at state client grant w.approvals)
          (decide_grant q net s t state client grant)
          w
  unfolding decide_grant
  decide_grant-IsGranted net t state client grant w =
      let answer : Bool → Flow AuthorizeDecision = λ required.
        if required
        then pure (consent client grant)
        else issue_code q.with_query s t.issued_at grant.redirect_uri state grant >>= λ target.
            pure (redirect target client grant) in
      Answers-bind (λ required v. IsSilent s client.id grant.scopes w.approvals required)
        (IsGranted t.issued_at state client grant w.approvals)
        (consent_required s client.id grant.scopes) answer w
        (required-IsSilent s client.id grant.scopes w)
        (λ required v h. answer-IsGranted t state client grant w.approvals required v h)
