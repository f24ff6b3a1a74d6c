-- ===== src/Oauth/Flow/Exchange.antt =====
-- What `exchangeCode` of internal/oauth/flow.go has checked when it answers tokens, and for what.
use fund_dashboard.Prelude.{
  ℕ, ◌<◌, ◌≡◌, ◌⊎◌, inl, inr, false, [], Option, none, some, arith, refl, not, if◌then◌else◌, Bytes,
  beq, beq_iff, Bool-cases, sym, subst,
}
use fund_dashboard.Go.Base64.{url, encode}
use fund_dashboard.Go.Text.{trim_space}
use fund_dashboard.Oauth.Pkce.{verify_code_verifier}
use fund_dashboard.Oauth.Pkce.Checks.{verify_code_verifier_iff}
use fund_dashboard.Oauth.State.{
  Grant, CodeEntry, Server, Failure, invalid_grant, invalid_request, Outcome, success, Flow, raise,
}
use fund_dashboard.Oauth.State.Ensures.{
  IsGood, Ensures, Ensures-raise, Ensures-elim, Ensures-weaken, Ensures-if,
}
use fund_dashboard.Oauth.Codes.{redeem}
use fund_dashboard.Oauth.Codes.Redeem.{redeem-some}
use fund_dashboard.Oauth.Signing.{Signer}
use fund_dashboard.Oauth.Flow.{
  Service, TokenRequest, TokenResponse, or_read, differs, mint, issue_tokens, exchange_grant,
  exchange_code, validate_resource,
}
use fund_dashboard.Oauth.Flow.Mint.{IsFor, Any, mint-IsFor}

module _ (c : Signer) (s : Service) where
  -- What the token request of a grant has to match.
  pub IsChecked : TokenRequest → Grant → TokenResponse → Type 0
  IsChecked req g r =
      IsFor c g.client_id (or_read g.scopes) g.resource r
      × (differs req.client_id g.client_id ≡ false)
      × (differs req.redirect_uri g.redirect_uri ≡ false)
      × (not (verify_code_verifier c.sha256 req.code_verifier g.code_challenge) ≡ false)

  exchange_grant-IsChecked :
      (now : ℕ) (issuer : Bytes) (req : TokenRequest) (g : Grant)
      → Ensures Any (IsChecked req g) (exchange_grant c s now issuer req (some g))
  unfolding exchange_grant issue_tokens
  exchange_grant-IsChecked now issuer req g =
      let bad = λ (e : Failure). Ensures-raise Any (IsChecked req g) e in
      let made : Flow TokenResponse =
        mint c s now issuer g.client_id (or_read g.scopes) g.resource in
      let last : Flow TokenResponse = elim (validate_resource s issuer req.resource) [
        | none ↦ raise invalid_request
        | some canonical ↦ made
      ] in
      let third : Flow TokenResponse =
        if not (verify_code_verifier c.sha256 req.code_verifier g.code_challenge)
        then raise invalid_grant
        else last in
      let second : Flow TokenResponse =
        if differs req.redirect_uri g.redirect_uri then raise invalid_grant else third in
      Ensures-if Any (IsChecked req g) (differs req.client_id g.client_id) (raise invalid_grant)
        second (bad invalid_grant)
        (λ e.
          Ensures-if Any (IsChecked req g) (differs req.redirect_uri g.redirect_uri)
            (raise invalid_grant) third (bad invalid_grant)
            (λ e'.
              Ensures-if Any (IsChecked req g)
                (not (verify_code_verifier c.sha256 req.code_verifier g.code_challenge))
                (raise invalid_grant) last (bad invalid_grant)
                (λ e''.
                  Ensures-elim Any (IsChecked req g) (validate_resource s issuer req.resource)
                    (raise invalid_request) (λ canonical. made) (bad invalid_request)
                    (λ canonical q.
                      Ensures-weaken Any (IsFor c g.client_id (or_read g.scopes) g.resource)
                        (IsChecked req g) made (λ r f. unfold IsChecked in (f, e, e', e''))
                        (mint-IsFor c s g.client_id (or_read g.scopes) g.resource now issuer)))))

pub matches :
    (provided bound : Bytes)
    → differs provided bound ≡ false
    → (trim_space provided ≡ []) ⊎ (trim_space provided ≡ bound)
unfolding differs
matches provided bound e = elim (Bool-cases (beq (trim_space provided) [])) [
  | inl empty ↦ inl ((beq_iff (trim_space provided) []).0 empty)
  | inr given ↦ inr ((beq_iff (trim_space provided) bound).0 (ground arith))
]

pub good : {A : Type 0} (Q : A → Type 0) (o : Outcome A) (a : A) → IsGood Q o → o ≡ success a → Q a
good Q o a h e = subst (λ (x : Outcome _). IsGood Q x) e h

module _ (c : Signer) (s : Service) where
  exchange_some :
      (now : ℕ) (issuer : Bytes) (req : TokenRequest) (o : Option Grant) (w : Server)
      (r : TokenResponse)
      → (exchange_grant c s now issuer req o w).0 ≡ success r
      → (g : Grant) × (o ≡ some g) × IsChecked c s req g r
  exchange_some now issuer req none w r h = absurd (unfold exchange_grant in ground arith)
  exchange_some now issuer req (some g) w r h = (
    g,
    refl,
    good (IsChecked c s req g) _ r (exchange_grant-IsChecked c s now issuer req g w tt).1 h,
  )

  after_redeem :
      (redeemed_at now : ℕ) (issuer : Bytes) (req : TokenRequest) (w : Server) (r : TokenResponse)
      → (exchange_code c s redeemed_at now issuer req w).0 ≡ success r
      → let taken = redeem redeemed_at req.code w in
        (exchange_grant c s now issuer req taken.0 taken.1).0 ≡ success r
  unfolding exchange_code
  after_redeem redeemed_at now issuer req w r h = elim (Bool-cases (beq (trim_space req.code) [])) [
    | inl empty ↦ absurd (ground (arith, empty, h))
    | inr given ↦ rw given at h
  ]

  checked_at :
      (req : TokenRequest) (g : Grant) (r : TokenResponse)
      → IsChecked c s req g r
      → ((trim_space req.client_id ≡ []) ⊎ (trim_space req.client_id ≡ g.client_id))
        × ((trim_space req.redirect_uri ≡ []) ⊎ (trim_space req.redirect_uri ≡ g.redirect_uri))
        × (encode url (c.sha256 req.code_verifier) ≡ g.code_challenge)
        × IsFor c g.client_id (or_read g.scopes) g.resource r
  unfolding IsChecked
  checked_at req g r (f, client, redirect, verified) = (
    matches req.client_id g.client_id client,
    matches req.redirect_uri g.redirect_uri redirect,
    ((verify_code_verifier_iff c.sha256 req.code_verifier g.code_challenge).0 (ground arith)).3,
    f,
  )

-- A code exchange that answers tokens has found the code pending and not expired; the client and
-- the redirect target of the request are left out or those of the grant; SHA-256 of the verifier is
-- the challenge of the grant; and the access token is for the client, the resource and the scopes
-- of the grant, where no scopes stand for read access.
pub exchange_code_sound :
    (c : Signer) (s : Service) (redeemed_at now : ℕ) (issuer : Bytes) (req : TokenRequest)
    (w : Server) (r : TokenResponse)
    → (exchange_code c s redeemed_at now issuer req w).0 ≡ success r
    → (e : CodeEntry) × (w.codes req.code ≡ some e)
      × (redeemed_at < e.expires_at)
      × ((trim_space req.client_id ≡ []) ⊎ (trim_space req.client_id ≡ e.grant.client_id))
      × ((trim_space req.redirect_uri ≡ []) ⊎ (trim_space req.redirect_uri ≡ e.grant.redirect_uri))
      × (encode url (c.sha256 req.code_verifier) ≡ e.grant.code_challenge)
      × IsFor c e.grant.client_id (or_read e.grant.scopes) e.grant.resource r
exchange_code_sound c s redeemed_at now issuer req w r ok =
    let taken = redeem redeemed_at req.code w in
    let (g, found, q) =
      exchange_some c s now issuer req taken.0 taken.1 r
        (after_redeem c s redeemed_at now issuer req w r ok) in
    let (e, pending, live, same) = redeem-some redeemed_at req.code w g found in
    let checked = subst (λ (h : Grant). IsChecked c s req h r) (sym same) q in
    let (client, redirect, verified, f) = checked_at c s req e.grant r checked in
    (e, pending, live, client, redirect, verified, f)
