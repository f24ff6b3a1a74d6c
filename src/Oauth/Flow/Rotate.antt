-- ===== src/Oauth/Flow/Rotate.antt =====
-- `refresh` of internal/oauth/flow.go: rotation of refresh tokens.
use fund_dashboard.Prelude.{
  ℕ, ◌<◌, ◌≡◌, ◌⊎◌, false, not, List, [], Option, none, some, Bytes, beq, if◌then◌else◌, sym,
}
use fund_dashboard.Go.Text.{trim_space}
use fund_dashboard.Oauth.State.{
  RefreshToken, Server, invalid_request, invalid_grant, server_error, success, Flow, ◌>>=◌, ◌>>◌,
  raise, as_server_error, unix,
}
use fund_dashboard.Oauth.State.Ensures.{
  IsGood, Ensures, Ensures-raise, Ensures-bind, Ensures-if, Ensures-elim, Ensures-weaken,
}
use fund_dashboard.Oauth.State.Reaches.{IsGood-bind, IsGood-as_server_error, IsGood-if}
use fund_dashboard.Oauth.Store.{
  token_id, find_token, usable, scanned, refresh_token_by_id, revoke_refresh_token,
}
use fund_dashboard.Oauth.Store.Lookup.{by_id_answer, usable-some}
use fund_dashboard.Oauth.Signing.{Signer}
use fund_dashboard.Oauth.Flow.{
  Service, TokenRequest, TokenResponse, split_scopes, or_read, differs, mint, issue_tokens, rotate,
  refresh, validate_resource,
}
use fund_dashboard.Oauth.Flow.Mint.{IsFor, Any, IsAnything, any, mint-IsFor}
use fund_dashboard.Oauth.Flow.Exchange.{matches, good}

module _ (c : Signer) (s : Service) where
  -- What the request for a stored token has to match.
  IsRotated : TokenRequest → RefreshToken → TokenResponse → Type 0
  IsRotated req t r =
      IsFor c t.client_id (or_read (split_scopes t.scope)) t.resource r
      × (differs req.client_id t.client_id ≡ false)

  rotate-IsRotated :
      (u now : ℕ) (issuer : Bytes) (req : TokenRequest) (t : RefreshToken)
      → Ensures Any (IsRotated req t) (rotate c s u now issuer req (some t))
  unfolding rotate issue_tokens
  rotate-IsRotated u now issuer req t =
      let revoke = as_server_error (revoke_refresh_token t.id (unix u)) in
      let made : Flow TokenResponse =
        mint c s now issuer t.client_id (or_read (split_scopes t.scope)) t.resource in
      let last : Flow TokenResponse = revoke >> made in
      Ensures-if Any (IsRotated req t) (differs req.client_id t.client_id) (raise invalid_grant)
        (elim (validate_resource s issuer req.resource) [
          | none ↦ raise invalid_request
          | some canonical ↦ last
        ])
        (Ensures-raise Any (IsRotated req t) invalid_grant)
        (λ e.
          Ensures-elim Any (IsRotated req t) (validate_resource s issuer req.resource)
            (raise invalid_request) (λ canonical. last)
            (Ensures-raise Any (IsRotated req t) invalid_request)
            (λ canonical q.
              Ensures-bind Any IsAnything (IsRotated req t) revoke (λ u'. made) (any revoke)
                (λ u' v.
                  Ensures-weaken Any
                    (IsFor c t.client_id (or_read (split_scopes t.scope)) t.resource)
                    (IsRotated req t) made (λ r f. unfold IsRotated in (f, e))
                    (mint-IsFor c s t.client_id (or_read (split_scopes t.scope)) t.resource now
                      issuer))))

  -- The stored token behind a response.
  IsBacked : ℕ → TokenRequest → List RefreshToken → TokenResponse → Type 0
  IsBacked loaded_at req rows r =
      (t : RefreshToken) × (usable (unix loaded_at)
          (find_token (token_id c.sha256 (trim_space req.refresh_token)) rows)
        ≡ some t)
      × IsRotated req t r

  rotate-IsBacked :
      (loaded_at u now : ℕ) (issuer : Bytes) (req : TokenRequest) (rows : List RefreshToken)
      (o : Option RefreshToken) (v : Server)
      → o
        ≡ usable
            (unix loaded_at)
            (find_token (token_id c.sha256 (trim_space req.refresh_token)) rows)
      → IsGood (IsBacked loaded_at req rows) (rotate c s u now issuer req o v).0
  rotate-IsBacked loaded_at u now issuer req rows none v e = unfold rotate in tt
  rotate-IsBacked loaded_at u now issuer req rows (some t) v e =
      (Ensures-weaken Any (IsRotated req t) (IsBacked loaded_at req rows)
        (rotate c s u now issuer req (some t)) (λ r q. unfold IsBacked in (t, sym e, q))
        (rotate-IsRotated u now issuer req t) v tt).1

  refresh-IsBacked :
      (loaded_at u now : ℕ) (issuer : Bytes) (req : TokenRequest) (w : Server)
      → IsGood (IsBacked loaded_at req w.tokens) (refresh c s loaded_at u now issuer req w).0
  unfolding refresh
  refresh-IsBacked loaded_at u now issuer req w =
      let id = token_id c.sha256 (trim_space req.refresh_token) in
      let load = as_server_error (refresh_token_by_id id (unix loaded_at)) in
      let k : Option RefreshToken → Flow TokenResponse = rotate c s u now issuer req in
      let Q = λ (o : Option RefreshToken). o ≡ usable (unix loaded_at) (find_token id w.tokens) in
      IsGood-if (IsBacked loaded_at req w.tokens) (beq (trim_space req.refresh_token) [])
        (raise invalid_request) (if not s.has_store then raise server_error else load >>= k) w tt
        (λ e.
          IsGood-if (IsBacked loaded_at req w.tokens) (not s.has_store) (raise server_error)
            (load >>= k) w tt
            (λ e'.
              IsGood-bind Q (IsBacked loaded_at req w.tokens) load k w
                (IsGood-as_server_error Q (refresh_token_by_id id (unix loaded_at)) w
                  (by_id_answer id (unix loaded_at) w))
                (λ o q. rotate-IsBacked loaded_at u now issuer req w.tokens o (load w).1 q)))

-- A refresh that answers tokens has found the presented token's row, not revoked and not expired;
-- the client of the request is left out or that of the row; and the access token is for the client,
-- the resource and the scopes of the row.
pub refresh_sound :
    (c : Signer) (s : Service) (loaded_at revoked_at now : ℕ) (issuer : Bytes) (req : TokenRequest)
    (w : Server) (r : TokenResponse)
    → (refresh c s loaded_at revoked_at now issuer req w).0 ≡ success r
    → (t : RefreshToken) × (find_token (token_id c.sha256 (trim_space req.refresh_token)) w.tokens
        ≡ some t)
      × (scanned t.revoked_at ≡ 0)
      × (unix loaded_at < t.expires_at)
      × ((trim_space req.client_id ≡ []) ⊎ (trim_space req.client_id ≡ t.client_id))
      × IsFor c t.client_id (or_read (split_scopes t.scope)) t.resource r
unfolding IsBacked IsRotated
refresh_sound c s loaded_at revoked_at now issuer req w r ok =
    let id = token_id c.sha256 (trim_space req.refresh_token) in
    let (t, e, (f, client)) =
      good (IsBacked c s loaded_at req w.tokens)
        (refresh c s loaded_at revoked_at now issuer req w).0 r
        (refresh-IsBacked c s loaded_at revoked_at now issuer req w) ok in
    let (found, unrevoked, live) = usable-some (unix loaded_at) (find_token id w.tokens) t e in
    (t, found, unrevoked, live, matches req.client_id t.client_id client, f)
