-- ===== src/Oauth/Flow/Replay.antt =====
-- Refresh tokens of internal/oauth after they have been rotated, under further calls.
use fund_dashboard.Prelude.{
  ℕ, ◌<◌, ◌≡◌, ◌≢◌, not, List, [], ◌∷◌, ◌++◌, Option, none, some, refl, arith, Bytes, beq, All,
  All-keep, if◌then◌else◌, sym, ◌∙◌, ap, subst,
}
use fund_dashboard.Go.Base64.{url, encode}
use fund_dashboard.Go.Text.{trim_space}
use fund_dashboard.Oauth.State.{
  RefreshToken, Server, invalid_request, invalid_grant, server_error, success, Flow, ◌>>=◌, ◌>>◌,
  raise, as_server_error, unix,
}
use fund_dashboard.Oauth.State.Ensures.{Ensures-as_server_error}
use fund_dashboard.Oauth.State.Reaches.{
  Reaches, Reaches-before, Reaches-after, Reaches-if, Reaches-elim, Reaches-as_server_error,
}
use fund_dashboard.Oauth.Codes.Redeem.{redeem_rest}
use fund_dashboard.Oauth.Store.{token_id, refresh_token_by_id, revoke_refresh_token}
use fund_dashboard.Oauth.Store.Lookup.{
  by_id-has_id, found_All, IsSpentRow, IsPast, revoke_where-All, revoke_by_id-Reaches,
}
use fund_dashboard.Oauth.Signing.{Signer}
use fund_dashboard.Oauth.Flow.{
  Service, TokenRequest, TokenResponse, split_scopes, differs, issue_tokens, rotate, refresh,
  validate_resource, Call, run,
}
use fund_dashboard.Oauth.Flow.Exchange.{good}
use fund_dashboard.Oauth.Flow.Rotate.{refresh_sound}
use fund_dashboard.Oauth.Flow.Steps.{IsClosed, issue_tokens-keeps, run-keeps}

-- No read of the random source to come makes a token with this id.
abbrev pub IsOtherId : (Bytes → Bytes) → Bytes → Option Bytes → Type 0
IsOtherId sha256 id none = Unit
IsOtherId sha256 id (some b) = token_id sha256 (encode url b) ≢ id

-- Every row with the id is revoked, and none will come.
abbrev pub IsSpent : (Bytes → Bytes) → Bytes → Server → Type 0
IsSpent sha256 id w = All (IsSpentRow id) w.tokens × All (IsOtherId sha256 id) w.entropy

All-append :
    (P : RefreshToken → Type 0) (ts : List RefreshToken) (t : RefreshToken)
    → All P ts
    → P t
    → All P (ts ++ t ∷ [])
All-append P [] t h p = (p, tt)
All-append P (x ∷ ts) t h p = (h.0, All-append P ts t h.1 p)

pub IsSpent-IsClosed :
    (sha256 : Bytes → Bytes) (id : Bytes)
    → IsClosed sha256 (IsSpent sha256 id) (λ b. token_id sha256 (encode url b) ≢ id)
IsSpent-IsClosed sha256 id =
    let split =
      λ (es : List (Option Bytes)) (o : Option Bytes) (rest : List (Option Bytes))
          (e : es ≡ o ∷ rest) (h : All (IsOtherId sha256 id) es).
        subst (λ (x : List (Option Bytes)). All (IsOtherId sha256 id) x) e h in
    record {
      kept = record {
        steady = λ w rest p. p;
        random = λ w o rest e p. (p.0, (split w.entropy o rest e p.1).1);
        fresh = λ w b rest e p. (split w.entropy (some b) rest e p.1).0;
        revoked = λ q t w p. (revoke_where-All id q t w.tokens p.0, p.1);
        swept = λ q w p. (All-keep (IsSpentRow id) q w.tokens p.0, p.1);
        inserted = λ b t w q e p.
            (All-append (IsSpentRow id) w.tokens t p.0 (λ same. absurd (q (sym e ∙ same))), p.1);
      };
      redeemed = λ t code w p. (
        subst (λ (ts : List RefreshToken). All (IsSpentRow id) ts) (sym (redeem_rest t code w).1)
            p.0,
        subst (λ (es : List (Option Bytes)). All (IsOtherId sha256 id) es)
            (sym (redeem_rest t code w).0) p.1,
      );
      issued = λ b t e w q p. p;
    }

module _ (c : Signer) (s : Service) (id : Bytes) where
  -- Before the rotation.
  abbrev IsReady : Server → Type 0
  IsReady w = All (λ t. IsPast t.revoked_at) w.tokens × All (IsOtherId c.sha256 id) w.entropy

  rotate-Reaches :
      (u now : ℕ) (issuer : Bytes) (req : TokenRequest) (o : Option RefreshToken)
      → 0 < unix u
      → ((t : RefreshToken) → o ≡ some t → t.id ≡ id)
      → Reaches IsReady (IsSpent c.sha256 id) (rotate c s u now issuer req o)
  unfolding rotate
  rotate-Reaches u now issuer req none h own = λ w p. tt
  rotate-Reaches u now issuer req (some t) h own =
      let R = IsSpent c.sha256 id in
      let revoke = as_server_error (revoke_refresh_token t.id (unix u)) in
      let made : Flow TokenResponse =
        issue_tokens c s now issuer t.client_id (split_scopes t.scope) t.resource in
      let last : Flow TokenResponse = revoke >> made in
      let revokes : Reaches IsReady R (revoke_refresh_token t.id (unix u)) =
        subst (λ (i : Bytes). Reaches IsReady R (revoke_refresh_token i (unix u)))
          (sym (own t refl))
          (revoke_by_id-Reaches (λ es. All (IsOtherId c.sha256 id) es) id (unix u) h) in
      Reaches-if IsReady R (differs req.client_id t.client_id) (raise invalid_grant)
        (elim (validate_resource s issuer req.resource) [
          | none ↦ raise invalid_request
          | some canonical ↦ last
        ])
        (λ w p. tt)
        (Reaches-elim IsReady R (validate_resource s issuer req.resource) (raise invalid_request)
          (λ canonical. last) (λ w p. tt)
          (λ canonical.
            Reaches-after IsReady R revoke (λ v. made)
              (Reaches-as_server_error IsReady R (revoke_refresh_token t.id (unix u)) revokes)
              (λ v.
                issue_tokens-keeps c s R (λ b. token_id c.sha256 (encode url b) ≢ id)
                  (IsSpent-IsClosed c.sha256 id) now issuer t.client_id (split_scopes t.scope)
                  t.resource)))

refresh-Reaches :
    (c : Signer) (s : Service) (t u now : ℕ) (issuer : Bytes) (req : TokenRequest)
    → 0 < unix u
    → let id = token_id c.sha256 (trim_space req.refresh_token) in
      Reaches (IsReady c s id) (IsSpent c.sha256 id) (refresh c s t u now issuer req)
unfolding refresh
refresh-Reaches c s t u now issuer req h =
    let id = token_id c.sha256 (trim_space req.refresh_token) in
    let P = IsReady c s id in
    let R = IsSpent c.sha256 id in
    let Q = λ (o : Option RefreshToken). (x : RefreshToken) → o ≡ some x → x.id ≡ id in
    let load = as_server_error (refresh_token_by_id id (unix t)) in
    let k : Option RefreshToken → Flow TokenResponse = rotate c s u now issuer req in
    Reaches-if P R (beq (trim_space req.refresh_token) []) (raise invalid_request)
      (if not s.has_store then raise server_error else load >>= k) (λ w p. tt)
      (Reaches-if P R (not s.has_store) (raise server_error) (load >>= k) (λ w p. tt)
        (Reaches-before P R Q load k
          (Ensures-as_server_error P Q (refresh_token_by_id id (unix t))
            (by_id-has_id (λ w. P w) id (unix t) (λ w rest p. p)))
          (λ o q. rotate-Reaches c s id u now issuer req o h q)))

-- A refresh token answers tokens once: after a refresh that answered tokens, and any further calls
-- whatever fails in them, no refresh with the same token answers tokens, at any times and for any
-- request; for a clock after the epoch, rows whose times of revocation are too, and a token that
-- the random source does not come to make again.
pub refresh_once :
    (c : Signer) (s : Service) (t u now t' u' now' : ℕ) (issuer issuer' : Bytes)
    (req req' : TokenRequest) (calls : List Call) (w : Server) (r r' : TokenResponse)
    → 0 < unix u
    → All (λ x. IsPast x.revoked_at) w.tokens
    → All (IsOtherId c.sha256 (token_id c.sha256 (trim_space req.refresh_token))) w.entropy
    → (refresh c s t u now issuer req w).0 ≡ success r
    → trim_space req'.refresh_token ≡ trim_space req.refresh_token
    → (refresh c s t' u' now' issuer' req' (run c s calls (refresh c s t u now issuer req w).1)).0
      ≢ success r'
refresh_once c s t u now t' u' now' issuer issuer' req req' calls w r r' h past fresh ok same
      again =
    let id = token_id c.sha256 (trim_space req.refresh_token) in
    let v = (refresh c s t u now issuer req w).1 in
    let spent =
      good (λ (x : TokenResponse). IsSpent c.sha256 id v) (refresh c s t u now issuer req w).0 r
        (refresh-Reaches c s t u now issuer req h w (past, fresh)) ok in
    let later =
      run-keeps c s (IsSpent c.sha256 id) (λ b. token_id c.sha256 (encode url b) ≢ id)
        (IsSpent-IsClosed c.sha256 id) calls v spent in
    let (row, found, unrevoked, live, client, f) =
      refresh_sound c s t' u' now' issuer' req' (run c s calls v) r' again in
    let (revoked, own) =
      found_All (IsSpentRow id) (token_id c.sha256 (trim_space req'.refresh_token))
        (run c s calls v).tokens row later.0 found in
    absurd (omega (arith, unrevoked, revoked (own ∙ ap (token_id c.sha256) same)))
