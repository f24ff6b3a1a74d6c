-- ===== src/Oauth/Flow/KillSwitch.antt =====
-- `RevokeClient` of internal/oauth/flow.go, and `refresh` after further calls.
use fund_dashboard.Prelude.{
  ℕ, ◌<◌, ◌≡◌, ◌≢◌, Bool, true, false, not, List, [], ◌∷◌, refl, arith, Bytes, beq, beq_iff, All,
  if◌then◌else◌,
}
use fund_dashboard.Go.Base64.{url, encode}
use fund_dashboard.Go.Text.{trim_space}
use fund_dashboard.Oauth.State.{RefreshToken, Server, plain, success, raise, unix}
use fund_dashboard.Oauth.State.Reaches.{Reaches, Reaches-if, Reaches-query}
use fund_dashboard.Oauth.Store.{token_id, first_revoked, revoke_where, revoke_client_tokens}
use fund_dashboard.Oauth.Store.Lookup.{found_All, IsSpentRow, IsPast, past_first}
use fund_dashboard.Oauth.Signing.{Signer}
use fund_dashboard.Oauth.Flow.{
  Service, TokenRequest, TokenResponse, refresh, revoke_client, Call, run,
}
use fund_dashboard.Oauth.Flow.Exchange.{good}
use fund_dashboard.Oauth.Flow.Rotate.{refresh_sound}
use fund_dashboard.Oauth.Flow.Replay.{IsOtherId, IsSpent, IsSpent-IsClosed}
use fund_dashboard.Oauth.Flow.Steps.{run-keeps}

-- The rows with an id are of the client, and no row has the zero time as its revocation.
abbrev pub IsOwned : Bytes → Bytes → RefreshToken → Type 0
IsOwned client_id id t = (t.id ≡ id → t.client_id ≡ client_id) × IsPast t.revoked_at

client_row :
    (b : Bool) (client_id id : Bytes) (now : ℕ) (t : RefreshToken)
    → b ≡ beq t.client_id client_id
    → 0 < now
    → IsOwned client_id id t
    → IsSpentRow id (if b then record t { revoked_at = first_revoked t.revoked_at now } else t)
client_row true client_id id now t q h o e = past_first t.revoked_at now h o.1
client_row false client_id id now t q h o e =
    absurd (ground (arith, q, (beq_iff t.client_id client_id).1 (o.0 e)))

revoke_client-All :
    (client_id id : Bytes) (now : ℕ) (ts : List RefreshToken)
    → 0 < now
    → All (IsOwned client_id id) ts
    → All (IsSpentRow id) (revoke_where (λ t. beq t.client_id client_id) now ts)
unfolding revoke_where
revoke_client-All client_id id now [] h a = tt
revoke_client-All client_id id now (t ∷ ts) h a = (
  client_row (beq t.client_id client_id) client_id id now t refl h a.0,
  revoke_client-All client_id id now ts h a.1,
)

module _ (c : Signer) (s : Service) (client_id id : Bytes) where
  abbrev IsLive : Server → Type 0
  IsLive w = All (IsOwned client_id id) w.tokens × All (IsOtherId c.sha256 id) w.entropy

  revoke_client-Reaches :
      (now : ℕ)
      → 0 < unix now
      → Reaches IsLive (IsSpent c.sha256 id) (revoke_client c s now client_id)
  unfolding revoke_client revoke_client_tokens
  revoke_client-Reaches now h =
      Reaches-if IsLive (IsSpent c.sha256 id) (not s.has_store) (raise plain)
        (revoke_client_tokens client_id (unix now)) (λ w p. tt)
        (Reaches-query IsLive (IsSpent c.sha256 id)
          (λ w. (
            tt {0},
            record w { tokens = revoke_where (λ t. beq t.client_id client_id) (unix now) w.tokens },
          ))
          (λ w rest p. p) (λ v p. (revoke_client-All client_id id (unix now) v.tokens h p.0, p.1)))

-- Once the tokens of a client have been revoked, and after any further calls whatever fails in
-- them, no refresh with a token of the client answers tokens; for a clock after the epoch, rows of
-- that token that are all of the client, times of revocation after the epoch, and a token that the
-- random source does not come to make again.
pub revoke_client_kills :
    (c : Signer) (s : Service) (now t u now' : ℕ) (client_id issuer : Bytes) (req : TokenRequest)
    (calls : List Call) (w : Server) (r : TokenResponse)
    → let id = token_id c.sha256 (trim_space req.refresh_token) in
      0 < unix now
      → All (IsOwned client_id id) w.tokens
      → All (IsOtherId c.sha256 id) w.entropy
      → (revoke_client c s now client_id w).0 ≡ success tt
      → (refresh c s t u now' issuer req (run c s calls (revoke_client c s now client_id w).1)).0
        ≢ success r
revoke_client_kills c s now t u now' client_id issuer req calls w r h owned fresh ok again =
    let id = token_id c.sha256 (trim_space req.refresh_token) in
    let v = (revoke_client c s now client_id w).1 in
    let spent =
      good (λ (x : Unit {0}). IsSpent c.sha256 id v) (revoke_client c s now client_id w).0 tt
        (revoke_client-Reaches c s client_id id now h w (owned, fresh)) ok in
    let later =
      run-keeps c s (IsSpent c.sha256 id) (λ b. token_id c.sha256 (encode url b) ≢ id)
        (IsSpent-IsClosed c.sha256 id) calls v spent in
    let (row, found, unrevoked, live, client, f) =
      refresh_sound c s t u now' issuer req (run c s calls v) r again in
    let (revoked, own) = found_All (IsSpentRow id) id (run c s calls v).tokens row later.0 found in
    absurd (omega (arith, unrevoked, revoked own))
