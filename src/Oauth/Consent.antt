-- ===== src/Oauth/Consent.antt =====
-- Consent: internal/oauth/consent.go, and `ApproveGrant`, `consentRequired` and `issueCode` of
-- internal/oauth/flow.go. Setting query parameters of a URL (package net/url) is a parameter, which
-- answers `none` for a text that is no URL. The mutex makes each method of the store one step.
pub mod Silent
pub mod Final
use fund_dashboard.Prelude.{
  ℕ, ◌+◌, ◌*◌, Bool, true, false, not, List, [], ◌∷◌, Option, none, some, leb, if◌then◌else◌, Bytes,
  bytes, beq, second,
}
use fund_dashboard.Oauth.State.{
  Grant, ConsentEntry, Table, Server, Failure, server_error, Outcome, success, failed, Flow, ◌>>=◌,
  ◌>>◌, pure, raise, as_server_error, unix,
}
use fund_dashboard.Oauth.Codes.{issue_grant}
use fund_dashboard.Oauth.Store.{record_client_consent, has_client_consent}
use fund_dashboard.Oauth.Flow.{Service, scope_read, random_id}

-- Ten minutes.
abbrev pub consent_ttl : ℕ
consent_ttl = 10 * (60 * second)

unfoldable pub live_screen : ℕ → Option ConsentEntry → Option ConsentEntry
live_screen now none = none
live_screen now (some e) = if leb e.expires_at now then none else some e

unfoldable pub sweep_screens : ℕ → Server → Server
sweep_screens now w = record w { screens = λ k. live_screen now (w.screens k) }

abbrev pub put_screen : Bytes → ConsentEntry → Table ConsentEntry → Table ConsentEntry
put_screen token e m k = if beq k token then some e else m k

-- `consentStore.Begin`.
pub begin_consent : ℕ → Grant → Bytes → Flow Bytes
begin_consent now grant state = do
  token ← random_id
  λ w. (
    success token,
    record w {
      screens =
          put_screen token
            (record { grant = grant; state = state; expires_at = now + consent_ttl; redirect = [] })
            (sweep_screens now w).screens;
    },
  )

unfoldable pub keep_redirect : Bytes → ConsentEntry → Bytes → Flow (Option Bytes)
keep_redirect token e redirect w = (
  success (some redirect),
  record w { screens = put_screen token (record e { redirect = redirect }) w.screens },
)

-- `Finalize` for the entry of the token; `none` is a token that is unknown or expired.
unfoldable pub finalize_entry :
    (Grant → Bytes → Flow Bytes) → Bytes → Option ConsentEntry → Flow (Option Bytes)
finalize_entry build token none = pure none
finalize_entry build token (some e) =
    if not (beq e.redirect [])
    then pure (some e.redirect)
    else build e.grant e.state >>= keep_redirect token e

unfoldable pub finalize : (Grant → Bytes → Flow Bytes) → ℕ → Bytes → Flow (Option Bytes)
finalize build now token w =
    finalize_entry build token (live_screen now (w.screens token)) (sweep_screens now w)

unfoldable pub only_read : List Bytes → Bool
only_read [] = true
only_read (x ∷ xs) = let rest = only_read xs in if not (beq x scope_read) then false else rest

unfoldable pub consent_required : Service → Bytes → List Bytes → Flow Bool
consent_required s client_id scopes =
    if not s.options.auto_approve
    then pure true
    else if not (only_read scopes)
    then pure true
    else if not s.has_store
    then pure true
    else do approved ← has_client_consent client_id scopes; pure (not approved)

module _ (with_query : Bytes → List (Bytes × Bytes) → Option Bytes) (s : Service) where
  unfoldable pub or_server_error : Option Bytes → Flow Bytes
  or_server_error none = raise server_error
  or_server_error (some target) = pure target

  unfoldable pub state_pair : Bytes → List (Bytes × Bytes)
  state_pair state = if beq state [] then [] else (bytes "state", state) ∷ []

  unfoldable pub issue_code : ℕ → Bytes → Bytes → Grant → Flow Bytes
  issue_code now redirect_uri state grant = do
    code ← as_server_error (issue_grant s.options.code_ttl now grant)
    or_server_error (with_query redirect_uri ((bytes "code", code) ∷ state_pair state))

  -- Without a database nothing is recorded, and that is no error.
  pub record_scopes : ℕ → Bytes → List Bytes → Flow (Unit {0})
  record_scopes now client_id [] = pure tt
  record_scopes now client_id (x ∷ xs) =
      (if s.has_store then record_client_consent client_id x (unix now) else pure tt)
      >> record_scopes now client_id xs

  -- The times of the records and of the code are one reading of the clock here.
  pub approve_grant : ℕ → Grant → Bytes → Flow Bytes
  approve_grant now grant state = do
    as_server_error (record_scopes now grant.client_id grant.scopes)
    issue_code now grant.redirect_uri state grant

  pub error_redirect : Bytes → Bytes → Bytes → Bytes → Flow Bytes
  error_redirect redirect_uri code description state = or_server_error (
      with_query redirect_uri (
        (bytes "error", code)
        ∷ (if beq description []
            then state_pair state
            else (bytes "error_description", description) ∷ state_pair state)))

  pub deny_redirect : Grant → Bytes → Flow Bytes
  deny_redirect grant state =
      error_redirect grant.redirect_uri (bytes "access_denied")
        (bytes "the resource owner denied the request") state

  pub decide : ℕ → Bytes → Grant → Bytes → Flow Bytes
  decide now decision grant state =
      if beq decision (bytes "deny")
      then deny_redirect grant state
      else approve_grant now grant state

  -- The clock is read for the sweep and again in the approval.
  pub finalize_consent : ℕ → ℕ → Bytes → Bytes → Flow (Option Bytes)
  finalize_consent t now token decision = finalize (decide now decision) t token
