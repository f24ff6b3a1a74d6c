-- ===== src/Oauth/Tests.antt =====
-- Scopes and consent of internal/oauth on concrete values.
use fund_dashboard.Prelude.{
  ◌*◌, ◌≡◌, ◌≢◌, ◌<◌, true, false, [], ◌∷◌, none, some, refl, arith, Bytes, bytes, beq, second,
  hour, All, tally, if◌then◌else◌,
}
use fund_dashboard.Oauth.State.{Grant, ConsentEntry, Server, success, query, Flow, pure}
use fund_dashboard.Oauth.Store.{mentions, is_approval, has_client_consent}
use fund_dashboard.Oauth.Flow.{Options, Service, scope_read, split_scopes, join_scopes}
use fund_dashboard.Oauth.Scopes.{split_scopes-join}
use fund_dashboard.Oauth.Consent.{
  consent_required, only_read, finalize, finalize_entry, keep_redirect, live_screen, sweep_screens,
  put_screen,
}
use fund_dashboard.Oauth.Consent.Silent.{silent_sound}
use fund_dashboard.Oauth.Consent.Final.{finalize_once}

abbrev options : Options
options = record {
  public_base_url = [];
  resource_path = bytes "/mcp";
  access_ttl = hour;
  refresh_ttl = 720 * hour;
  code_ttl = 60 * second;
  auto_approve = true;
  allow_write_scope = false;
}

split_scopes-join_example :
    split_scopes (join_scopes (bytes "a" ∷ bytes "b" ∷ [])) ≡ bytes "a" ∷ bytes "b" ∷ []
split_scopes-join_example =
    split_scopes-join (bytes "a" ∷ bytes "b" ∷ []) ((refl, tt), ((refl, tt), tt))

abbrev service : Service
service = record { options = options; has_store = true; has_key = true }

abbrev grant : Grant
grant = record {
  client_id = bytes "cli";
  redirect_uri = bytes "https://c/cb";
  scopes = scope_read ∷ [];
  resource = bytes "https://f/mcp";
  code_challenge = bytes "Lw";
  code_challenge_method = bytes "S256";
  session_id = [];
  authorized_at = 0;
}

abbrev screen : ConsentEntry
screen = record { grant = grant; state = []; expires_at = 600; redirect = [] }

abbrev server : Server
server = record {
  codes = λ k. none;
  screens = λ k. if beq k (bytes "t") then some screen else none;
  clients = [];
  tokens = [];
  approvals = record { client_id = bytes "cli"; scope = scope_read; approved_at = 5 } ∷ [];
  signing_key = none;
  faults = [];
  entropy = [];
}

silent : (consent_required service (bytes "cli") (scope_read ∷ []) server).0 ≡ success false
unfolding consent_required only_read beq has_client_consent query mentions
silent = refl

silent_sound_example :
    (service.options.auto_approve ≡ true)
    × All (λ x. x ≡ scope_read) (scope_read ∷ [])
    × (0 < tally (is_approval (bytes "cli") scope_read) server.approvals)
silent_sound_example = silent_sound service (bytes "cli") (scope_read ∷ []) server silent

-- A stand-in for the building of a redirect.
abbrev build : Grant → Bytes → Flow Bytes
build g state = pure g.redirect_uri

abbrev decided : Server
decided = record server {
  screens =
      put_screen (bytes "t") (record screen { redirect = bytes "https://c/cb" })
        (sweep_screens 1 server).screens;
}

decides : finalize build 1 (bytes "t") server ≡ (success (some (bytes "https://c/cb")), decided)
unfolding finalize finalize_entry keep_redirect live_screen sweep_screens beq
decides = refl

full : bytes "https://c/cb" ≢ []
full e = ground (arith, e)

finalize_once_example :
    finalize build 2 (bytes "t") decided
    ≡ (success (some (bytes "https://c/cb")), sweep_screens 2 decided)
unfolding beq
finalize_once_example =
    finalize_once build build 1 2 (bytes "t") (bytes "https://c/cb") screen server decided refl
      decides full (omega arith)
