-- ===== src/Lib.antt =====
-- A verification library of fund-dashboard, a self-hosted dashboard of fund portfolios.
--
-- The program is one Go service. internal/auth guards it: a login limiter in memory, password
-- hashes, and sessions with sliding renewal in three SQL tables. The HTTP handlers ask the limiter
-- before each log-in, report its outcome, and authenticate every request by its session cookie; a
-- daily job sweeps expired sessions and old audit events. internal/oauth is the authorization server
-- for MCP clients: it issues codes to a logged-in owner's clients, and exchanges codes and refresh
-- tokens for signed access tokens.
--
-- Prelude and its children hold shared names, Boolean tests, lists, byte texts, Go maps and times.
-- Go holds the parts of Go's standard library in use: encoding/base64 (Go/Base64) and functions of
-- strings, strconv and fmt (Go/Text).
--
-- Auth/Limiter is internal/auth/limiter.go: `allow`, `failure` and `success` are `Allow`, `Failure`
-- and `Success`, `collect` and `prune_stale_locked` the sweep of the maps. The mutex makes each
-- method one step, so a history is a list of calls with their clock readings (`run`). Times are
-- nanoseconds from an origin that lies before all of them.
--
-- Auth/Password is internal/auth/password.go and the password rules of internal/auth/service.go.
-- `IDKey` of golang.org/x/crypto/argon2 is a parameter.
--
-- Auth/Store is internal/auth/store.go. The state `World` has the three tables, a schedule of which
-- coming SQL statement fails, and the coming reads of the random source. A failed statement changes
-- nothing. The state of EnsureSchema's tables is the record itself. LIKE compares letters as they
-- are, while SQLite folds the case of ASCII letters; session ids are lowercase hex.
--
-- Auth/Service is internal/auth/service.go: one definition per method, which takes the clock
-- readings that the method makes. SHA-256 and argon2 are the parameter record `Crypto`. Times are
-- seconds of the Unix epoch, the configured durations nanoseconds. `step` and `run` are the calls
-- that handlers and the daily job make, one after another; statements of two calls do not interleave
-- within a call, since each call is one step.
--
-- Oauth/Pkce and Oauth/Codes are internal/oauth/pkce.go, Oauth/Store is internal/oauth/store.go, and
-- Oauth/State their state with the failures: codes and consent screens in memory, and four tables.
-- Oauth/Flow is the token endpoint of internal/oauth/flow.go: `exchange_code`, `refresh`,
-- `issue_tokens`, `revoke_token` and `revoke_client`, with options of internal/oauth/oauth.go and
-- `SignAccessToken` of internal/oauth/jwt.go. Oauth/Signing is the text that it signs and the raw form
-- of a signature; JSON, ASN.1 and ECDSA are the parameter `Signer`, which is the active key.
-- Oauth/Scopes is scope negotiation and the role of internal/oauth/metadata.go. Oauth/Consent is
-- internal/oauth/consent.go with `ApproveGrant`, `consentRequired` and `issueCode` of flow.go; the
-- setting of query parameters of a URL is a parameter. Oauth/Clients is internal/oauth/clients.go:
-- registration, redirect URIs, and the resolution of a client from the table or from a metadata
-- document, whose fetching, JSON and URL parsing are the parameter `Net`. Oauth/Authorize is
-- `Authorize` of flow.go with its decisions, and `visits` the registrations and authorizations one
-- after another. Oauth/Jwt is `VerifyAccessToken` of jwt.go, for the id of the active key and with
-- SHA-256, JSON, ASN.1 and ECDSA as the parameter `Verifier`. Oauth/Keys is `EnsureSigningKey`, where
-- `meanwhile` stands for the other processes; the texts of PEM and JWK are parameters. Otherwise the
-- statements of two calls do not interleave, so two concurrent refreshes are not among the histories
-- of `run`.
--
-- Agent/Registry is tool authorization of internal/agenttools, Agent/Confirmations is
-- internal/confirmations: tokens for write tools, with HMAC, SHA-256 and the JSON text of a payload
-- as parameters. Agent/Claims is internal/agentops over internal/repository/agentstate: claims are
-- threads that make one database statement a turn (`take_turn`), preparations are single steps, and
-- `interleave` runs any order of them. The service's collaborators are there; the text format of
-- stored times is left out.
--
-- Http/RateLimit is internal/httpapi/ratelimit.go, a token bucket for each key. Amounts are whole
-- parts of a token where the code has float64, whose rounding is left out. Http/McpAuth is the
-- credential check of internal/httpapi/mcp_auth.go with `resolveOAuthIssuer` of oauth.go.
--
-- Jobs is internal/jobs/scheduler.go with dca_backfill.go and internal/chinatime: Jobs/Calendar the
-- windows and the announced next run, Jobs/Claim the claim of a window in the process and in
-- crawl_log, Jobs/Scheduler the windows' work, `step` and `run` the life of the processes that run
-- one after another. What the jobs call answers by a schedule. The zone is UTC+8 without daylight
-- saving, which holds from 1992 on. Dialect is internal/dialect, less its SQL texts.
--
-- Db/Rebind is `rebind` of internal/repository/db/open.go, over the text that is left where the code
-- has an index; Db/Rebind/Lexical is the grammar that it is held against. Its loop runs on fuel, one
-- more than the bytes of the query, which is enough.
--
-- Bounds: numbers are unbounded, which the limiter's own cap on strikes and the sizes of times in
-- use make harmless; negative durations and limits fold into zero, except that lifetimes of
-- confirmations are taken not to be negative. Every other recursion is
-- structural.
--
-- Not modelled: logging, contexts, the texts of errors, HTTP plumbing, the crawlers, the web client.
pub mod Prelude
pub mod Go
pub mod Agent
pub mod Auth
pub mod Db
pub mod Dialect
pub mod Http
pub mod Jobs
pub mod Oauth
