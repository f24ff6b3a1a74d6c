-- ===== src/Http/McpAuth.antt =====
-- The credentials of /mcp: internal/httpapi/mcp_auth.go, with `resolveOAuthIssuer` of oauth.go. Folding
-- reads ASCII letters, which is all that the prefixes need; a comparison in constant time is equality.
pub mod Operator
mod Tests
use fund_dashboard.Prelude.{
  ℕ, Bool, true, false, ◌&&◌, not, List, [], ◌∷◌, ◌++◌, Option, none, some, ltb, ◌==◌,
  if◌then◌else◌, Bytes, bytes, beq, length, take, drop,
}
use fund_dashboard.Go.Text.{trim_space, trim_end, split}
use fund_dashboard.Go.Search.{to_lower, contains}
use fund_dashboard.Agent.Registry.{Role, analyst, operator}
use fund_dashboard.Oauth.Flow.{Options, Service, resource_of}
use fund_dashboard.Oauth.Scopes.{role_for_scopes}
use fund_dashboard.Oauth.Jwt.{Verifier, AccessToken, verify_access_token}

-- What is read of a request.
pub record Request : Type 0 where
  pub authorization : Bytes
  pub forwarded_proto : Bytes
  pub has_tls : Bool
  pub host : Bytes

pub record McpAuthScope : Type 0 where
  pub role : Role
  pub key : Bytes
  pub client_id : Bytes

pub data McpVerdict : Type 0 where
  admitted : McpAuthScope → McpVerdict
  rejected : Bytes → McpVerdict

head_of : List Bytes → Bytes
head_of [] = []
head_of (x ∷ xs) = x

scheme_of : Request → Bytes
scheme_of r =
    let proto = trim_space r.forwarded_proto in
    let first = trim_space (head_of (split b',' proto)) in
    if not (beq proto [])
    then (if not (beq first []) then first else bytes "http")
    else if r.has_tls
    then bytes "https"
    else bytes "http"

pub resolve_oauth_issuer : Request → Service → Bytes
resolve_oauth_issuer r s =
    let configured = trim_space s.options.public_base_url in
    let host = trim_space r.host in
    if not (beq configured [])
    then trim_end b'/' configured
    else scheme_of r ++ bytes "://" ++ (if beq host [] then bytes "localhost" else host)

equal_fold : Bytes → Bytes → Bool
equal_fold a b = beq (to_lower a) (to_lower b)

without_prefix : List Bytes → Bytes → Bytes
without_prefix [] header = if contains header (bytes " ") then [] else header
without_prefix (p ∷ ps) header =
    let rest = without_prefix ps header in
    if ltb (length p) (length header) && equal_fold (take (length p) header) p
    then trim_space (drop (length p) header)
    else if equal_fold header (trim_space p)
    then []
    else rest

pub bearer_token : Bytes → Bytes
bearer_token auth_header =
    let header = trim_space auth_header in
    if beq header [] then [] else without_prefix (bytes "Bearer " ∷ bytes "N_Bearer " ∷ []) header

is_key : Bytes → Bytes → Bool
is_key key token = not (beq key []) && (length token == length key) && beq token key

match_mcp_key : Bytes → Bytes → Bytes → Option McpAuthScope
match_mcp_key token admin_key public_key =
    if is_key admin_key token
    then some (record { role = operator; key = bytes "admin"; client_id = [] })
    else if is_key public_key token
    then some (record { role = analyst; key = bytes "public"; client_id = [] })
    else none

map_oauth_role : Bytes → Option Role
map_oauth_role name =
    if beq name (bytes "analyst")
    then some analyst
    else if beq name (bytes "operator")
    then some operator
    else none

-- A token for writing counts where writing is enabled only.
capped_role : Bool → Role → Role
capped_role allow_write_scope operator = if allow_write_scope then operator else analyst
capped_role allow_write_scope role = role

oauth_scope : Service → AccessToken → Option Role → Option McpAuthScope
oauth_scope s t none = none
oauth_scope s t (some role) = some (record {
  role = capped_role s.options.allow_write_scope role;
  key = bytes "oauth";
  client_id = t.client_id;
})

scope_for : Service → Option AccessToken → Option McpAuthScope
scope_for s none = none
scope_for s (some t) =
    if length t.scopes == 0
    then none
    else oauth_scope s t (map_oauth_role (role_for_scopes t.scopes))

-- For a time and the id of the active key.
module _ (v : Verifier) (now : ℕ) (key : Option Bytes) where
  pub verify_mcp_oauth_token : Request → Service → Bytes → Option McpAuthScope
  verify_mcp_oauth_token r s token =
      let issuer = resolve_oauth_issuer r s in
      scope_for s (verify_access_token v now issuer (resource_of s issuer) key token)

  or_invalid : Option McpAuthScope → McpVerdict
  or_invalid none = rejected (bytes "invalid_token")
  or_invalid (some scope) = admitted scope

  without_key : Bytes → Bytes → Option Service → Request → Bytes → McpVerdict
  without_key admin public (some s) r token = or_invalid (verify_mcp_oauth_token r s token)
  without_key admin public none r token =
      if beq admin [] && beq public []
      then rejected (bytes "unauthorized")
      else rejected (bytes "invalid_token")

  or_oauth : Bytes → Bytes → Option Service → Request → Bytes → Option McpAuthScope → McpVerdict
  or_oauth admin public svc r token (some scope) = admitted scope
  or_oauth admin public svc r token none = without_key admin public svc r token

  -- Whether the handler behind is called, and with what; a rejection has the code of the answer.
  pub mcp_auth : Bytes → Bytes → Option Service → Request → McpVerdict
  mcp_auth admin_key public_key svc r =
      let admin = trim_space admin_key in
      let public = trim_space public_key in
      let token = bearer_token r.authorization in
      if beq token []
      then rejected (bytes "missing_token")
      else or_oauth admin public svc r token (match_mcp_key token admin public)
