-- ===== src/Oauth.antt =====
-- internal/oauth: the authorization server in front of the MCP endpoint.
pub mod Pkce
pub mod State
pub mod Codes
pub mod Store
pub mod Signing
pub mod Flow
pub mod Scopes
pub mod Consent
pub mod Clients
pub mod Authorize
pub mod Jwt
pub mod Keys
mod Tests
