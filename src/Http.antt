-- ===== src/Http.antt =====
-- internal/httpapi: the rate limiter in front of the handlers, and the credentials of the MCP endpoint.
pub mod RateLimit
pub mod McpAuth
