-- ===== src/Auth.antt =====
-- internal/auth: the login limiter, sessions and password rules.
pub mod Limiter
pub mod Password
pub mod Store
pub mod Service
