-- ===== src/Agent.antt =====
-- The agent tools: internal/agenttools, internal/confirmations and internal/agentops.
pub mod Registry
pub mod Confirmations
pub mod Claims
