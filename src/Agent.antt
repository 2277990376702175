-- ===== src/Agent.antt =====
-- internal/agent
pub mod Broadcaster
