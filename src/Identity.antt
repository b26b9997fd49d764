-- ===== src/Identity.antt =====
-- The single-use bootstrap token of a call (latency_lab/session_identity.py).
pub mod Token
pub mod Once
mod Tests
