-- ===== src/Usage.antt =====
-- The usage of a session (latency_lab/usage.py).
pub mod Collector
pub mod Requests
pub mod Reporter
mod Tests
