-- ===== src/Sip.antt =====
-- Which agent answers a telephone call (latency_lab/sip_routing.py).
pub mod Phone
pub mod Routes
pub mod Resolve
pub mod Bootstrap
pub mod Party
pub mod Called
mod Tests
