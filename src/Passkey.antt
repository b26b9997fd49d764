-- ===== src/Passkey.antt =====
-- Device-passkey confirmation of payments (latency_lab/passkey.py).
pub mod Options
pub mod Consent
pub mod Flow
pub mod World
pub mod Once
pub mod Proof
mod Tests
