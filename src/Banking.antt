-- ===== src/Banking.antt =====
-- The configured banking tools (latency_lab/banking_tools.py).
pub mod Records
pub mod Arguments
pub mod Voice
pub mod Execute
pub mod Confirmed
pub mod Tasks
pub mod Backed
pub mod Spent
mod Tests
