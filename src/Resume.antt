-- ===== src/Resume.antt =====
-- What a returning caller said before (agent/conversation_memory.py).
pub mod Store
pub mod Isolation
mod Tests
