-- ===== src/Memory.antt =====
-- Conversation memory (latency_lab/memory.py): the retained turns of one call, the bounded context
-- that is sent to the model, and the compaction of older turns into a summary.
pub mod Turns
pub mod Budget
pub mod Ops
pub mod Calls
pub mod Repeats
pub mod Groups
pub mod Context
pub mod Compact
mod Tests
