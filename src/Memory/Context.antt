-- ===== src/Memory/Context.antt =====
-- `context` of latency_lab/memory.py: the newest exchanges that fit the budget. Reading the context
-- changes no state, so it is a function of the memory.
pub mod Defs
pub mod Bound
pub mod Whole
unfoldable pub use Defs.*
