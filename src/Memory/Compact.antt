-- ===== src/Memory/Compact.antt =====
-- `compact` of latency_lab/memory.py in its two parts: what it asks the model to summarize, and what
-- it does with the reply, between which the call goes on.
pub mod Defs
pub mod Recent
pub mod Commit
