-- ===== src/Engagement.antt =====
-- The engagement policy (latency_lab/engagement.py).
pub mod State
pub mod Tools
pub mod Opportunity
pub mod Reconsider
pub mod Hangup
pub mod Events
pub mod Book
pub mod Refines
pub mod Single
pub mod Pinned
pub mod Frame
pub mod Handlers
pub mod Bounded
pub mod Gate
pub mod Phrase
mod Tests
