-- ===== src/Pipeline.antt =====
-- The turns of the live pipeline (latency_lab/pipeline.py).
pub mod State
pub mod Attempts
pub mod Voice
pub mod Transcript
pub mod Client
pub mod Base
pub mod Quiet
pub mod Turns
pub mod Replies
pub mod Listening
pub mod Hearing
pub mod Steps
pub mod Authority
pub mod Phrases
pub mod Whole
pub mod Ends
pub mod Hush
pub mod Silenced
pub mod Cancelled
mod Tests
