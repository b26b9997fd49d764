-- ===== src/Speech.antt =====
-- What of the model's text is spoken (latency_lab/llm_output.py).
pub mod Tags
pub mod Filter
pub mod Spoken
pub mod Hidden
mod Tests
