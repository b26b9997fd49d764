-- ===== src/Noise.antt =====
-- The noise suppression before speech recognition (latency_lab/input_noise.py).
pub mod Filter
pub mod Stream
pub mod Whole
pub mod FailOpen
mod Tests
