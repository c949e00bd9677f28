-- ===== src/Decision.antt =====
-- decision/ (src/vllm_verifier/decision): direct candidate scoring.
pub mod Readout
pub mod Batching
pub mod Rows
pub mod Scoring
pub mod Artifact
pub mod Queue
mod Tests
