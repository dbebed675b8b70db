-- ===== src/Classify.antt =====
-- The classifier of raw rows: classify.
pub mod Types
pub mod Context
pub mod Recognizers
pub mod Decoders
pub mod Lqst
pub mod Orchestrator
pub mod Tasks
