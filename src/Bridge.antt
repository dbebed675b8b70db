-- ===== src/Bridge.antt =====
-- Bridge transfers: domain/bridge.
pub mod Legs
pub mod Candidates
pub mod Pairing
pub mod Confidence
pub mod Custody
pub mod Signals
pub mod Workflow
pub mod Pass
