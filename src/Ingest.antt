-- ===== src/Ingest.antt =====
-- The reading of raw rows from an explorer: ingestion.
pub mod Sync
