-- ===== src/CrossEntity.antt =====
-- Transfers between entities: domain/cross_entity.
pub mod Resolve
pub mod Detection
