-- ===== src/Lots.antt =====
-- The lot engine: domain/lots/engine.py, methods.py and service.py.
pub mod Methods
pub mod Consume
pub mod Lines
pub mod Pools
pub mod Treatment
pub mod Acquire
pub mod Dispose
pub mod Relocate
pub mod Engine
