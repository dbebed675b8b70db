-- ===== src/Pricing.antt =====
-- The prices of tokens: pricing.
pub mod Sources
pub mod Service
