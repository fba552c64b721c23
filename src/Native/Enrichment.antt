-- ===== src/Native/Enrichment.antt =====
-- The package awsnative/enrichment.
pub mod Perp
pub mod Macro
pub mod Collect
