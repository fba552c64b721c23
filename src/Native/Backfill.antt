-- ===== src/Native/Backfill.antt =====
-- The package awsnative/backfill: history from the public archive.
pub mod Fault
pub mod Checksum
pub mod Epoch
pub mod Parsers
pub mod Calendar
pub mod Tiers
pub mod Manifest
pub mod Staging
pub mod Loader
pub mod Seed
