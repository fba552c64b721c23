-- ===== src/Native.antt =====
-- The package awsnative: the same streams on AWS.
pub mod Encode
pub mod Sink
pub mod Backfill
pub mod Enrichment
pub mod Athena
pub mod Pipeline
pub mod Bars
pub mod Render
pub mod Monitoring
pub mod Statements
