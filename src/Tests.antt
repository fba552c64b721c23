-- ===== src/Tests.antt =====
-- Runs of the definitions on concrete data, and the theorems at inputs that meet their hypotheses.
mod Sink
mod Ingest
mod Runner
mod Enrichment
mod Devlab
mod Backfill
mod Seed
mod Bars
mod Render
mod Scripts
