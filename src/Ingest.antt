-- ===== src/Ingest.antt =====
-- The package ingest: venue streams to a topic.
pub mod Models
pub mod Gaps
pub mod Rows
pub mod Coinbase
pub mod Binance
pub mod Instruments
pub mod RateLimit
pub mod Queue
pub mod Ws
pub mod Runner
pub mod Cli
