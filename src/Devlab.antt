-- ===== src/Devlab.antt =====
-- The package devlab: reads of the broker's state and of the log.
pub mod Config
pub mod Health
pub mod Stream
