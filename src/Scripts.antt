-- ===== src/Scripts.antt =====
-- The package scripts: what an operator runs.
pub mod Topics
pub mod Acls
