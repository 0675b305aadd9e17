-- ===== src/Serde.antt =====
-- The package serde.
pub mod SourceBuffer
