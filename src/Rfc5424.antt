-- ===== src/Rfc5424.antt =====
-- The package rfc5424.
pub mod Delimiter
pub mod Reader
