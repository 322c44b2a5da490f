-- ===== src/Input.antt =====
-- The package input.
pub mod Netstr
pub mod Syslog
pub mod Handler
pub mod Event
pub mod Collector
