-- ===== src/Services.antt =====
-- src/services.rs: processes that run in the background.
pub mod Process
pub mod Supervise
pub mod Logs
pub mod Endings
