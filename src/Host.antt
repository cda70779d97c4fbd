-- ===== src/Host.antt =====
-- src/protocol_host.rs: the dispatcher of a remote runtime host.
pub mod RequestCache
