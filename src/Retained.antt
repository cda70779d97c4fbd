-- ===== src/Retained.antt =====
-- src/retained.rs: runtimes that a host retains between turns.
pub mod Types
pub mod Input
pub mod Sink
pub mod Numbering
pub mod TaskEvents
pub mod Delivery
pub mod Entry
pub mod Turns
pub mod Invariant
pub mod Admitting
pub mod Operations
pub mod Exclusive
pub mod Admission
pub mod Client
pub mod Messages
pub mod Capacity
pub mod Skipped
pub mod Abandoned
