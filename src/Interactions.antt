-- ===== src/Interactions.antt =====
-- src/interactions.rs: the broker between providers that wait for a decision and the interface
-- that makes it. Registry has the table of one kind of interaction and its operations.
pub mod Registry
