-- ===== src/Journal.antt =====
-- src/journal.rs: the bounded event journal of retained runtimes.
-- Types has the envelopes and errors, Invocation the journal of one invocation, Runtime that of
-- one runtime, Replay the cursor-based replay, Store the process-local journal behind the lock.
-- The lock makes each call atomic, so a run is a list of calls.
pub mod Types
pub mod Invocation
pub mod Runtime
pub mod Replay
pub mod Store
