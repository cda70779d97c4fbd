-- ===== src/Relay.antt =====
-- src/relay: messages between top-level agents, what a grant permits, and the bridge of a turn.
pub mod Message
pub mod Grant
pub mod Inbound
pub mod Bridge
pub mod Tools
pub mod Calls
pub mod Accounts
pub mod Budget
pub mod Hops
pub mod Charges
pub mod Turns
pub mod Rate
pub mod Deliveries
pub mod Told
