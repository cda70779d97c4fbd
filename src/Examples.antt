-- ===== src/Examples.antt =====
-- Concrete journals, registries, messages and caches that the theorems apply to, and tests.
mod Journals
mod Stores
mod Interactions
mod Relays
mod Hosts
mod Streams
mod Runtimes
mod Shells
mod Processes
