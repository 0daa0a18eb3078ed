-- ===== src/Tests.antt =====
-- Runs of the model at concrete inputs.
pub mod Sort
pub mod Client
pub mod Enums
pub mod Nodes
pub mod Sweep
pub mod Collector
pub mod Handlers
pub mod Request
pub mod Config
pub mod Process
pub mod Server
pub mod Exchange
pub mod Remote
pub mod Concurrent
pub mod Registry
