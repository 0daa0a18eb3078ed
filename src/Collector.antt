-- ===== src/Collector.antt =====
-- internal/collector/tdarr.go: the collector, one module for each part of its state and each phase
-- of a scrape.
pub mod Descs
pub mod Emit
pub mod Shape
pub mod Api
pub mod Unknown
pub mod Cache
pub mod Pies
pub mod Scrape
pub mod Setup
pub mod Remote
pub mod Concurrent
