-- ===== src/Nodes.antt =====
-- internal/collector/tdarr_nodes.go: nodes and their workers.
pub mod Descs
pub mod WorkerType
pub mod Eta
pub mod Emit
