-- ===== src/Process/Registry.antt =====
-- `buildRegistry` of cmd/exporter/main.go, over the client library of Prometheus: a registry that registers collectors
-- through a registerer with labels, and panics (`none`) where it refuses one.
pub mod Laws
use tdarr_exporter.Prelude.{[], Option}
use tdarr_exporter.GoText.{Text, lit}
use tdarr_exporter.Handlers.Metrics.{Labels, instance_labels, ◌>>=◌}

-- `new_version_collector` is `NewCollector` of prometheus/client_golang's version collector.
pub record Prometheus (Registry Collector : Type 0) : Type 0 where
  pub new_registry : Registry
  pub must_register : Labels → Collector → Registry → Option Registry
  pub new_go_collector : Collector
  pub new_process_collector : Collector
  pub new_version_collector : Text → Collector

module _ {Registry Collector : Type 0} (prom : Prometheus Registry Collector) where
  unfoldable pub build_registry : Text → Collector → Option Registry
  build_registry instance_name tdarr_collector = do
    tdarr ← prom.must_register [] tdarr_collector prom.new_registry
    with_go ← prom.must_register [] prom.new_go_collector tdarr
    with_process ← prom.must_register [] prom.new_process_collector with_go
    prom.must_register (instance_labels instance_name)
        (prom.new_version_collector (lit "tdarr_exporter")) with_process
