-- ===== src/Collector/Setup.antt =====
-- The construction of the collector: `NewTdarrCollector` and `newTdarrCollectorWithAPI` of internal/collector/tdarr.go with
-- `NewTdarrNodeCollector` of internal/collector/tdarr_nodes.go.
use tdarr_exporter.Prelude.{Bool, []}
use tdarr_exporter.Config.{Config}
use tdarr_exporter.Client.Request.{RequestClient, new_request_client}
use tdarr_exporter.Nodes.Descs.{new_tdarr_node_metrics}
use tdarr_exporter.Collector.Descs.{new_collector_metrics}
use tdarr_exporter.Collector.Cache.{new_tdarr_lib_stats_cache}
use tdarr_exporter.Collector.Scrape.{CollectorConfig, Scrape}

unfoldable pub new_tdarr_collector_with_api : {Url : Type 0} → Config Url → CollectorConfig
new_tdarr_collector_with_api run_config = record {
  stats_path = run_config.tdarr_stats_path;
  pie_stats_path = run_config.tdarr_pie_stats_path;
  status_path = run_config.tdarr_status_path;
  node_path = run_config.tdarr_node_path;
  max_concurrency = run_config.http_max_concurrency;
  metrics = new_collector_metrics run_config.instance_name;
  node_metrics = new_tdarr_node_metrics run_config.instance_name;
}

-- The request client, whose `DoRequest` and `DoPostRequest` are the collector's API, and the collector around it.
-- `NewRequestClient` returns no error. The context of the scrapes is left out.
unfoldable pub new_tdarr_collector :
    {Url Inner After Logger : Type 0}
    → (Bool → Inner)
    → After
    → Logger
    → Config Url
    → RequestClient Url Inner After Logger × CollectorConfig
unfolding new_request_client new_tdarr_collector_with_api
new_tdarr_collector clone_transport time_after log_logger run_config = (
  new_request_client clone_transport time_after log_logger run_config.url_parsed
      run_config.verify_ssl run_config.http_timeout_seconds run_config.api_key,
  new_tdarr_collector_with_api run_config,
)

-- The state of a new collector.
unfoldable pub new_scrape : {Num : Type 0} → Scrape Num
unfolding new_tdarr_lib_stats_cache
new_scrape = record { stats_cache = new_tdarr_lib_stats_cache; unknown_status_counts = []; ch = [] }
