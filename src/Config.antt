-- ===== src/Config.antt =====
-- internal/config/config.go: the configuration record. The parsed URL (`net/url`) is an argument; the
-- counts of the command line, which are validated to be positive, are natural numbers.
pub mod Numbers
pub mod Results
pub mod Env
pub mod Flags
pub mod Path
pub mod Parse
use tdarr_exporter.Prelude.{ℕ, Bool}
use tdarr_exporter.GoText.{Text}

pub record Config (Url : Type 0) : Type 0 where
  pub version : Bool
  pub log_level : Text
  pub url : Text
  pub url_parsed : Url
  pub instance_name : Text
  pub api_key : Text
  pub verify_ssl : Bool
  pub prometheus_port : Text
  pub prometheus_path : Text
  pub http_timeout_seconds : ℕ
  pub tdarr_stats_path : Text
  pub tdarr_pie_stats_path : Text
  pub tdarr_node_path : Text
  pub tdarr_status_path : Text
  pub http_max_concurrency : ℕ
  pub listen_address : Text
