-- ===== src/Config/Env.antt =====
-- internal/config/config.go: the names of the environment variables, `getDefaults` and `applyEnvDefaults`. The
-- fields of a `Config` that are not validated yet stand in a record of their own; their counts are integers.
use tdarr_exporter.Prelude.{Bool, true, Option, if◌then◌else◌, []}
use tdarr_exporter.Prelude.Int.{ℤ, pos}
use tdarr_exporter.GoText.{Text, lit, is_empty}
use tdarr_exporter.Config.Numbers.{parse_bool, atoi}
use tdarr_exporter.Config.Results.{
  ConfigError, invalid_verify_ssl, invalid_http_max_concurrency, invalid_http_timeout_seconds,
  Result, ok, ◌>>=◌, or_error,
}

-- The environment variables that are read, and their names.
pub data Variable : Type 0 where
  env_tdarr_url : Variable
  env_tdarr_api_key : Variable
  env_ssl_verify : Variable
  env_prometheus_port : Variable
  env_prometheus_path : Variable
  env_log_level : Variable
  env_http_max_concurrency : Variable
  env_http_timeout_seconds : Variable
  env_listen_address : Variable
  env_instance_name : Variable

unfoldable pub variable_name : Variable → Text
variable_name env_tdarr_url = lit "TDARR_URL"
variable_name env_tdarr_api_key = lit "TDARR_API_KEY"
variable_name env_ssl_verify = lit "VERIFY_SSL"
variable_name env_prometheus_port = lit "PROMETHEUS_PORT"
variable_name env_prometheus_path = lit "PROMETHEUS_PATH"
variable_name env_log_level = lit "LOG_LEVEL"
variable_name env_http_max_concurrency = lit "HTTP_MAX_CONCURRENCY"
variable_name env_http_timeout_seconds = lit "HTTP_TIMEOUT_SECONDS"
variable_name env_listen_address = lit "LISTEN_ADDRESS"
variable_name env_instance_name = lit "INSTANCE_NAME"

pub record Defaults : Type 0 where
  pub log_level : Text
  pub url : Text
  pub instance_name : Text
  pub api_key : Text
  pub verify_ssl : Bool
  pub prometheus_port : Text
  pub prometheus_path : Text
  pub http_timeout_seconds : ℤ
  pub tdarr_stats_path : Text
  pub tdarr_pie_stats_path : Text
  pub tdarr_node_path : Text
  pub tdarr_status_path : Text
  pub http_max_concurrency : ℤ
  pub listen_address : Text

unfoldable pub get_defaults : Defaults
get_defaults = record {
  log_level = lit "info";
  url = [];
  instance_name = [];
  api_key = [];
  verify_ssl = true;
  prometheus_port = lit "9090";
  prometheus_path = lit "/metrics";
  http_timeout_seconds = pos 15;
  tdarr_stats_path = lit "/api/v2/cruddb";
  tdarr_node_path = lit "/api/v2/get-nodes";
  tdarr_pie_stats_path = lit "/api/v2/stats/get-pies";
  tdarr_status_path = lit "/api/v2/status";
  http_max_concurrency = pos 3;
  listen_address = lit "0.0.0.0";
}

-- if v := getenv(name); v != "" { field = v }
abbrev pub or_text : Text → Text → Text
or_text v current = if is_empty v then current else v

-- A value that is parsed, if it is not empty.
abbrev pub or_parsed {ℓ} :
    {A : Type ℓ} → (Text → ConfigError) → (Text → Option A) → Text → A → Result A
or_parsed err parse v current = if is_empty v then ok current else or_error (err v) (parse v)

unfoldable pub apply_env_defaults : (Text → Text) → Result Defaults
unfolding variable_name get_defaults parse_bool atoi
apply_env_defaults getenv = do
  let env : Variable → Text = λ v. getenv (variable_name v)
  let defaults : Defaults = record get_defaults {
    url = or_text (env env_tdarr_url) get_defaults.url;
    api_key = or_text (env env_tdarr_api_key) get_defaults.api_key;
    prometheus_port = or_text (env env_prometheus_port) get_defaults.prometheus_port;
    prometheus_path = or_text (env env_prometheus_path) get_defaults.prometheus_path;
    log_level = or_text (env env_log_level) get_defaults.log_level;
    listen_address = or_text (env env_listen_address) get_defaults.listen_address;
    instance_name = or_text (env env_instance_name) get_defaults.instance_name;
  }
  bool_value ← or_parsed invalid_verify_ssl parse_bool (env env_ssl_verify) defaults.verify_ssl
  max_concurrency ←
      or_parsed invalid_http_max_concurrency atoi (env env_http_max_concurrency)
        defaults.http_max_concurrency
  timeout ←
      or_parsed invalid_http_timeout_seconds atoi (env env_http_timeout_seconds)
        defaults.http_timeout_seconds
  ok (record defaults {
    verify_ssl = bool_value;
    http_max_concurrency = max_concurrency;
    http_timeout_seconds = timeout;
  })
