-- ===== src/Tests/Config.antt =====
-- The configuration (internal/config/config.go) at command lines, environments and paths.
use tdarr_exporter.Prelude.{
  ◌≡◌, ◌↔◌, refl, false, List, [], ◌∷◌, map, none, some, All, ◌==◌, if◌then◌else◌, list_eq, elem,
}
use tdarr_exporter.Prelude.Int.{pos}
use tdarr_exporter.GoText.{Text, Text_eq, lit, is_space, strip_prefix, to_lower, lower_rune}
use tdarr_exporter.Config.{Config}
use tdarr_exporter.Config.Numbers.{
  parse_bool, atoi, parse_int0, parse_uint10, digits_value, underscore_ok, parse_uint0,
}
use tdarr_exporter.Config.Results.{FlagError, err_flag_parse, not_clean, ok, error}
use tdarr_exporter.Config.Env.{
  Defaults, get_defaults, apply_env_defaults, variable_name, env_tdarr_url, env_tdarr_api_key,
  env_log_level, env_prometheus_port, env_prometheus_path, env_listen_address, env_instance_name,
}
use tdarr_exporter.Config.Flags.{
  Flag, url_flag, api_key_flag, verify_ssl_flag, log_level_flag, prometheus_port_flag,
  prometheus_path_flag, listen_address_flag, instance_name_flag, http_max_concurrency_flag, Flags,
  new_flags, parse_flags, parse_one, formal, split_name, set_flag,
}
use tdarr_exporter.Config.Flags.Laws.{
  text_value, bool_value, int_value, read_flag, render, last_setting, HasValue, parse_flags-render,
}
use tdarr_exporter.Config.Path.{check_prometheus_path, clean, split, join, clean_segments}
use tdarr_exporter.Config.Path.Laws.{IsMetricsPath, check_prometheus_path_iff}
use tdarr_exporter.Config.Parse.{
  UrlParser, loaded, parse_config, validate, parse_log_level, parse_url, contains, exits,
  new_config,
}
use tdarr_exporter.Client.Request.{RequestClient}
use tdarr_exporter.Collector.Scrape.{CollectorConfig}
use tdarr_exporter.Collector.Setup.{new_tdarr_collector}
use tdarr_exporter.Process.{start}
use tdarr_exporter.Process.Run.{http_server_config, serves, begin, run, IsReady, run-IsReady}
use tdarr_exporter.Prelude.{ap, Bool}
use tdarr_exporter.Config.Parse.{startup}
use tdarr_exporter.Config.Parse.Laws.{IsValid, parse_config-IsValid}
use tdarr_exporter.Config.Parse.Exits.{new_config-exits_2_iff}
use tdarr_exporter.Config.Parse.Precedence.{IsSetTo, name_or_host, parse_config_precedence}

abbrev pub settings : List (Flag × Text)
settings =
    (url_flag, lit "tdarr.lan")
    ∷ (verify_ssl_flag, lit "false")
    ∷ (http_max_concurrency_flag, lit "0x10")
    ∷ (url_flag, lit "tdarr")
    ∷ []

settings_typed : All HasValue settings
unfolding parse_bool parse_int0 parse_uint0 digits_value underscore_ok elem list_eq
settings_typed = (
  (text_value (lit "tdarr.lan"), refl),
  ((bool_value false, refl), ((int_value (pos 16), refl), ((text_value (lit "tdarr"), refl), tt))),
)

abbrev no_flags : Flags
no_flags = new_flags get_defaults

parse_flags-render_example :
    (fl' : Flags) × (parse_flags (map render settings) no_flags ≡ ok fl')
    × ((f : Flag) → read_flag f fl' ≡ last_setting f settings (read_flag f no_flags))
parse_flags-render_example = parse_flags-render settings no_flags settings_typed

check_prometheus_path_iff_example :
    (check_prometheus_path (lit "/a/b") ≡ none) ↔ IsMetricsPath (lit "/a/b")
check_prometheus_path_iff_example = check_prometheus_path_iff (lit "/a/b")

accepted_path : check_prometheus_path (lit "/a/b") ≡ none
unfolding check_prometheus_path clean split join clean_segments list_eq is_space
accepted_path = refl

refused_path : check_prometheus_path (lit "/a/../b") ≡ some not_clean
unfolding check_prometheus_path clean split join clean_segments list_eq is_space
refused_path = refl

-- A URL is its text, whose host is what stands behind `https://`.
abbrev pub urls : UrlParser Text
urls = record {
  parse = λ s. some s;
  hostname = λ s. elim (strip_prefix (lit "https://") s) [ some host ↦ host | none ↦ [] ];
}

abbrev pub getenv : Text → Text
getenv name = if name == lit "LOG_LEVEL" then lit "Debug" else []

abbrev pub loaded_config : Config Text
loaded_config = record {
  version = false;
  log_level = lit "Debug";
  url = lit "tdarr";
  url_parsed = lit "https://tdarr";
  instance_name = lit "tdarr";
  api_key = [];
  verify_ssl = false;
  prometheus_port = lit "9090";
  prometheus_path = lit "/metrics";
  http_timeout_seconds = 15;
  tdarr_stats_path = lit "/api/v2/cruddb";
  tdarr_pie_stats_path = lit "/api/v2/stats/get-pies";
  tdarr_node_path = lit "/api/v2/get-nodes";
  tdarr_status_path = lit "/api/v2/status";
  http_max_concurrency = 16;
  listen_address = lit "0.0.0.0";
}

config_loads : parse_config urls (λ c. c) (map render settings) getenv ≡ ok (loaded loaded_config)
unfolding parse_config apply_env_defaults variable_name get_defaults parse_bool atoi parse_uint10
    parse_int0 parse_uint0 digits_value underscore_ok elem list_eq new_flags parse_flags parse_one
    formal split_name set_flag validate check_prometheus_path clean split join clean_segments
    is_space parse_log_level to_lower lower_rune parse_url contains strip_prefix
config_loads = refl

parse_config-IsValid_example : IsValid urls (λ c. c) loaded_config
parse_config-IsValid_example =
    parse_config-IsValid urls (λ c. c) (map render settings) getenv loaded_config config_loads

parse_config_precedence_example :
    IsSetTo settings getenv url_flag env_tdarr_url [] loaded_config.url
    × IsSetTo settings getenv api_key_flag env_tdarr_api_key [] loaded_config.api_key
    × IsSetTo settings getenv log_level_flag env_log_level (lit "info") loaded_config.log_level
    × IsSetTo settings getenv prometheus_port_flag env_prometheus_port
        (lit "9090")
        loaded_config.prometheus_port
    × IsSetTo settings getenv prometheus_path_flag env_prometheus_path
        (lit "/metrics")
        loaded_config.prometheus_path
    × IsSetTo settings getenv listen_address_flag env_listen_address
        (lit "0.0.0.0")
        loaded_config.listen_address
    × (name : Text) × IsSetTo settings getenv instance_name_flag env_instance_name [] name
    × (loaded_config.instance_name ≡ name_or_host urls name loaded_config.url_parsed)
parse_config_precedence_example =
    parse_config_precedence urls (λ c. c) settings getenv loaded_config settings_typed config_loads

new_config-exits_2_iff_example : (new_config urls (λ c. c) (lit "-nope" ∷ []) getenv ≡ exits 2) ↔ (
    (defaults : Defaults) × (e : FlagError) × (apply_env_defaults getenv ≡ ok defaults)
    × (parse_flags (lit "-nope" ∷ []) (new_flags defaults) ≡ error (err_flag_parse e)))
new_config-exits_2_iff_example = new_config-exits_2_iff urls (λ c. c) (lit "-nope" ∷ []) getenv

-- The process that starts with this configuration.
abbrev pub parts : RequestClient Text Bool (Unit {0}) (Unit {0}) × CollectorConfig
parts = new_tdarr_collector (λ skip. skip) tt tt loaded_config

pub run_serves :
    run urls (λ c. c) (λ skip. skip) tt tt (map render settings) getenv
    ≡ serves parts.0 parts.1 (http_server_config loaded_config) start
unfolding run new_config
run_serves =
    ap (λ r. begin urls (λ c. c) (λ skip. skip) tt tt (startup urls (λ c. c) r)) config_loads

run-IsReady_example : IsReady parts.1 (http_server_config loaded_config) × (start ≡ start)
run-IsReady_example =
    run-IsReady urls (λ c. c) (λ skip. skip) tt tt (map render settings) getenv parts.0 parts.1
      (http_server_config loaded_config) start run_serves
