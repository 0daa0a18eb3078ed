-- ===== src/Process/Run.antt =====
-- cmd/exporter/main.go: `run` up to the start of the server, over `NewConfig` and `NewTdarrCollector`. The
-- registry is left out.
use tdarr_exporter.Prelude.{ℕ, ◌*◌, ◌<◌, ◌≡◌, ◌≢◌, refl, sym, Bool, List, []}
use tdarr_exporter.GoText.{Text}
use tdarr_exporter.Config.{Config}
use tdarr_exporter.Config.Results.{Result, ok, error}
use tdarr_exporter.Config.Path.Laws.{IsMetricsPath}
use tdarr_exporter.Config.Parse.{
  UrlParser, Loaded, version_only, loaded, parse_config, Startup, exits, starts, startup,
  new_config,
}
use tdarr_exporter.Config.Parse.Laws.{IsPort, IsValid, parse_config-IsValid}
use tdarr_exporter.Client.Request.{RequestClient}
use tdarr_exporter.Collector.Scrape.{CollectorConfig}
use tdarr_exporter.Collector.Setup.{new_tdarr_collector, new_tdarr_collector_with_api}
use tdarr_exporter.Process.{State, start}

-- internal/server/server.go; the timeout in nanoseconds.
pub record HttpServerConfig : Type 0 where
  pub tdarr_instance : Text
  pub listen_address : Text
  pub prometheus_port : Text
  pub prometheus_path : Text
  pub graceful_timeout : ℕ

abbrev pub http_server_config : {Url : Type 0} → Config Url → HttpServerConfig
http_server_config user_config = record {
  tdarr_instance = user_config.instance_name;
  listen_address = user_config.listen_address;
  prometheus_port = user_config.prometheus_port;
  prometheus_path = user_config.prometheus_path;
  graceful_timeout = 30 * 1_000_000_000;
}

-- How `run` begins: the process exits with a status, or its goroutines are started.
pub data Begun (Url Inner After Logger : Type 0) : Type 0 where
  ends : ℕ → Begun Url Inner After Logger
  serves :
      RequestClient Url Inner After Logger
      → CollectorConfig
      → HttpServerConfig
      → State
      → Begun Url Inner After Logger

-- What the parts of a process that serves are given.
abbrev pub IsReady : CollectorConfig → HttpServerConfig → Type 0
IsReady collector server =
    (0 < collector.max_concurrency)
    × (server.tdarr_instance ≢ [])
    × IsPort server.prometheus_port
    × IsMetricsPath server.prometheus_path

module _ {Url Inner After Logger : Type 0} (parser : UrlParser Url) (lower_table : ℕ → ℕ)
    (clone_transport : Bool → Inner) (time_after : After) (log_logger : Logger) where
  abbrev pub begin : Startup Url → Begun Url Inner After Logger
  begin (exits status) = ends status
  begin (starts version_only level) = ends 0
  begin (starts (loaded user_config) level) =
      let (api, collector) =
        new_tdarr_collector clone_transport time_after log_logger user_config in
      serves api collector (http_server_config user_config) start

  unfoldable pub run : List Text → (Text → Text) → Begun Url Inner After Logger
  unfolding new_config new_tdarr_collector
  run args getenv = begin (new_config parser lower_table args getenv)

  serves_injective :
      (a a' : RequestClient Url Inner After Logger) (c c' : CollectorConfig)
      (v v' : HttpServerConfig) (s s' : State)
      → ◌≡◌ {A = Begun Url Inner After Logger} (serves a c v s) (serves a' c' v' s')
      → (c ≡ c') × (v ≡ v') × (s ≡ s')
  serves_injective a a' c c' v v' s s' h = (cc h, cc h, cc h)

  begin-IsReady :
      (r : Result (Loaded Url)) (api : RequestClient Url Inner After Logger)
      (collector : CollectorConfig) (server : HttpServerConfig) (s : State)
      → ((config : Config Url) → r ≡ ok (loaded config) → IsValid parser lower_table config)
      → begin (startup parser lower_table r) ≡ serves api collector server s
      → IsReady collector server × (s ≡ start)
  unfolding new_tdarr_collector new_tdarr_collector_with_api
  begin-IsReady (error e) api collector server s valid h = cc h
  begin-IsReady (ok version_only) api collector server s valid h = cc h
  begin-IsReady (ok (loaded config)) api collector server s valid h =
      let (_, _, label, workers, _, port, path, _) = valid config refl in
      let (c, v, begins) = serves_injective _ api _ collector _ server _ s h in
      (rw (← c, ← v) (workers, label, port, path), sym begins)

  -- A process that comes to serve is ready: it has a worker for the sweep at least, a label, a port and a metrics
  -- path that were accepted, and its goroutines stand at their start.
  pub run-IsReady :
      (args : List Text) (getenv : Text → Text) (api : RequestClient Url Inner After Logger)
      (collector : CollectorConfig) (server : HttpServerConfig) (s : State)
      → run args getenv ≡ serves api collector server s
      → IsReady collector server × (s ≡ start)
  unfolding run new_config
  run-IsReady args getenv api collector server s h =
      begin-IsReady (parse_config parser lower_table args getenv) api collector server s
        (λ config. parse_config-IsValid parser lower_table args getenv config) h
