-- ===== src/Process/Scrapes.antt =====
-- The exporter as a whole: cmd/exporter/main.go from the command line and the environment to the scrapes of the collector
-- of internal/collector over the request client of internal/client.
use tdarr_exporter.Prelude.{ℕ, ◌≡◌, refl, sym, ap, Bool, List, some}
use tdarr_exporter.GoText.{Text}
use tdarr_exporter.Config.{Config}
use tdarr_exporter.Config.Results.{Result, ok, error}
use tdarr_exporter.Config.Parse.{
  UrlParser, Loaded, version_only, loaded, parse_config, startup, new_config,
}
use tdarr_exporter.Config.Parse.Laws.{IsValid, parse_config-IsValid}
use tdarr_exporter.Metrics.{Float64}
use tdarr_exporter.Client.Request.{RequestClient, Network}
use tdarr_exporter.Collector.Cache.{SortSlice}
use tdarr_exporter.Collector.Cache.Fingerprint.{Sorts}
use tdarr_exporter.Collector.Scrape.{CollectorConfig, Scrape}
use tdarr_exporter.Collector.Setup.{new_tdarr_collector, new_tdarr_collector_with_api}
use tdarr_exporter.Collector.Remote.{Codecs, scrape, History}
use tdarr_exporter.Collector.Remote.Laws.{Reports, scrape-Reports}
use tdarr_exporter.Process.{State}
use tdarr_exporter.Process.Run.{HttpServerConfig, http_server_config, serves, begin, run}
use mathlib.Core.Path.{subst}

module _ {Url Inner After Logger : Type 0} (parser : UrlParser Url) (lower_table : ℕ → ℕ)
    (clone_transport : Bool → Inner) (time_after : After) (log_logger : Logger) where
  -- The configuration of a process that serves.
  record Configured (collector : CollectorConfig) (server : HttpServerConfig) : Type 0 where
    config : Config Url
    valid : IsValid parser lower_table config
    collects : collector ≡ new_tdarr_collector_with_api config
    labelled : server.tdarr_instance ≡ config.instance_name

  begin-Configured :
      (r : Result (Loaded Url)) (client : RequestClient Url Inner After Logger)
      (collector : CollectorConfig) (server : HttpServerConfig) (st : State)
      → ((config : Config Url) → r ≡ ok (loaded config) → IsValid parser lower_table config)
      → begin parser lower_table clone_transport time_after log_logger
          (startup parser lower_table r)
        ≡ serves client collector server st
      → Configured collector server
  unfolding new_tdarr_collector
  begin-Configured (error e) client collector server st valid h = cc h
  begin-Configured (ok version_only) client collector server st valid h = cc h
  begin-Configured (ok (loaded config)) client collector server st valid h = record {
    config = config;
    valid = valid config refl;
    collects = cc h;
    labelled =
        let same : server ≡ http_server_config config = cc h in
        ap (λ (v : HttpServerConfig). v.tdarr_instance) same;
  }

  run-Configured :
      (args : List Text) (getenv : Text → Text) (client : RequestClient Url Inner After Logger)
      (collector : CollectorConfig) (server : HttpServerConfig) (st : State)
      → run parser lower_table clone_transport time_after log_logger args getenv
        ≡ serves client collector server st
      → Configured collector server
  unfolding run new_config
  run-Configured args getenv client collector server st =
      begin-Configured (parse_config parser lower_table args getenv) client collector server st
        (λ config. parse_config-IsValid parser lower_table args getenv config)

  module _ {Num : Type 0} (Body : Type 0) (fl : Float64 Num) (sort_slice : SortSlice)
      (sorted : Sorts sort_slice) (codecs : Codecs Num) where
    -- A scrape returns, and reports.
    abbrev pub Returns :
        RequestClient Url Inner After Logger
        → CollectorConfig
        → Text
        → Scrape Num
        → Network Url Inner After Logger Body
        → Type 0
    Returns client collector instance_name s net =
        (s' : Scrape Num) × (scrape Body codecs client fl lower_table sort_slice collector net s
          ≡ some s')
        × Reports Body codecs client fl lower_table sort_slice collector instance_name net s'

    -- With a sorting `sort.Slice`, whatever the arguments and the environment of a process that comes to serve:
    -- each scrape behind any history of scrapes returns; it sends samples that are described with the server's
    -- instance as their label, and behind them one `tdarr_up`; and this is 0, or it is 1 and the samples have the
    -- info series of every library of a list that was decoded from the body of a response below 300 to the request
    -- for the libraries.
    pub run-Reports :
        (args : List Text) (getenv : Text → Text) (client : RequestClient Url Inner After Logger)
        (collector : CollectorConfig) (server : HttpServerConfig) (st : State) (s : Scrape Num)
        (net : Network Url Inner After Logger Body)
        → run parser lower_table clone_transport time_after log_logger args getenv
          ≡ serves client collector server st
        → History Body codecs client fl lower_table sort_slice collector s
        → Returns client collector server.tdarr_instance s net
    run-Reports args getenv client collector server st s net begun history =
        let c = run-Configured args getenv client collector server st begun in
        let (_, _, _, workers, _, _, _, _) = c.valid in
        subst
          (λ col.
            History Body codecs client fl lower_table sort_slice col s
            → Returns client col server.tdarr_instance s net)
          (sym c.collects)
          (λ past.
            subst (λ inst. Returns client (new_tdarr_collector_with_api c.config) inst s net)
              (sym c.labelled)
              (scrape-Reports Body codecs client fl lower_table sort_slice c.config sorted workers s
                net past))
          history
