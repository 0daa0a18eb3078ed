-- ===== src/Tests/Exchange.antt =====
-- Requests to the handler of `newMux` (internal/server/server.go), over a writer that keeps what it is asked for.
use tdarr_exporter.Prelude.{
  ℕ, ◌≡◌, refl, false, List, [], ◌∷◌, ◌++◌, none, some, list_eq, ltb, arith,
}
use tdarr_exporter.GoText.{Text, Text_eq, lit}
use tdarr_exporter.Config.Path.{split, join, clean, clean_segments}
use tdarr_exporter.Handlers.Writer.{
  other_value, Handler, finished, panics, writes_header, HandlerFunc, serve,
}
use tdarr_exporter.Handlers.Middleware.Laws.{first_status, contained}
use tdarr_exporter.Handlers.Metrics.{continue_on_error, Promhttp, metrics_handler}
use tdarr_exporter.Server.{healthz_page}
use tdarr_exporter.Server.Exchange.{
  HttpRequest, clean_path, page_handler, new_handler, http_server, join_host_port,
}
use tdarr_exporter.Server.Exchange.Laws.{
  IsOpen, Commits, handler_for, new_handler-contained, new_handler-Commits,
}
use tdarr_exporter.Process.Run.{HttpServerConfig}
use tdarr_exporter.Tests.Handlers.{Effect, header_sent, effects}
use tdarr_exporter.Tests.Server.{default_path-IsMetricsPath}

-- A metrics handler that panics before it commits a status, and a registry that counts registrations.
abbrev promhttp : Promhttp ℕ (HttpRequest (Unit {0}))
promhttp = record {
  handler_for = λ opts reg. some (λ req. panics (other_value (lit "gather")), 1);
  instrument_metric_handler = λ labels handler reg. some (handler, 2);
}

abbrev moved : Text → HttpRequest (Unit {0}) → Handler
moved to req = writes_header 301 finished

abbrev run_config : HttpServerConfig
run_config = record {
  tdarr_instance = lit "home";
  listen_address = lit "::1";
  prometheus_port = lit "9090";
  prometheus_path = lit "/metrics";
  graceful_timeout = 30;
}

abbrev get : Text → HttpRequest (Unit {0})
get path = record { method = lit "GET"; path = path; more = tt }

registers :
    metrics_handler promhttp 0
      (record { error_handling = continue_on_error; registry = none })
      (lit "home")
    ≡ some (λ req. panics (other_value (lit "gather")), 2)
unfolding metrics_handler
registers = refl

new_handler-contained_example :
    let h =
      handler_for
        (λ s. s)
        (λ s. s)
        moved
        (λ s plain. refl)
        (lit "/metrics")
        (λ req. panics (other_value (lit "gather")))
        (get (lit "/metrics")) in
    (handler : HttpRequest (Unit {0}) → HandlerFunc) × (new_handler
        (λ s. s)
        (λ s. s)
        moved
        promhttp
        run_config
        0
      ≡ some (handler, 2))
    × (handler (get (lit "/metrics")) (List Effect) effects []
        ≡ contained effects (serve h (List Effect) effects []) (first_status effects h []))
new_handler-contained_example =
    new_handler-contained (λ s. s) (λ s. s) moved (λ s plain. refl) promhttp run_config 0 2
      (λ req. panics (other_value (lit "gather"))) (get (lit "/metrics")) (lit "metrics")
      (List Effect) effects [] default_path-IsMetricsPath refl registers refl refl

effects-IsOpen : IsOpen effects
effects-IsOpen = record {
  takes_header = λ code w low high. (
    w ++ header_sent code ∷ [],
    let enough : ltb code 100 ≡ false = ground arith in rw enough refl,
  );
  takes_body = λ b w. (_, _, refl);
}

new_handler-Commits_example :
    let h =
      page_handler
        (λ s. s)
        (lit "/metrics")
        (λ req. panics (other_value (lit "gather")))
        (get (lit "/healthz"))
        (some healthz_page) in
    (handler : HttpRequest (Unit {0}) → HandlerFunc) × (new_handler
        (λ s. s)
        (λ s. s)
        moved
        promhttp
        run_config
        0
      ≡ some (handler, 2))
    × (handler (get (lit "/healthz")) (List Effect) effects [] ≡ serve h (List Effect) effects [])
    × Commits effects h 200 []
unfolding clean_path clean split join clean_segments list_eq
new_handler-Commits_example =
    new_handler-Commits (λ s. s) (λ s. s) moved (λ s plain. refl) promhttp run_config 0 2
      (λ req. panics (other_value (lit "gather"))) (get (lit "/healthz")) (lit "healthz")
      healthz_page 200 (List Effect) effects [] default_path-IsMetricsPath refl registers refl refl
      refl refl refl effects-IsOpen

redirected : clean_path (lit "/a//../metrics/") ≡ lit "/metrics/"
unfolding clean_path clean split join clean_segments list_eq
redirected = refl

bracketed : (http_server run_config).addr ≡ lit "[::1]:9090"
unfolding http_server join_host_port
bracketed = refl
