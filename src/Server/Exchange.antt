-- ===== src/Server/Exchange.antt =====
-- internal/server/server.go: what `newMux` makes of a request, from the middleware through `http.ServeMux` to the
-- handlers of internal/handlers, and the `http.Server` of `ServeHttp`. The mux answers a path that is not clean by a
-- redirect, except for CONNECT; the redirect's handler (net/http) is a parameter, and so is the metrics handler.
pub mod Laws
use tdarr_exporter.Prelude.{
  ℕ, ◌*◌, Bool, false, not, ◌&&◌, ◌||◌, List, [], ◌∷◌, ◌++◌, Option, none, some, ◌==◌, ℕ_eq,
  if◌then◌else◌,
}
use tdarr_exporter.GoText.{Text, Text_eq, lit}
use tdarr_exporter.Config.Path.{clean, is_rooted, any_rune}
use tdarr_exporter.Handlers.Writer.{Handler, HandlerFunc, serve}
use tdarr_exporter.Handlers.Middleware.{http_error, request_logger, recovery}
use tdarr_exporter.Handlers.Pages.{index_handler, healthz_handler}
use tdarr_exporter.Handlers.Metrics.{
  HandlerOpts, continue_on_error, Promhttp, metrics_handler, ◌>>=◌,
}
use tdarr_exporter.Server.{
  Page, metrics_page, index_page, healthz_page, not_found_page, Mux, not_found, new_mux, page_of,
}
use tdarr_exporter.Process.Run.{HttpServerConfig}

-- A request by its method and its escaped path, with all else that the metrics handler may read.
pub record HttpRequest (More : Type 0) : Type 0 where
  pub method : Text
  pub path : Text
  pub more : More

abbrev pub ends_with_slash : Text → Bool
ends_with_slash [] = false
ends_with_slash (c ∷ []) = c == b'/'
ends_with_slash (c ∷ d ∷ s) = ends_with_slash (d ∷ s)

-- The mux's own cleaning of a path, which keeps a slash at the end.
unfoldable pub clean_path : Text → Text
unfolding clean
clean_path p =
    let rooted = if is_rooted p then p else b'/' ∷ p in
    if ends_with_slash rooted && not (clean rooted == lit "/")
    then clean rooted ++ lit "/"
    else clean rooted

-- The handlers as `newMux` registers them; without a page the mux has an answer of its own.
abbrev pub page_handler :
    {More : Type 0}
    → (Text → Text)
    → Text
    → (HttpRequest More → Handler)
    → HttpRequest More
    → Option Page
    → Handler
page_handler quote metrics_path metrics req none = http_error (lit "404 page not found\n") 404
page_handler quote metrics_path metrics req (some metrics_page) = metrics req
page_handler quote metrics_path metrics req (some index_page) = index_handler metrics_path
page_handler quote metrics_path metrics req (some healthz_page) = healthz_handler
page_handler quote metrics_path metrics req (some not_found_page) = not_found quote metrics_path

-- The mux redirects.
abbrev pub is_moved : {More : Type 0} → HttpRequest More → Bool
is_moved req = not (req.method == lit "CONNECT") && not (req.path == clean_path req.path)

module _ {More : Type 0} (unescape : Text → Text) (quote : Text → Text)
    (redirect_handler : Text → HttpRequest More → Handler) where
  unfoldable pub mux_handler :
      Text → (HttpRequest More → Handler) → Mux → HttpRequest More → Handler
  unfolding clean_path page_of
  mux_handler metrics_path metrics mux req =
      if is_moved req
      then redirect_handler (clean_path req.path) req
      else page_handler quote metrics_path metrics req (page_of unescape req.method req.path mux)

  -- The handler that `newMux` returns, as what it does of a request, and the registry behind it.
  unfoldable pub new_handler :
      {Registry : Type 0}
      → Promhttp Registry (HttpRequest More)
      → HttpServerConfig
      → Registry
      → Option ((HttpRequest More → HandlerFunc) × Registry)
  unfolding metrics_handler new_mux mux_handler recovery request_logger serve
  new_handler promhttp run_config registry = do
    (metrics, registry') ←
        metrics_handler promhttp registry
          (record { error_handling = continue_on_error; registry = none }) run_config.tdarr_instance
    mux ← new_mux unescape run_config.prometheus_path
    some (
      λ req.
          recovery
            (request_logger (serve (mux_handler run_config.prometheus_path metrics mux req))),
      registry',
    )

-- `net.JoinHostPort`: a host with a colon or a percent sign stands in brackets.
unfoldable pub join_host_port : Text → Text → Text
join_host_port host port =
    if any_rune (λ c. c == b':' || c == b'%') host
    then lit "[" ++ host ++ lit "]:" ++ port
    else host ++ lit ":" ++ port

-- The fields of the `http.Server` that `ServeHttp` sets, but for the handler, and the timeout that it does not.
-- Durations are in nanoseconds; 0 is no timeout.
pub record HttpServer : Type 0 where
  pub addr : Text
  pub read_header_timeout : ℕ
  pub write_timeout : ℕ
  pub idle_timeout : ℕ

abbrev second : ℕ
second = 1_000_000_000

unfoldable pub http_server : HttpServerConfig → HttpServer
unfolding join_host_port
http_server run_config = record {
  addr = join_host_port run_config.listen_address run_config.prometheus_port;
  read_header_timeout = 5 * second;
  write_timeout = 0;
  idle_timeout = 120 * second;
}
