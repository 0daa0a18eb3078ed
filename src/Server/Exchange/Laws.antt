-- ===== src/Server/Exchange/Laws.antt =====
-- What internal/server/server.go answers: the routes, the handlers and the middleware together.
use tdarr_exporter.Prelude.{
  ℕ, ◌≡◌, refl, ◌∙◌, false, ◌∷◌, Option, none, some, if◌then◌else◌, ◌≤◌, arith,
}
use tdarr_exporter.GoText.{Text}
use tdarr_exporter.Config.Path.Laws.{IsMetricsPath}
use tdarr_exporter.Handlers.Writer.{
  WriteResult, Called, returned, panicked, WriterOps, Handler, finished, writes_header, writes,
  HandlerFunc, serve,
}
use tdarr_exporter.Handlers.Middleware.{request_logger, recovery, status_ok}
use tdarr_exporter.Handlers.Middleware.Laws.{first_status, contained, recovery-request_logger}
use tdarr_exporter.Handlers.Pages.{index_handler, healthz_handler}
use tdarr_exporter.Handlers.Metrics.{continue_on_error, Promhttp, metrics_handler}
use tdarr_exporter.Server.{
  Page, metrics_page, index_page, healthz_page, not_found_page, not_found, is_get,
}
use tdarr_exporter.Server.Laws.{IsPlain, page_for, new_mux-page_for}
use tdarr_exporter.Server.Exchange.{
  HttpRequest, clean_path, page_handler, is_moved, mux_handler, new_handler,
}
use mathlib.Core.Option.{some-injective}
use tdarr_exporter.Process.Run.{HttpServerConfig}

-- A writer that takes a status from 100 to 999 and any body.
pub record IsOpen {W : Type 0} (ops : WriterOps W) : Type 0 where
  pub takes_header :
      (code : ℕ) (w : W)
      → 100 ≤ code
      → code ≤ 999
      → (w' : W) × (ops.write_header code w ≡ (returned tt, w'))
  pub takes_body :
      (b : Text) (w : W) → (r : WriteResult) × (w' : W) × (ops.write b w ≡ (returned r, w'))

-- The status of a page that the exporter writes itself.
abbrev pub status_of : Page → Option ℕ
status_of metrics_page = none
status_of index_page = some status_ok
status_of healthz_page = some status_ok
status_of not_found_page = some 404

-- A handler that comes to its end and commits a status.
abbrev pub Commits : {W : Type 0} → WriterOps W → Handler → ℕ → W → Type 0
Commits {W} ops h code w = ((serve h W ops w).0 ≡ returned tt) × (first_status ops h w ≡ some code)

module _ {W : Type 0} (ops : WriterOps W) (is_open : IsOpen ops) where
  body_Commits : (b : Text) (w : W) → Commits ops (writes b (λ _. finished)) status_ok w
  unfolding serve first_status
  body_Commits b w = let (r, w', e) = is_open.takes_body b w in (rw e refl, rw e refl)

  document_Commits :
      (code : ℕ) (b : Text) (w : W)
      → 100 ≤ code
      → code ≤ 999
      → Commits ops (writes_header code (writes b (λ _. finished))) code w
  unfolding serve first_status
  document_Commits code b w low high =
      let (w', e) = is_open.takes_header code w low high in
      let (r, w'', e') = is_open.takes_body b w' in (rw (e, e') refl, rw e refl)

  page_handler-Commits :
      {More : Type 0} (quote : Text → Text) (metrics_path : Text)
      (metrics : HttpRequest More → Handler) (req : HttpRequest More) (page : Page) (code : ℕ)
      (w : W)
      → status_of page ≡ some code
      → Commits ops (page_handler quote metrics_path metrics req (some page)) code w
  unfolding serve first_status index_handler healthz_handler not_found
  page_handler-Commits quote metrics_path metrics req metrics_page code w h = cc
  page_handler-Commits quote metrics_path metrics req index_page code w h =
      rw (← some-injective _ code h) (body_Commits _ _)
  page_handler-Commits quote metrics_path metrics req healthz_page code w h =
      rw (← some-injective _ code h) (document_Commits status_ok _ _ (omega arith) (omega arith))
  page_handler-Commits quote metrics_path metrics req not_found_page code w h =
      rw (← some-injective _ code h) (document_Commits 404 _ _ (omega arith) (omega arith))

  contained_returned :
      (run : Called (Unit {0}) × W) (first : Option ℕ)
      → run.0 ≡ returned tt
      → contained ops run first ≡ run
  contained_returned (returned _, w) first h = refl
  contained_returned (panicked v, w) first h = cc

module _ {More : Type 0} (unescape : Text → Text) (quote : Text → Text)
    (redirect_handler : Text → HttpRequest More → Handler)
    (leaves : (s : Text) → IsPlain s → unescape s ≡ s) where
  -- The handler that a request stands for.
  abbrev pub handler_for : Text → (HttpRequest More → Handler) → HttpRequest More → Handler
  handler_for metrics_path metrics req =
      if is_moved req
      then redirect_handler (clean_path req.path) req
      else page_handler quote metrics_path metrics req
          (some (page_for metrics_path (is_get req.method) req.path))

  -- With an unescaping that leaves texts without a percent sign as they are, a metrics path that `parseConfig`
  -- accepts and that has no percent sign, and a metrics handler that registers its counters, `newMux` does not
  -- panic; and a request for a rooted path without a percent sign is answered by the redirect to the clean path if
  -- its own is not clean, except for CONNECT, and otherwise by the page that the method and the path stand for: as
  -- that handler answers it if it returns, with a 500 written behind what it did if it panics before any status,
  -- with nothing more written if it panics later, and with the panic passed on if it is `http.ErrAbortHandler`.
  pub new_handler-contained :
      {Registry : Type 0} (promhttp : Promhttp Registry (HttpRequest More))
      (run_config : HttpServerConfig) (registry registry' : Registry)
      (metrics : HttpRequest More → Handler) (req : HttpRequest More) (r : Text) (W : Type 0)
      (ops : WriterOps W) (w : W)
      → IsMetricsPath run_config.prometheus_path
      → IsPlain run_config.prometheus_path
      → metrics_handler promhttp registry
          (record { error_handling = continue_on_error; registry = none })
          run_config.tdarr_instance
        ≡ some (metrics, registry')
      → req.path ≡ b'/' ∷ r
      → IsPlain r
      → let h = handler_for run_config.prometheus_path metrics req in
        (handler : HttpRequest More → HandlerFunc) × (new_handler unescape quote redirect_handler
            promhttp run_config registry
          ≡ some (handler, registry'))
        × (handler req W ops w ≡ contained ops (serve h W ops w) (first_status ops h w))
  unfolding new_handler mux_handler
  new_handler-contained promhttp run_config registry registry' metrics req r W ops w accepted plain
        registers rooted plain' =
      let (mux, routed, served) =
        new_mux-page_for unescape leaves run_config.prometheus_path req.method r accepted plain
          plain' in
      let page = rw (← rooted) at served in
      let same : mux_handler unescape quote redirect_handler run_config.prometheus_path metrics mux
            req
          ≡ handler_for run_config.prometheus_path metrics req =
        rw page refl in
      (
        λ req. recovery (
            request_logger (
              serve (
                mux_handler unescape quote redirect_handler run_config.prometheus_path metrics mux
                  req))),
        rw (registers, routed) refl,
        rw same
            (recovery-request_logger (handler_for run_config.prometheus_path metrics req) W ops w),
      )

  -- With an unescaping that leaves texts without a percent sign as they are, a metrics path that `parseConfig`
  -- accepts and that has no percent sign, a metrics handler that registers its counters, and a writer that takes
  -- every status from 100 to 999 and every body: a request that is not redirected, for a rooted path without a
  -- percent sign, whose page is one of the exporter's own, is answered by that page's handler alone, which comes
  -- to its end, and the first status is 200 for the landing page and the liveness page and 404 for the fallback.
  pub new_handler-Commits :
      {Registry : Type 0} (promhttp : Promhttp Registry (HttpRequest More))
      (run_config : HttpServerConfig) (registry registry' : Registry)
      (metrics : HttpRequest More → Handler) (req : HttpRequest More) (r : Text) (page : Page)
      (code : ℕ) (W : Type 0) (ops : WriterOps W) (w : W)
      → IsMetricsPath run_config.prometheus_path
      → IsPlain run_config.prometheus_path
      → metrics_handler promhttp registry
          (record { error_handling = continue_on_error; registry = none })
          run_config.tdarr_instance
        ≡ some (metrics, registry')
      → req.path ≡ b'/' ∷ r
      → IsPlain r
      → is_moved req ≡ false
      → page_for run_config.prometheus_path (is_get req.method) req.path ≡ page
      → status_of page ≡ some code
      → IsOpen ops
      → let h = page_handler quote run_config.prometheus_path metrics req (some page) in
        (handler : HttpRequest More → HandlerFunc) × (new_handler unescape quote redirect_handler
            promhttp run_config registry
          ≡ some (handler, registry'))
        × (handler req W ops w ≡ serve h W ops w)
        × Commits ops h code w
  new_handler-Commits promhttp run_config registry registry' metrics req r page code W ops w
        accepted plain registers rooted plain' clean served status is_open =
      let (handler, built, answer) =
        new_handler-contained promhttp run_config registry registry' metrics req r W ops w accepted
          plain registers rooted plain' in
      let h = page_handler quote run_config.prometheus_path metrics req (some page) in
      let (ends, commits) =
        page_handler-Commits ops is_open quote run_config.prometheus_path metrics req page code w
          status in
      let same : handler_for run_config.prometheus_path metrics req ≡ h = rw (clean, served) refl in
      (
        handler,
        built,
        (rw same at answer)
            ∙ contained_returned ops is_open (serve h W ops w) (first_status ops h w) ends,
        (ends, commits),
      )
