-- ===== src/Tests/Server.antt =====
-- The routes of `newMux` (internal/server/server.go) for the default metrics path.
use tdarr_exporter.Prelude.{◌≡◌, refl, none, list_eq}
use tdarr_exporter.GoText.{lit, is_space}
use tdarr_exporter.Config.Path.{split, join, clean, clean_segments, check_prometheus_path}
use tdarr_exporter.Config.Path.Laws.{IsMetricsPath, check_prometheus_path_iff}
use tdarr_exporter.Server.{healthz_page, is_get}
use tdarr_exporter.Server.Laws.{page_for}

default_path_accepted : check_prometheus_path (lit "/metrics") ≡ none
unfolding check_prometheus_path clean split join clean_segments list_eq is_space
default_path_accepted = refl

pub default_path-IsMetricsPath : IsMetricsPath (lit "/metrics")
default_path-IsMetricsPath = (check_prometheus_path_iff (lit "/metrics")).0 default_path_accepted

healthz_served : page_for (lit "/metrics") (is_get (lit "GET")) (lit "/healthz") ≡ healthz_page
unfolding list_eq
healthz_served = refl
