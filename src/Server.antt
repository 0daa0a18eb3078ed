-- ===== src/Server.antt =====
-- internal/server/server.go: `newMux`, over `http.ServeMux` for the patterns that it registers: a path of GET with
-- literal segments, `GET /{$}` and the catch-all `/`. The unescaping of a segment (net/url) is a parameter. A metrics
-- path is taken to be one that `parseConfig` accepts, which has no wildcard and no trailing slash.
pub mod Laws
pub mod Exchange
use tdarr_exporter.Prelude.{
  ℕ, Bool, true, false, ◌&&◌, ◌||◌, List, [], ◌∷◌, ◌++◌, map, Option, none, some, ◌==◌,
  if◌then◌else◌, drop, List_eq,
}
use tdarr_exporter.GoText.{Text, Text_eq, lit}
use tdarr_exporter.Config.Path.{split}
use tdarr_exporter.Handlers.Writer.{
  HeaderEdit, set_header, Handler, finished, edits, writes_header, writes,
}

-- The handlers of the routes.
pub data Page : Type 0 where
  metrics_page : Page
  index_page : Page
  healthz_page : Page
  not_found_page : Page

pub data Pattern : Type 0 where
  get_segments : List Text → Pattern
  get_root : Pattern
  everything : Pattern

abbrev pub Mux : Type 0
Mux = List (Pattern × Page)

-- The fallback: `quote` is how `encoding/json` writes a string.
unfoldable pub not_found : (Text → Text) → Text → Handler
not_found quote metrics_path = edits (set_header (lit "Content-Type") (lit "application/json")) (
    writes_header 404 (
      writes (lit "{\"error\":" ++ quote (lit "Route Not Found: Try " ++ metrics_path) ++ lit "}\n")
        (λ _. finished)))

-- Two patterns that match the same requests.
abbrev pub conflicts : Pattern → Pattern → Bool
conflicts (get_segments s) (get_segments t) = s == t
conflicts get_root get_root = true
conflicts everything everything = true
conflicts _ _ = false

abbrev conflicts_any : Pattern → Mux → Bool
conflicts_any p [] = false
conflicts_any p ((q, _) ∷ mux) = conflicts q p || conflicts_any p mux

-- mux.Handle; `none` for its panic at a conflict.
abbrev pub handle : Pattern → Page → Option Mux → Option Mux
handle p page none = none
handle p page (some mux) = if conflicts_any p mux then none else some (mux ++ (p, page) ∷ [])

-- A pattern of GET matches HEAD too.
abbrev pub is_get : Text → Bool
is_get method = method == lit "GET" || method == lit "HEAD"

module _ (unescape : Text → Text) where
  -- The segments of a rooted path, unescaped.
  abbrev pub segments : Text → List Text
  segments path = map unescape (split (drop 1 path))

  unfoldable pub new_mux : Text → Option Mux
  unfolding split
  new_mux metrics_path = handle everything not_found_page (
      handle (get_segments (segments (lit "/healthz"))) healthz_page (
        handle get_root index_page
          (handle (get_segments (segments metrics_path)) metrics_page (some []))))

  abbrev pub matches : Text → Text → Pattern → Bool
  matches method path (get_segments s) = is_get method && s == segments path
  matches method path get_root = is_get method && path == lit "/"
  matches method path everything = true

  -- The page of a request for a clean path: at most one pattern of GET matches it, and each is more
  -- specific than the catch-all, which stands last.
  unfoldable pub page_of : Text → Text → Mux → Option Page
  unfolding split
  page_of method path [] = none
  page_of method path ((p, page) ∷ mux) =
      if matches method path p then some page else page_of method path mux
