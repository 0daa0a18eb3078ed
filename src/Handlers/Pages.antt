-- ===== src/Handlers/Pages.antt =====
-- internal/handlers/index.go and internal/handlers/healthz.go: the landing page and the liveness page, as
-- handlers. `html.EscapeString` is written out; the health document is what `encoding/json` makes of it,
-- with the empty error omitted and a line feed behind it.
pub mod Laws
use tdarr_exporter.Prelude.{ℕ, List, [], ◌∷◌, ◌++◌, ◌==◌, if◌then◌else◌, ℕ_eq}
use tdarr_exporter.GoText.{Text, lit, is_empty}
use tdarr_exporter.Handlers.Writer.{
  HeaderEdit, set_header, Handler, finished, edits, writes_header, writes,
}
use tdarr_exporter.Handlers.Middleware.{status_ok}

pub record InternalHealth : Type 0 where
  pub status : Text
  pub error : Text

-- `json.NewEncoder(w).Encode`, for texts that need no escape.
abbrev pub encode_health : InternalHealth → Text
encode_health h =
    lit "{\"status\":\""
    ++ h.status
    ++ lit "\""
    ++ (if is_empty h.error then [] else lit ",\"error\":\"" ++ h.error ++ lit "\"")
    ++ lit "}\n"

unfoldable pub healthz_handler : Handler
healthz_handler = edits (set_header (lit "Content-Type") (lit "application/json")) (
    writes_header status_ok
      (writes (encode_health (record { status = lit "ok"; error = [] })) (λ _. finished)))

-- `html.EscapeString`.
unfoldable pub escape_rune : ℕ → Text
escape_rune c =
    if c == b'&'
    then lit "&amp;"
    else if c == 0x27
    then lit "&#39;"
    else if c == b'<'
    then lit "&lt;"
    else if c == b'>'
    then lit "&gt;"
    else if c == 0x22
    then lit "&#34;"
    else c ∷ []

unfoldable pub escape_string : Text → Text
escape_string [] = []
escape_string (c ∷ s) = escape_rune c ++ escape_string s

unfoldable pub index_body : Text → Text
unfolding escape_string
index_body metrics_path =
    lit "<h1>tdarr-exporter</h1><p><a href='"
    ++ escape_string metrics_path
    ++ lit "'>metrics</a></p>"

unfoldable pub index_handler : Text → Handler
unfolding index_body
index_handler metrics_path =
    edits (set_header (lit "Content-Type") (lit "text/html; charset=utf-8"))
      (writes (index_body metrics_path) (λ _. finished))
