-- ===== src/Tests/Handlers.antt =====
-- The middleware and the pages (internal/handlers) at concrete handlers, over a writer that keeps what it is asked for and
-- panics on a status below 100.
use tdarr_exporter.Prelude.{ℕ, ◌≡◌, refl, List, [], ◌∷◌, ◌++◌, some, ltb, if◌then◌else◌}
use tdarr_exporter.GoText.{Text, lit}
use tdarr_exporter.Handlers.Writer.{
  other_value, HeaderEdit, wrote_all, returned, panicked, WriterOps, Handler, finished,
  writes_header, writes, serve,
}
use tdarr_exporter.Handlers.Middleware.{
  write_header, write, access_log, request_logger, recovery, internal_error,
}
use tdarr_exporter.Handlers.Middleware.Laws.{first_status, contained, recovery-request_logger}
use tdarr_exporter.Handlers.Middleware.AccessLog.{
  client_status, final_status, access_log-client_status,
}
use tdarr_exporter.Handlers.Pages.{index_body}
use tdarr_exporter.Handlers.Pages.Laws.{plain, read_attribute, read_attribute-index_body}
use tdarr_exporter.Prelude.{length, drop}

pub data Effect : Type 0 where
  edited : HeaderEdit → Effect
  header_sent : ℕ → Effect
  body_sent : Text → Effect

abbrev pub effects : WriterOps (List Effect)
effects = record {
  edit_header = λ e w. w ++ edited e ∷ [];
  write_header = λ code w.
      if ltb code 100
      then (panicked (other_value (lit "invalid WriteHeader code")), w)
      else (returned tt, w ++ header_sent code ∷ []);
  write = λ b w. (returned (wrote_all 1), w ++ body_sent b ∷ []);
}

-- 404 with a body, then a second status that comes too late.
abbrev not_found : Handler
not_found = writes_header 404 (writes (lit "?") (λ _. writes_header 200 finished))

-- A status out of range, at which the writer panics.
abbrev bad_status : Handler
bad_status = writes_header 7 finished

access_log-client_status_example :
    access_log (serve not_found) (List Effect) effects []
    ≡ client_status effects
        (serve not_found (List Effect) effects []).0
        (final_status effects not_found [])
unfolding first_status
access_log-client_status_example = access_log-client_status effects not_found [] refl

-- Early hints, then 404: the client is sent 404, and the access log reports 103.
abbrev hinted : Handler
hinted = writes_header 103 (writes_header 404 finished)

hinted_statuses :
    (access_log (serve hinted) (List Effect) effects [] ≡ some 103)
    × (client_status effects
          (serve hinted (List Effect) effects []).0
          (final_status effects hinted [])
        ≡ some 404)
unfolding access_log serve final_status write_header
hinted_statuses = (refl, refl)

recovery-request_logger_example :
    recovery (request_logger (serve bad_status)) (List Effect) effects []
    ≡ contained effects
        (serve bad_status (List Effect) effects [])
        (first_status effects bad_status [])
recovery-request_logger_example = recovery-request_logger bad_status (List Effect) effects []

logged_not_found : access_log (serve not_found) (List Effect) effects [] ≡ some 404
unfolding access_log serve write_header write
logged_not_found = refl

recovered_bad_status :
    recovery (request_logger (serve bad_status)) (List Effect) effects []
    ≡ serve internal_error (List Effect) effects []
unfolding recovery request_logger serve write_header write
recovered_bad_status = refl

read_attribute-index_body_example :
    let opening = lit "<h1>tdarr-exporter</h1><p><a href='" in
    (index_body (lit "/a'b&c") ≡ opening ++ drop (length opening) (index_body (lit "/a'b&c")))
    × (read_attribute plain (drop (length opening) (index_body (lit "/a'b&c")))
        ≡ some (lit "/a'b&c", lit ">metrics</a></p>"))
read_attribute-index_body_example = read_attribute-index_body (lit "/a'b&c")
