-- ===== src/Handlers/Middleware.antt =====
-- internal/handlers/middleware.go: `responseRecorder`, `RequestLogger` and `Recovery`. A recorder is a writer
-- around a writer. The log calls are left out, but for the status that the access log reports.
pub mod Laws
pub mod AccessLog
use tdarr_exporter.Prelude.{ℕ, Bool, true, false, Option, none, some, if◌then◌else◌}
use tdarr_exporter.GoText.{Text, lit}
use tdarr_exporter.Handlers.Writer.{
  PanicValue, err_abort_handler, other_value, HeaderEdit, set_header, del_header, WriteResult,
  Called, returned, panicked, WriterOps, Handler, finished, edits, writes_header, writes,
  HandlerFunc, serve,
}

pub record ResponseRecorder (W : Type 0) : Type 0 where
  pub response_writer : W
  pub status : ℕ
  pub wrote : Bool

abbrev pub status_ok : ℕ
status_ok = 200

abbrev pub status_internal_server_error : ℕ
status_internal_server_error = 500

unfoldable pub new_response_recorder : {W : Type 0} → W → ResponseRecorder W
new_response_recorder w = record { response_writer = w; status = status_ok; wrote = false }

module _ {W : Type 0} where
  -- if !r.wrote { r.status = code; r.wrote = true }
  abbrev pub commit : ℕ → ResponseRecorder W → ResponseRecorder W
  commit code r = if r.wrote then r else record r { status = code; wrote = true }

  -- What a forwarded call leaves: the writer behind it, and the commit if it returned.
  abbrev pub forward :
      {A : Type 0} → ℕ → ResponseRecorder W → Called A × W → Called A × ResponseRecorder W
  forward code r (returned a, w) = (returned a, commit code (record r { response_writer = w }))
  forward code r (panicked v, w) = (panicked v, record r { response_writer = w })

  unfoldable pub unwrap : ResponseRecorder W → W
  unwrap r = r.response_writer

  module _ (ops : WriterOps W) where
    unfoldable pub write_header : ℕ → ResponseRecorder W → Called (Unit {0}) × ResponseRecorder W
    write_header code r = forward code r (ops.write_header code r.response_writer)

    unfoldable pub write : Text → ResponseRecorder W → Called WriteResult × ResponseRecorder W
    write b r = forward status_ok r (ops.write b r.response_writer)

    -- The recorder as a writer; `Header` is that of the embedded writer.
    abbrev pub recorder : WriterOps (ResponseRecorder W)
    recorder = record {
      edit_header = λ e r. record r { response_writer = ops.edit_header e r.response_writer };
      write_header = write_header;
      write = write;
    }

-- What the wrapped handler makes of a new recorder.
abbrev pub record_run :
    HandlerFunc → (W : Type 0) → WriterOps W → W → Called (Unit {0}) × ResponseRecorder W
record_run next W ops w = next (ResponseRecorder W) (recorder ops) (new_response_recorder w)

-- The status in the access log; none is written if the handler panics.
abbrev pub logged : {W : Type 0} → Called (Unit {0}) × ResponseRecorder W → Option ℕ
logged (returned _, rec) = some rec.status
logged (panicked _, rec) = none

unfoldable pub access_log : HandlerFunc → (W : Type 0) → WriterOps W → W → Option ℕ
unfolding new_response_recorder
access_log next W ops w = logged (record_run next W ops w)

unfoldable pub request_logger : HandlerFunc → HandlerFunc
unfolding new_response_recorder
request_logger next W ops w =
    let (called, rec) = record_run next W ops w in (called, rec.response_writer)

-- `http.Error`, of net/http.
abbrev pub http_error : Text → ℕ → Handler
http_error message code = edits (del_header (lit "Content-Length")) (
    edits (set_header (lit "Content-Type") (lit "text/plain; charset=utf-8")) (
      edits (set_header (lit "X-Content-Type-Options") (lit "nosniff"))
        (writes_header code (writes message (λ _. finished)))))

abbrev pub internal_error : Handler
internal_error = http_error (lit "Internal Server Error\n") status_internal_server_error

-- The deferred function of `Recovery`, by how the handler ended.
abbrev pub recovered :
    (W : Type 0) → WriterOps W → Called (Unit {0}) × ResponseRecorder W → Called (Unit {0}) × W
recovered W ops (returned _, recorder_of) = (returned tt, recorder_of.response_writer)
recovered W ops (panicked err_abort_handler, recorder_of) =
    (panicked err_abort_handler, recorder_of.response_writer)
recovered W ops (panicked (other_value v), recorder_of) =
    if recorder_of.wrote
    then (returned tt, recorder_of.response_writer)
    else let (called, rec) = serve internal_error (ResponseRecorder W) (recorder ops) recorder_of in
      (called, rec.response_writer)

unfoldable pub recovery : HandlerFunc → HandlerFunc
unfolding new_response_recorder serve
recovery next W ops w = recovered W ops (record_run next W ops w)
