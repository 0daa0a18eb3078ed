-- ===== src/Handlers/Middleware/Laws.antt =====
-- What the middleware of internal/handlers/middleware.go changes of an exchange.
use tdarr_exporter.Prelude.{ℕ, ◌≡◌, refl, ap, ◌∙◌, Bool, true, false, Option, none, some}
use tdarr_exporter.Handlers.Writer.{
  err_abort_handler, other_value, Called, returned, panicked, behind, WriterOps, Handler, finished,
  panics, edits, writes_header, writes, serve,
}
use tdarr_exporter.Handlers.Middleware.{
  ResponseRecorder, status_ok, new_response_recorder, forward, write_header, write, recorder,
  request_logger, internal_error, recovered, recovery,
}

module _ {W : Type 0} (ops : WriterOps W) where
  -- The status that a handler commits first, if a call of it that commits one returns.
  abbrev pub first_of : {A : Type 0} → ℕ → Called A × W → Option ℕ
  first_of code (returned _, w) = some code
  first_of code (panicked _, w) = none

  unfoldable pub first_status : Handler → W → Option ℕ
  first_status finished w = none
  first_status (panics v) w = none
  first_status (edits e h) w = first_status h (ops.edit_header e w)
  first_status (writes_header code h) w = first_of code (ops.write_header code w)
  first_status (writes b h) w = first_of status_ok (ops.write b w)

  abbrev pub recorder_of : W → ℕ → Bool → ResponseRecorder W
  recorder_of w status wrote = record { response_writer = w; status = status; wrote = wrote }

  -- A run with its recorder, once the first status is known.
  abbrev pub recorded :
      Called (Unit {0}) × W → ℕ → Bool → Option ℕ → Called (Unit {0}) × ResponseRecorder W
  recorded (called, w) status wrote none = (called, recorder_of w status wrote)
  recorded (called, w) status true (some code) = (called, recorder_of w status true)
  recorded (called, w) status false (some code) = (called, recorder_of w code true)

  recorded_once :
      (run : Called (Unit {0}) × W) (status : ℕ) (first : Option ℕ)
      → recorded run status true first ≡ (run.0, recorder_of run.1 status true)
  recorded_once run status none = refl
  recorded_once run status (some code) = refl

  -- A forwarded call records its status, if it returns and is the first.
  behind_forward :
      {A : Type 0} (code status : ℕ) (w : W) (wrote : Bool) (x : Called A × W) (k : A → Handler)
      → ((a : A) (w' : W) (status' : ℕ)
          → serve (k a) (ResponseRecorder W) (recorder ops) (recorder_of w' status' true)
            ≡ ((serve (k a) W ops w').0, recorder_of (serve (k a) W ops w').1 status' true))
      → behind
          (forward code (recorder_of w status wrote) x)
          (λ a r. serve (k a) (ResponseRecorder W) (recorder ops) r)
        ≡ recorded (behind x (λ a w'. serve (k a) W ops w')) status wrote (first_of code x)
  behind_forward code status w true (returned a, w') k ih = ih a w' status
  behind_forward code status w false (returned a, w') k ih = ih a w' code
  behind_forward code status w wrote (panicked v, w') k ih = refl

  -- A run on a recorder is the run on its writer, with the first status recorded.
  pub record_serve :
      (h : Handler) (w : W) (status : ℕ) (wrote : Bool)
      → serve h (ResponseRecorder W) (recorder ops) (recorder_of w status wrote)
        ≡ recorded (serve h W ops w) status wrote (first_status h w)
  unfolding serve first_status write_header write
  record_serve finished w status wrote = refl
  record_serve (panics v) w status wrote = refl
  record_serve (edits e h) w status wrote = record_serve h (ops.edit_header e w) status wrote
  record_serve (writes_header code h) w status wrote =
      behind_forward code status w wrote (ops.write_header code w) (λ _. h)
        (λ _ w' status'.
          record_serve h w' status' true ∙ recorded_once (serve h W ops w') status' _)
  record_serve (writes b h) w status wrote =
      behind_forward status_ok status w wrote (ops.write b w) h (λ r w' status'.
        record_serve (h r) w' status' true ∙ recorded_once (serve (h r) W ops w') status' _)

  recorded_run :
      (run : Called (Unit {0}) × W) (status : ℕ) (wrote : Bool) (first : Option ℕ)
      → ((recorded run status wrote first).0, (recorded run status wrote first).1.response_writer)
        ≡ run
  recorded_run run status wrote none = refl
  recorded_run run status true (some code) = refl
  recorded_run run status false (some code) = refl

  -- `RequestLogger` changes nothing of the exchange: the handler behind it ends as it would without it, and
  -- leaves the client's writer in the same state, whatever it writes and whether it panics.
  pub request_logger_transparent :
      (h : Handler) (w : W) → request_logger (serve h) W ops w ≡ serve h W ops w
  unfolding request_logger
  request_logger_transparent h w =
      ap (λ x. (x.0, x.1.response_writer)) (record_serve h w status_ok false)
      ∙ recorded_run (serve h W ops w) status_ok false (first_status h w)

  -- How a recovered exchange ends, by how its handler ended and whether a status was committed.
  abbrev pub contained : Called (Unit {0}) × W → Option ℕ → Called (Unit {0}) × W
  contained (returned _, w) first = (returned tt, w)
  contained (panicked err_abort_handler, w) first = (panicked err_abort_handler, w)
  contained (panicked (other_value v), w) none = serve internal_error W ops w
  contained (panicked (other_value v), w) (some code) = (returned tt, w)

  recorded-contained :
      (run : Called (Unit {0}) × W) (first : Option ℕ)
      → recovered W ops (recorded run status_ok false first) ≡ contained run first
  recorded-contained (returned _, w) none = refl
  recorded-contained (returned _, w) (some code) = refl
  recorded-contained (panicked err_abort_handler, w) none = refl
  recorded-contained (panicked err_abort_handler, w) (some code) = refl
  recorded-contained (panicked (other_value v), w) none =
      ap (λ x. (x.0, x.1.response_writer)) (record_serve internal_error w status_ok false)
      ∙ recorded_run (serve internal_error W ops w) status_ok false (first_status internal_error w)
  recorded-contained (panicked (other_value v), w) (some code) = refl

-- The stack of the exporter, `Recovery` around `RequestLogger` around a handler: a handler that returns is
-- left as it is; `http.ErrAbortHandler` unwinds further; any other panic ends here, with a 500 written
-- behind what the handler did if it had committed no status, and with nothing more written if it had.
pub recovery-request_logger :
    (h : Handler) (W : Type 0) (ops : WriterOps W) (w : W)
    → recovery (request_logger (serve h)) W ops w
      ≡ contained ops (serve h W ops w) (first_status ops h w)
unfolding recovery
recovery-request_logger h W ops w =
    ap (recovered W ops) (
      request_logger_transparent (recorder ops) h (new_response_recorder w)
      ∙ record_serve ops h w status_ok false)
    ∙ recorded-contained ops (serve h W ops w) (first_status ops h w)
