-- ===== src/Handlers/Middleware/AccessLog.antt =====
-- The status in the access log of internal/handlers/middleware.go, beside the status that the client is sent.
use tdarr_exporter.Prelude.{
  ℕ, ◌≡◌, refl, ap, ◌∙◌, Bool, true, false, not, ◌&&◌, Option, none, some, leb, ◌==◌, ℕ_eq,
  Bool-cases, inl, inr, if◌then◌else◌,
}
use tdarr_exporter.Handlers.Writer.{
  Called, returned, panicked, WriterOps, Handler, finished, panics, edits, writes_header, writes,
  serve,
}
use tdarr_exporter.Handlers.Middleware.{status_ok, access_log, logged}
use tdarr_exporter.Handlers.Middleware.Laws.{first_of, first_status, recorded, record_serve}

-- A status that `net/http` sends ahead of the response and does not take for its own: 1xx but for 101.
abbrev pub is_informational : ℕ → Bool
is_informational code = leb 100 code && leb code 199 && not (code == 101)

module _ {W : Type 0} (ops : WriterOps W) where
  -- What the handler goes on to commit, behind a call that returned.
  abbrev goes_on : {A : Type 0} → Called A × W → (A → W → Option ℕ) → Option ℕ
  goes_on (returned a, w) k = k a w
  goes_on (panicked v, w) k = none

  -- The status that a handler commits: of its first `WriteHeader` that returns and is not informational, or 200 for
  -- a `Write` before any.
  unfoldable pub final_status : Handler → W → Option ℕ
  final_status finished w = none
  final_status (panics v) w = none
  final_status (edits e h) w = final_status h (ops.edit_header e w)
  final_status (writes_header code h) w =
      if is_informational code
      then goes_on (ops.write_header code w) (λ _ w'. final_status h w')
      else goes_on (ops.write_header code w) (λ _ w'. some code)
  final_status (writes b h) w = goes_on (ops.write b w) (λ _ w'. some status_ok)

  -- The status that the client is sent where the handler returns: what it committed, or the 200 of `net/http`.
  abbrev pub client_status : Called (Unit {0}) → Option ℕ → Option ℕ
  client_status (panicked v) final = none
  client_status (returned _) none = some status_ok
  client_status (returned _) (some code) = some code

  -- An informational status.
  abbrev pub starts_early : Option ℕ → Bool
  starts_early none = false
  starts_early (some code) = is_informational code

  first_of-goes_on :
      {A : Type 0} (code : ℕ) (x : Called A × W)
      → first_of ops code x ≡ goes_on x (λ _ w. some code)
  first_of-goes_on code (returned a, w) = refl
  first_of-goes_on code (panicked v, w) = refl

  -- An early status is the first if its call returns.
  early_first :
      {A : Type 0} (code : ℕ) (x : Called A × W) (k : A → W → Option ℕ)
      → is_informational code ≡ true
      → starts_early (first_of ops code x) ≡ false
      → first_of ops code x ≡ goes_on x k
  early_first code (returned a, w) k early h = cc
  early_first code (panicked v, w) k early h = refl

  first_status-final :
      (h : Handler) (w : W)
      → starts_early (first_status ops h w) ≡ false
      → first_status ops h w ≡ final_status h w
  unfolding first_status final_status
  first_status-final finished w late = refl
  first_status-final (panics v) w late = refl
  first_status-final (edits e h) w late = first_status-final h (ops.edit_header e w) late
  first_status-final (writes_header code h) w late = elim (Bool-cases (is_informational code)) [
    | inl early ↦ rw early (early_first code (ops.write_header code w) _ early late)
    | inr final ↦ rw final (first_of-goes_on code (ops.write_header code w))
  ]
  first_status-final (writes b h) w late = first_of-goes_on status_ok (ops.write b w)

  logged-recorded :
      (run : Called (Unit {0}) × W) (first : Option ℕ)
      → logged (recorded ops run status_ok false first) ≡ client_status run.0 first
  logged-recorded (returned _, w) none = refl
  logged-recorded (returned _, w) (some code) = refl
  logged-recorded (panicked v, w) none = refl
  logged-recorded (panicked v, w) (some code) = refl

  -- For a handler whose first status is not an informational one: if it returns, the access log reports the status
  -- of the response that the client is sent, which is that of the first `WriteHeader` that returned, 200 if a
  -- `Write` returned before any, and 200 if nothing was written; if it panics, nothing is logged.
  pub access_log-client_status :
      (h : Handler) (w : W)
      → starts_early (first_status ops h w) ≡ false
      → access_log (serve h) W ops w ≡ client_status (serve h W ops w).0 (final_status h w)
  unfolding access_log
  access_log-client_status h w late =
      ap logged (record_serve ops h w status_ok false)
      ∙ logged-recorded (serve h W ops w) (first_status ops h w)
      ∙ ap (client_status (serve h W ops w).0) (first_status-final h w late)
