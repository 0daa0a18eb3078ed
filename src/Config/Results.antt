-- ===== src/Config/Results.antt =====
-- The errors of internal/config/config.go, and its fallible results.
use tdarr_exporter.Prelude.{Option, none, some}
use tdarr_exporter.GoText.{Text}

-- The errors of `flag.FlagSet.Parse`, `flag.ErrHelp` left aside.
pub data FlagError : Type 0 where
  bad_flag_syntax : Text → FlagError
  flag_not_defined : Text → FlagError
  flag_needs_argument : Text → FlagError
  invalid_flag_value : Text → Text → FlagError

-- The checks of `parseConfig` on the metrics path, in their order.
pub data PathError : Type 0 where
  no_leading_slash : PathError
  has_brace : PathError
  has_whitespace : PathError
  not_clean : PathError
  is_reserved : PathError

-- `flag.ErrHelp`, the errors that wrap `errFlagParse`, and the semantic errors.
pub data ConfigError : Type 0 where
  err_help : ConfigError
  err_flag_parse : FlagError → ConfigError
  invalid_verify_ssl : Text → ConfigError
  invalid_http_max_concurrency : Text → ConfigError
  invalid_http_timeout_seconds : Text → ConfigError
  url_missing : ConfigError
  http_max_concurrency_too_small : ConfigError
  http_timeout_seconds_too_small : ConfigError
  invalid_prometheus_port : Text → ConfigError
  invalid_prometheus_path : PathError → Text → ConfigError
  improper_log_level : Text → ConfigError
  url_does_not_parse : Text → ConfigError
  host_missing : Text → ConfigError

pub data Result {ℓ} (A : Type ℓ) : Type ℓ where
  ok : A → Result A
  error : ConfigError → Result A

infixl 5 ◌>>=◌
abbrev pub ◌>>=◌ {ℓ κ} : {A : Type ℓ} {B : Type κ} → Result A → (A → Result B) → Result B
ok a >>= f = f a
error e >>= f = error e

abbrev pub or_error {ℓ} : {A : Type ℓ} → ConfigError → Option A → Result A
or_error e none = error e
or_error e (some a) = ok a
