-- ===== src/Config/Parse.antt =====
-- internal/config/config.go: `parseLogLevel`, `parseUrl`, `parseConfig` and `NewConfig`. `url.Parse` and `Hostname`
-- are parameters. `Config{Version: true}`, whose URL is nil, is a case of its own.
pub mod Laws
pub mod Exits
pub mod Precedence
use tdarr_exporter.Prelude.{
  ℕ, zero, suc, Bool, true, false, List, [], ◌∷◌, ◌++◌, Option, none, some, ◌==◌, if◌then◌else◌,
}
use tdarr_exporter.Prelude.Int.{ℤ, pos, negsuc}
use tdarr_exporter.GoText.{Text, Text_eq, lit, is_empty, strip_prefix, to_lower}
use tdarr_exporter.Config.{Config}
use tdarr_exporter.Config.Numbers.{parse_uint10}
use tdarr_exporter.Config.Results.{
  PathError, ConfigError, err_help, err_flag_parse, url_missing, http_max_concurrency_too_small,
  http_timeout_seconds_too_small, invalid_prometheus_port, invalid_prometheus_path,
  improper_log_level, url_does_not_parse, host_missing, Result, ok, error, ◌>>=◌, or_error,
}
use tdarr_exporter.Config.Env.{Defaults, apply_env_defaults}
use tdarr_exporter.Config.Flags.{Flags, new_flags, parse_flags}
use tdarr_exporter.Config.Path.{check_prometheus_path}

-- The levels of zerolog.
pub data Level : Type 0 where
  trace_level : Level
  debug_level : Level
  info_level : Level
  warn_level : Level
  error_level : Level
  fatal_level : Level
  panic_level : Level

abbrev level_of : Text → Option Level
level_of s =
    if s == lit "trace"
    then some trace_level
    else if s == lit "debug"
    then some debug_level
    else if s == lit "info"
    then some info_level
    else if s == lit "warn"
    then some warn_level
    else if s == lit "error"
    then some error_level
    else if s == lit "fatal"
    then some fatal_level
    else if s == lit "panic"
    then some panic_level
    else none

-- `none` for its error.
unfoldable pub parse_log_level : (ℕ → ℕ) → Text → Option Level
unfolding to_lower
parse_log_level lower_table log_level = level_of (to_lower lower_table log_level)

-- `strings.Contains(s, part)` for a part that is not empty.
unfoldable pub contains : Text → Text → Bool
unfolding strip_prefix
contains part [] = false
contains part (c ∷ s) = elim (strip_prefix part (c ∷ s)) [ some _ ↦ true | none ↦ contains part s ]

-- `url.Parse`, `none` for its error, and the method `Hostname`.
pub record UrlParser (Url : Type 0) : Type 0 where
  pub parse : Text → Option Url
  pub hostname : Url → Text

abbrev pub has_host : {Url : Type 0} → UrlParser Url → Text → Url → Result Url
has_host parser url_string parsed =
    if is_empty (parser.hostname parsed) then error (host_missing url_string) else ok parsed

unfoldable pub parse_url : {Url : Type 0} → UrlParser Url → Text → Result Url
unfolding contains
parse_url parser url_string = do
  let with_scheme : Text =
      if contains (lit "://") url_string then url_string else lit "https://" ++ url_string
  parsed ← or_error (url_does_not_parse with_scheme) (parser.parse with_scheme)
  has_host parser with_scheme parsed

-- What `parseConfig` returns: the version alone, or a configuration.
pub data Loaded (Url : Type 0) : Type 0 where
  version_only : Loaded Url
  loaded : Config Url → Loaded Url

-- A count that is above 0.
abbrev pub positive : ℤ → Option ℕ
positive (pos zero) = none
positive (pos (suc n)) = some (suc n)
positive (negsuc n) = none

-- port, err := strconv.ParseUint(s, 10, 16); err != nil || port == 0
abbrev pub port_of : Option ℕ → Option ℕ
port_of none = none
port_of (some zero) = none
port_of (some (suc n)) = some (suc n)

abbrev pub path_result : Text → Option PathError → Result Text
path_result p none = ok p
path_result p (some e) = error (invalid_prometheus_path e p)

abbrev pub url_given : Text → Result Text
url_given url = if is_empty url then error url_missing else ok url

-- How `NewConfig` ends: the process exits with a status, or the configuration is returned, with the
-- global log level that was set.
pub data Startup (Url : Type 0) : Type 0 where
  exits : ℕ → Startup Url
  starts : Loaded Url → Option Level → Startup Url

-- os.Exit(0), os.Exit(2), and log.Fatal
abbrev pub exit_status : ConfigError → ℕ
exit_status err_help = 0
exit_status (err_flag_parse e) = 2
exit_status _ = 1

module _ {Url : Type 0} (parser : UrlParser Url) (lower_table : ℕ → ℕ) where
  -- The checks of `parseConfig` behind the flags, and the configuration that it builds.
  unfoldable pub validate : Defaults → Flags → Result (Config Url)
  unfolding parse_uint10 check_prometheus_path parse_log_level parse_url
  validate defaults fl = do
    url ← url_given fl.url
    max_concurrency ← or_error http_max_concurrency_too_small (positive fl.http_max_concurrency)
    timeout ← or_error http_timeout_seconds_too_small (positive fl.http_timeout_seconds)
    port ←
        or_error (invalid_prometheus_port fl.prometheus_port)
          (port_of (parse_uint10 65535 fl.prometheus_port))
    path ← path_result fl.prometheus_path (check_prometheus_path fl.prometheus_path)
    level ← or_error (improper_log_level fl.log_level) (parse_log_level lower_table fl.log_level)
    url_parsed ← parse_url parser url
    ok (record {
      version = false;
      log_level = fl.log_level;
      url = url;
      url_parsed = url_parsed;
      instance_name =
          if is_empty fl.instance_name then parser.hostname url_parsed else fl.instance_name;
      api_key = fl.api_key;
      verify_ssl = fl.verify_ssl;
      prometheus_port = fl.prometheus_port;
      prometheus_path = path;
      http_timeout_seconds = timeout;
      tdarr_stats_path = defaults.tdarr_stats_path;
      tdarr_pie_stats_path = defaults.tdarr_pie_stats_path;
      tdarr_node_path = defaults.tdarr_node_path;
      tdarr_status_path = defaults.tdarr_status_path;
      http_max_concurrency = max_concurrency;
      listen_address = fl.listen_address;
    })

  abbrev pub load : Defaults → Flags → Result (Loaded Url)
  load defaults fl =
      if fl.version then ok version_only else (do config ← validate defaults fl; ok (loaded config))

  unfoldable pub parse_config : List Text → (Text → Text) → Result (Loaded Url)
  unfolding apply_env_defaults new_flags parse_flags validate
  parse_config args getenv = do
    defaults ← apply_env_defaults getenv
    fl ← parse_flags args (new_flags defaults)
    load defaults fl

  abbrev pub startup : Result (Loaded Url) → Startup Url
  startup (error e) = exits (exit_status e)
  startup (ok version_only) = starts version_only none
  startup (ok (loaded config)) =
      starts (loaded config) (parse_log_level lower_table config.log_level)

  unfoldable pub new_config : List Text → (Text → Text) → Startup Url
  unfolding parse_config parse_log_level
  new_config args getenv = startup (parse_config args getenv)
