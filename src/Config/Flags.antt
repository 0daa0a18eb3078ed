-- ===== src/Config/Flags.antt =====
-- The command line of internal/config/config.go: the flags that `parseConfig` declares, and `flag.FlagSet.Parse`
-- (Go's flag package) over them. The usage text is left out.
pub mod Laws
use tdarr_exporter.Prelude.{
  ℕ, suc, Bool, true, false, List, [], ◌∷◌, Option, none, some, ◌==◌, if◌then◌else◌, ℕ_eq,
}
use tdarr_exporter.Prelude.Int.{ℤ}
use tdarr_exporter.GoText.{Text, Text_eq, lit}
use tdarr_exporter.Config.Numbers.{parse_bool, parse_int0}
use tdarr_exporter.Config.Env.{Defaults}
use tdarr_exporter.Config.Results.{
  FlagError, bad_flag_syntax, flag_not_defined, flag_needs_argument, invalid_flag_value,
  ConfigError, err_help, err_flag_parse, Result, ok, error,
}

pub data Flag : Type 0 where
  url_flag : Flag
  api_key_flag : Flag
  verify_ssl_flag : Flag
  prometheus_port_flag : Flag
  prometheus_path_flag : Flag
  log_level_flag : Flag
  http_max_concurrency_flag : Flag
  http_timeout_seconds_flag : Flag
  version_flag : Flag
  listen_address_flag : Flag
  instance_name_flag : Flag

abbrev pub flag_name : Flag → Text
flag_name url_flag = lit "url"
flag_name api_key_flag = lit "api_key"
flag_name verify_ssl_flag = lit "verify_ssl"
flag_name prometheus_port_flag = lit "prometheus_port"
flag_name prometheus_path_flag = lit "prometheus_path"
flag_name log_level_flag = lit "log_level"
flag_name http_max_concurrency_flag = lit "http_max_concurrency"
flag_name http_timeout_seconds_flag = lit "http_timeout_seconds"
flag_name version_flag = lit "version"
flag_name listen_address_flag = lit "listen_address"
flag_name instance_name_flag = lit "instance_name"

abbrev all_flags : List Flag
all_flags =
    url_flag ∷ api_key_flag ∷ verify_ssl_flag ∷ prometheus_port_flag ∷ prometheus_path_flag
    ∷ log_level_flag ∷ http_max_concurrency_flag ∷ http_timeout_seconds_flag ∷ version_flag
    ∷ listen_address_flag ∷ instance_name_flag ∷ []

abbrev find_flag : Text → List Flag → Option Flag
find_flag name [] = none
find_flag name (f ∷ fs) = if flag_name f == name then some f else find_flag name fs

-- flag, ok := f.formal[name]
unfoldable pub formal : Text → Option Flag
formal name = find_flag name all_flags

-- The variables behind the flags.
pub record Flags : Type 0 where
  pub url : Text
  pub api_key : Text
  pub verify_ssl : Bool
  pub prometheus_port : Text
  pub prometheus_path : Text
  pub log_level : Text
  pub http_max_concurrency : ℤ
  pub http_timeout_seconds : ℤ
  pub version : Bool
  pub listen_address : Text
  pub instance_name : Text

unfoldable pub new_flags : Defaults → Flags
new_flags defaults = record {
  url = defaults.url;
  api_key = defaults.api_key;
  verify_ssl = defaults.verify_ssl;
  prometheus_port = defaults.prometheus_port;
  prometheus_path = defaults.prometheus_path;
  log_level = defaults.log_level;
  http_max_concurrency = defaults.http_max_concurrency;
  http_timeout_seconds = defaults.http_timeout_seconds;
  version = false;
  listen_address = defaults.listen_address;
  instance_name = defaults.instance_name;
}

-- IsBoolFlag
abbrev pub is_bool_flag : Flag → Bool
is_bool_flag verify_ssl_flag = true
is_bool_flag version_flag = true
is_bool_flag _ = false

abbrev pub set_parsed {ℓ} : {A : Type ℓ} → Option A → (A → Flags) → Option Flags
set_parsed none set = none
set_parsed (some a) set = some (set a)

-- flag.Value.Set(value)
unfoldable pub set_flag : Flag → Text → Flags → Option Flags
unfolding parse_bool parse_int0
set_flag url_flag v fl = some (record fl { url = v })
set_flag api_key_flag v fl = some (record fl { api_key = v })
set_flag verify_ssl_flag v fl = set_parsed (parse_bool v) (λ b. record fl { verify_ssl = b })
set_flag prometheus_port_flag v fl = some (record fl { prometheus_port = v })
set_flag prometheus_path_flag v fl = some (record fl { prometheus_path = v })
set_flag log_level_flag v fl = some (record fl { log_level = v })
set_flag http_max_concurrency_flag v fl =
    set_parsed (parse_int0 v) (λ n. record fl { http_max_concurrency = n })
set_flag http_timeout_seconds_flag v fl =
    set_parsed (parse_int0 v) (λ n. record fl { http_timeout_seconds = n })
set_flag version_flag v fl = set_parsed (parse_bool v) (λ b. record fl { version = b })
set_flag listen_address_flag v fl = some (record fl { listen_address = v })
set_flag instance_name_flag v fl = some (record fl { instance_name = v })

-- What `parseOne` makes of an argument: it ends the flags, is an error, or is a flag that took one or two
-- arguments of the command line.
pub data ParsedOne : Type 0 where
  no_flag : ParsedOne
  fails : ConfigError → ParsedOne
  took_one : Flags → ParsedOne
  took_two : Flags → ParsedOne

-- The name of a flag and the value behind its first `=`, which is not the first character.
unfoldable pub split_name : Text → Text × Option Text
split_name [] = ([], none)
split_name (c ∷ s) = elim (c == b'=') [
  | true ↦ ([], some s)
  | false ↦ let (name, value) = split_name s in (c ∷ name, value)
]

abbrev pub or_fails : FlagError → (Flags → ParsedOne) → Option Flags → ParsedOne
or_fails e took none = fails (err_flag_parse e)
or_fails e took (some fl) = took fl

-- The value of a flag that is declared: behind `=`, the next argument, or nothing for a boolean flag.
abbrev set_declared : Flag → Option Text → Option Text → Flags → ParsedOne
set_declared f (some value) next fl =
    or_fails (invalid_flag_value (flag_name f) value) took_one (set_flag f value fl)
set_declared f none next fl =
    if is_bool_flag f
    then or_fails (invalid_flag_value (flag_name f) (lit "true")) took_one
        (set_flag f (lit "true") fl)
    else (elim next [
      | none ↦ fails (err_flag_parse (flag_needs_argument (flag_name f)))
      | some value ↦
          or_fails (invalid_flag_value (flag_name f) value) took_two (set_flag f value fl)
    ])

abbrev look_up : Text → Option Text → Option Text → Flags → ParsedOne
look_up name value next fl = elim (formal name) [
  | some f ↦ set_declared f value next fl
  | none ↦
      if name == lit "help"
      then fails err_help
      else if name == lit "h"
      then fails err_help
      else fails (err_flag_parse (flag_not_defined name))
]

-- The text behind the dashes of an argument: `s` is the whole of it.
abbrev parse_named : Text → Text → Option Text → Flags → ParsedOne
parse_named s [] next fl = fails (err_flag_parse (bad_flag_syntax s))
parse_named s (c ∷ name) next fl =
    if c == b'-'
    then fails (err_flag_parse (bad_flag_syntax s))
    else if c == b'='
    then fails (err_flag_parse (bad_flag_syntax s))
    else let (rest, value) = split_name name in look_up (c ∷ rest) value next fl

-- Behind `--`: nothing, which ends the flags, or a name.
abbrev parse_double : Text → Text → Option Text → Flags → ParsedOne
parse_double s [] next fl = no_flag
parse_double s (c ∷ name) next fl = parse_named s (c ∷ name) next fl

-- `parseOne`, of an argument and the one behind it.
unfoldable pub parse_one : Text → Option Text → Flags → ParsedOne
unfolding formal split_name set_flag
parse_one [] next fl = no_flag
parse_one (c ∷ []) next fl = no_flag
parse_one (c ∷ d ∷ s) next fl =
    if c == b'-'
    then (if d == b'-'
        then parse_double (c ∷ d ∷ s) s next fl
        else parse_named (c ∷ d ∷ s) (d ∷ s) next fl)
    else no_flag

-- `fs.Parse(args)`: the arguments behind the flags are not read.
unfoldable pub parse_flags : List Text → Flags → Result Flags
unfolding parse_one
parse_flags [] fl = ok fl
parse_flags (s ∷ []) fl = elim (parse_one s none fl) [
  | no_flag ↦ ok fl
  | fails e ↦ error e
  | took_one fl' ↦ ok fl'
  | took_two fl' ↦ ok fl'
]
parse_flags (s ∷ next ∷ args) fl = elim (parse_one s (some next) fl) [
  | no_flag ↦ ok fl
  | fails e ↦ error e
  | took_one fl' ↦ parse_flags (next ∷ args) fl'
  | took_two fl' ↦ parse_flags args fl'
]
