-- ===== src/Config/Parse/Laws.antt =====
-- Which configurations `parseConfig` of internal/config/config.go returns, and how `NewConfig` exits.
use tdarr_exporter.Prelude.{
  ℕ, suc, zero, ◌≤◌, ◌<◌, ◌≡◌, ◌≢◌, refl, ap, ◌∙◌, false, List, [], ◌∷◌, Option, none, some, arith,
  if◌then◌else◌, Bool-cases, inl, inr, leb,
}
use tdarr_exporter.Prelude.Int.{ℤ, pos, negsuc}
use tdarr_exporter.GoText.{Text, is_empty}
use tdarr_exporter.Config.{Config}
use tdarr_exporter.Config.Numbers.{at_most, digits_value, parse_uint10}
use tdarr_exporter.Config.Results.{ConfigError, Result, ok, error, ◌>>=◌, or_error}
use tdarr_exporter.Config.Results.{PathError}
use tdarr_exporter.Config.Env.{Defaults, apply_env_defaults}
use tdarr_exporter.Config.Flags.{Flags, new_flags, parse_flags}
use tdarr_exporter.Config.Path.{check_prometheus_path}
use tdarr_exporter.Config.Path.Laws.{IsMetricsPath, check_prometheus_path_iff}
use tdarr_exporter.Config.Parse.{
  parse_log_level, Level, UrlParser, has_host, parse_url, loaded, positive, port_of, path_result,
  url_given, validate, load, parse_config,
}

-- The value behind a step of a chain that came to a result.
pub bind-ok :
    {A B : Type 0} (m : Result A) (f : A → Result B) (b : B)
    → (m >>= f) ≡ ok b
    → (a : A) × (m ≡ ok a) × (f a ≡ ok b)
bind-ok (ok a) f b h = (a, refl, h)
bind-ok (error e) f b h = cc h

pub ok_injective : {A : Type 0} {a b : A} → ok a ≡ ok b → a ≡ b
ok_injective h = cc h

pub or_error-ok :
    {A : Type 0} (e : ConfigError) (o : Option A) (a : A) → or_error e o ≡ ok a → o ≡ some a
or_error-ok e none a h = cc h
or_error-ok e (some a') a h = cc h

positive_sound : (z : ℤ) (n : ℕ) → positive z ≡ some n → (z ≡ pos n) × (0 < n)
positive_sound (pos zero) n h = cc h
positive_sound (pos (suc m)) n h = ground (arith, h)
positive_sound (negsuc m) n h = cc h

-- A port in digits: a number from 1 to 65535.
abbrev pub IsPort : Text → Type 0
IsPort s = (n : ℕ) × (digits_value false 10 0 s ≡ some n) × (0 < n) × (n ≤ 65535)

at_most_sound :
    (max : ℕ) (o : Option ℕ) (n : ℕ)
    → port_of (at_most max o) ≡ some n
    → (m : ℕ) × (o ≡ some m) × (0 < m) × (m ≤ max)
at_most_sound max none n h = cc h
at_most_sound max (some zero) n h = elim (Bool-cases (leb 0 max)) [
  | inl fits ↦ cc (rw fits at h)
  | inr over ↦ cc (rw over at h)
]
at_most_sound max (some (suc m)) n h = elim (Bool-cases (leb (suc m) max)) [
  | inl fits ↦ (suc m, refl, omega arith, ground (arith, fits))
  | inr over ↦ cc (rw over at h)
]

port_of_sound : (s : Text) (n : ℕ) → port_of (parse_uint10 65535 s) ≡ some n → IsPort s
unfolding parse_uint10
port_of_sound [] n h = cc h
port_of_sound (c ∷ s) n h = at_most_sound 65535 (digits_value false 10 0 (c ∷ s)) n h

pub path_result_sound :
    (p q : Text) (e : Option PathError) → path_result p e ≡ ok q → (e ≡ none) × (p ≡ q)
path_result_sound p q none h = (refl, ok_injective h)
path_result_sound p q (some e) h = cc h

pub url_given_sound : (s t : Text) → url_given s ≡ ok t → (s ≡ t) × (s ≢ [])
url_given_sound [] t h = cc h
url_given_sound (c ∷ s) t h = (ok_injective h, λ e. cc e)

filled : (s : Text) → is_empty s ≡ false → s ≢ []
filled [] h = cc h
filled (c ∷ s) h = λ e. cc e

has_host_sound :
    {Url : Type 0} (parser : UrlParser Url) (s : Text) (u parsed : Url)
    → has_host parser s u ≡ ok parsed
    → parser.hostname parsed ≢ []
has_host_sound parser s u parsed h = elim (Bool-cases (is_empty (parser.hostname u))) [
  | inl missing ↦ cc (rw (has_host, missing) at h)
  | inr given ↦
      let same : u ≡ parsed = ok_injective (rw (has_host, given) at h) in
      rw (← same) (filled (parser.hostname u) given)
]

name_filled : (name host : Text) → host ≢ [] → (if is_empty name then host else name) ≢ []
name_filled [] host h = h
name_filled (c ∷ name) host h = λ e. cc e

parse_url_sound :
    {Url : Type 0} (parser : UrlParser Url) (s : Text) (parsed : Url)
    → parse_url parser s ≡ ok parsed
    → parser.hostname parsed ≢ []
unfolding parse_url
parse_url_sound parser s parsed h =
    let (u, _, host) = bind-ok _ (has_host parser _) parsed h in
    has_host_sound parser _ u parsed host

-- What holds of every configuration that is used.
abbrev pub IsValid : {Url : Type 0} → UrlParser Url → (ℕ → ℕ) → Config Url → Type 0
IsValid parser lower_table config =
    (config.url ≢ [])
    × (parser.hostname config.url_parsed ≢ [])
    × (config.instance_name ≢ [])
    × (0 < config.http_max_concurrency)
    × (0 < config.http_timeout_seconds)
    × IsPort config.prometheus_port
    × IsMetricsPath config.prometheus_path
    × ((level : Level) × (parse_log_level lower_table config.log_level ≡ some level))

-- The steps of `validate`, each with its value.
validate-IsValid :
    {Url : Type 0} (parser : UrlParser Url) (lower_table : ℕ → ℕ) (defaults : Defaults) (fl : Flags)
    (config : Config Url)
    → validate parser lower_table defaults fl ≡ ok config
    → IsValid parser lower_table config
unfolding validate
validate-IsValid parser lower_table defaults fl config h =
    let (url, given, h1) = bind-ok (url_given fl.url) _ config h in
    let (max, max_given, h2) =
      bind-ok (or_error _ (positive fl.http_max_concurrency)) _ config h1 in
    let (timeout, timeout_given, h3) =
      bind-ok (or_error _ (positive fl.http_timeout_seconds)) _ config h2 in
    let (port, port_given, h4) =
      bind-ok (or_error _ (port_of (parse_uint10 65535 fl.prometheus_port))) _ config h3 in
    let (path, path_given, h5) =
      bind-ok (path_result fl.prometheus_path (check_prometheus_path fl.prometheus_path)) _ config
        h4 in
    let (level, level_given, h6) =
      bind-ok (or_error _ (parse_log_level lower_table fl.log_level)) _ config h5 in
    let (parsed, parsed_given, h7) = bind-ok (parse_url parser url) _ config h6 in
    let (same_url, has_url) = url_given_sound fl.url url given in
    let host = parse_url_sound parser url parsed parsed_given in
    let (accepted, same_path) = path_result_sound fl.prometheus_path path _ path_given in
    rw (← ok_injective h7) (
      rw (← same_url) has_url,
      host,
      name_filled fl.instance_name (parser.hostname parsed) host,
      (positive_sound fl.http_max_concurrency max (or_error-ok _ _ max max_given)).1,
      (positive_sound fl.http_timeout_seconds timeout (or_error-ok _ _ timeout timeout_given)).1,
      port_of_sound fl.prometheus_port port (or_error-ok _ _ port port_given),
      rw (← same_path) ((check_prometheus_path_iff fl.prometheus_path).0 accepted),
      (level, or_error-ok _ _ level level_given),
    )

loaded_injective : {Url : Type 0} {a b : Config Url} → loaded a ≡ loaded b → a ≡ b
loaded_injective h = cc h

-- The runs of the parts that a configuration comes from.
abbrev pub ComesFrom :
    {Url : Type 0} → UrlParser Url → (ℕ → ℕ) → List Text → (Text → Text) → Config Url → Type 0
ComesFrom parser lower_table args getenv config =
    (defaults : Defaults) × (fl : Flags) × (apply_env_defaults getenv ≡ ok defaults)
    × (parse_flags args (new_flags defaults) ≡ ok fl)
    × (fl.version ≡ false)
    × (validate parser lower_table defaults fl ≡ ok config)

pub parse_config-ComesFrom :
    {Url : Type 0} (parser : UrlParser Url) (lower_table : ℕ → ℕ) (args : List Text)
    (getenv : Text → Text) (config : Config Url)
    → parse_config parser lower_table args getenv ≡ ok (loaded config)
    → ComesFrom parser lower_table args getenv config
unfolding parse_config
parse_config-ComesFrom parser lower_table args getenv config h =
    let (defaults, env, h1) = bind-ok (apply_env_defaults getenv) _ (loaded config) h in
    let (fl, flags, h2) = bind-ok (parse_flags args (new_flags defaults)) _ (loaded config) h1 in
    elim (Bool-cases fl.version) [
      | inl asked ↦ cc (rw (load, asked) at h2)
      | inr rest ↦
          let (config', valid, same) =
            bind-ok (validate parser lower_table defaults fl) _ (loaded config)
              (rw (load, rest) at h2) in
          (defaults, fl, env, flags, rest, valid ∙ ap ok (loaded_injective (ok_injective same)))
    ]

-- A configuration that `parseConfig` returns is valid: the URL is given and has a host, the `tdarr_instance` label
-- is not empty, both counts are above 0, the port is a number from 1 to 65535, the metrics path
-- is canonical and free, and the log level is known.
pub parse_config-IsValid :
    {Url : Type 0} (parser : UrlParser Url) (lower_table : ℕ → ℕ) (args : List Text)
    (getenv : Text → Text) (config : Config Url)
    → parse_config parser lower_table args getenv ≡ ok (loaded config)
    → IsValid parser lower_table config
parse_config-IsValid parser lower_table args getenv config h =
    let (defaults, fl, _, _, _, valid) =
      parse_config-ComesFrom parser lower_table args getenv config h in
    validate-IsValid parser lower_table defaults fl config valid
