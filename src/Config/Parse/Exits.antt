-- ===== src/Config/Parse/Exits.antt =====
-- The exit statuses of `NewConfig` (internal/config/config.go).
use tdarr_exporter.Prelude.{
  ℕ, ◌≡◌, ◌↔◌, refl, sym, ap, ◌∙◌, Bool, true, false, List, [], ◌∷◌, Option, none, some,
  if◌then◌else◌, inl, inr, ◌⊎◌,
}
use tdarr_exporter.GoText.{Text, is_empty}
use tdarr_exporter.Config.Numbers.{parse_bool, atoi, parse_uint10}
use tdarr_exporter.Config.Results.{
  invalid_verify_ssl, invalid_http_max_concurrency, invalid_http_timeout_seconds, host_missing,
  ConfigError, err_help, err_flag_parse, FlagError, PathError, Result, ok, error, ◌>>=◌, or_error,
}
use tdarr_exporter.Config.Env.{
  Defaults, get_defaults, variable_name, env_ssl_verify, env_http_max_concurrency,
  env_http_timeout_seconds, apply_env_defaults, or_parsed,
}
use tdarr_exporter.Config.Flags.{Flags, new_flags, parse_flags}
use tdarr_exporter.Config.Parse.{
  parse_log_level, UrlParser, has_host, parse_url, Loaded, version_only, loaded, positive, port_of,
  path_result, url_given, validate, load, parse_config, startup, Startup, exits, exit_status,
  new_config,
}

Result-cases :
    {A : Type 0} (m : Result A) → ((a : A) × (m ≡ ok a)) ⊎ ((e : ConfigError) × (m ≡ error e))
Result-cases (ok a) = inl (a, refl)
Result-cases (error e) = inr (e, refl)

-- Every error of a step is a semantic one.
abbrev IsSemantic : {A : Type 0} → Result A → Type 0
IsSemantic m = (e : ConfigError) → m ≡ error e → exit_status e ≡ 1

error_injective : {A : Type 0} (d e : ConfigError) → ◌≡◌ {A = Result A} (error d) (error e) → d ≡ e
error_injective d e h = cc h

ok_IsSemantic : {A : Type 0} (a : A) → IsSemantic (ok a)
ok_IsSemantic a e h = cc h

error_IsSemantic : {A : Type 0} (d : ConfigError) → exit_status d ≡ 1 → IsSemantic {A = A} (error d)
error_IsSemantic d semantic e h = rw (← error_injective d e h) semantic

bind_IsSemantic :
    {A B : Type 0} (m : Result A) (f : A → Result B)
    → IsSemantic m
    → ((a : A) → IsSemantic (f a))
    → IsSemantic (m >>= f)
bind_IsSemantic (ok a) f h k = k a
bind_IsSemantic (error d) f h k = error_IsSemantic d (h d refl)

or_error-IsSemantic :
    {A : Type 0} (d : ConfigError) (o : Option A) → exit_status d ≡ 1 → IsSemantic (or_error d o)
or_error-IsSemantic d none semantic = error_IsSemantic d semantic
or_error-IsSemantic d (some a) semantic = ok_IsSemantic a

or_parsed-IsSemantic :
    {A : Type 0} (err : Text → ConfigError) (parse : Text → Option A) (v : Text) (current : A)
    → exit_status (err v) ≡ 1
    → IsSemantic (or_parsed err parse v current)
or_parsed-IsSemantic err parse [] current semantic = ok_IsSemantic current
or_parsed-IsSemantic err parse (c ∷ v) current semantic =
    or_error-IsSemantic (err (c ∷ v)) (parse (c ∷ v)) semantic

apply_env_defaults-IsSemantic : (getenv : Text → Text) → IsSemantic (apply_env_defaults getenv)
unfolding apply_env_defaults
apply_env_defaults-IsSemantic getenv =
    bind_IsSemantic _ _
      (or_parsed-IsSemantic invalid_verify_ssl parse_bool (getenv (variable_name env_ssl_verify))
        get_defaults.verify_ssl refl)
      (λ b.
        bind_IsSemantic _ _
          (or_parsed-IsSemantic invalid_http_max_concurrency atoi
            (getenv (variable_name env_http_max_concurrency)) get_defaults.http_max_concurrency
            refl)
          (λ n.
            bind_IsSemantic _ _
              (or_parsed-IsSemantic invalid_http_timeout_seconds atoi
                (getenv (variable_name env_http_timeout_seconds)) get_defaults.http_timeout_seconds
                refl)
              (λ m. ok_IsSemantic _)))

if_IsSemantic :
    {A : Type 0} (b : Bool) (x y : Result A)
    → IsSemantic x
    → IsSemantic y
    → IsSemantic (if b then x else y)
if_IsSemantic true x y h k = h
if_IsSemantic false x y h k = k

path_result-IsSemantic : (p : Text) (e : Option PathError) → IsSemantic (path_result p e)
path_result-IsSemantic p none = ok_IsSemantic p
path_result-IsSemantic p (some e) = error_IsSemantic _ refl

url_given-IsSemantic : (s : Text) → IsSemantic (url_given s)
url_given-IsSemantic [] = error_IsSemantic _ refl
url_given-IsSemantic (c ∷ s) = ok_IsSemantic _

has_host-IsSemantic :
    {Url : Type 0} (parser : UrlParser Url) (s : Text) (u : Url) → IsSemantic (has_host parser s u)
has_host-IsSemantic parser s u =
    if_IsSemantic (is_empty (parser.hostname u)) _ _ (error_IsSemantic (host_missing s) refl)
      (ok_IsSemantic u)

module _ {Url : Type 0} (parser : UrlParser Url) (lower_table : ℕ → ℕ) where
  parse_url-IsSemantic : (s : Text) → IsSemantic (parse_url parser s)
  unfolding parse_url
  parse_url-IsSemantic s =
      bind_IsSemantic _ _ (or_error-IsSemantic _ _ refl) (λ u. has_host-IsSemantic parser _ u)

  validate-IsSemantic :
      (defaults : Defaults) (fl : Flags) → IsSemantic (validate parser lower_table defaults fl)
  unfolding validate
  validate-IsSemantic defaults fl = bind_IsSemantic _ _ (url_given-IsSemantic fl.url) (λ url.
      bind_IsSemantic _ _ (or_error-IsSemantic _ (positive fl.http_max_concurrency) refl) (λ max.
        bind_IsSemantic _ _ (or_error-IsSemantic _ (positive fl.http_timeout_seconds) refl)
          (λ timeout.
            bind_IsSemantic _ _
              (or_error-IsSemantic _ (port_of (parse_uint10 65535 fl.prometheus_port)) refl)
              (λ port. bind_IsSemantic _ _ (path_result-IsSemantic fl.prometheus_path _) (λ path.
                bind_IsSemantic _ _
                  (or_error-IsSemantic _ (parse_log_level lower_table fl.log_level) refl)
                  (λ level.
                    bind_IsSemantic _ _ (parse_url-IsSemantic url) (λ parsed. ok_IsSemantic _)))))))

  -- The steps of `parseConfig`, one at a time.
  config_of_env :
      (args : List Text) (getenv : Text → Text) (e : ConfigError)
      → apply_env_defaults getenv ≡ error e
      → new_config parser lower_table args getenv ≡ exits (exit_status e)
  unfolding new_config parse_config
  config_of_env args getenv e h = rw (startup, h) refl

  config_of_flags :
      (args : List Text) (getenv : Text → Text) (defaults : Defaults) (r : Result Flags)
      → apply_env_defaults getenv ≡ ok defaults
      → parse_flags args (new_flags defaults) ≡ r
      → new_config parser lower_table args getenv
        ≡ startup parser lower_table (r >>= load parser lower_table defaults)
  unfolding new_config parse_config
  config_of_flags args getenv defaults r h k = rw (h, k) refl

  load-IsSemantic :
      (defaults : Defaults) (fl : Flags) → IsSemantic (load parser lower_table defaults fl)
  load-IsSemantic defaults fl = if_IsSemantic fl.version _ _ (ok_IsSemantic version_only) (
      bind_IsSemantic (validate parser lower_table defaults fl) _ (validate-IsSemantic defaults fl)
        (λ config. ok_IsSemantic (loaded config)))

  exits_injective : (m n : ℕ) → ◌≡◌ {A = Startup Url} (exits m) (exits n) → m ≡ n
  exits_injective m n h = cc h

  startup_exits :
      (r : Result (Loaded Url)) (n : ℕ)
      → IsSemantic r
      → startup parser lower_table r ≡ exits n
      → n ≡ 1
  startup_exits (error e) n semantic h = sym (exits_injective (exit_status e) n h) ∙ semantic e refl
  startup_exits (ok version_only) n semantic h = cc h
  startup_exits (ok (loaded config)) n semantic h = cc h

  exit_status_2 : (e : ConfigError) → exit_status e ≡ 2 → (d : FlagError) × (e ≡ err_flag_parse d)
  exit_status_2 err_help h = cc h
  exit_status_2 (err_flag_parse d) h = (d, refl)
  exit_status_2 _ h = cc h

  -- The process exits with status 2 at startup if and only if the environment is well formed and the command
  -- line is not, in the flags themselves: an undeclared flag, a missing or malformed value, a bad syntax.
  pub new_config-exits_2_iff :
      (args : List Text) (getenv : Text → Text)
      → (new_config parser lower_table args getenv ≡ exits 2) ↔ (
          (defaults : Defaults) × (e : FlagError) × (apply_env_defaults getenv ≡ ok defaults)
          × (parse_flags args (new_flags defaults) ≡ error (err_flag_parse e)))
  new_config-exits_2_iff args getenv = (
    λ h. elim (Result-cases (apply_env_defaults getenv)) [
      | inr (e, malformed) ↦
          let one : exit_status e ≡ 1 = apply_env_defaults-IsSemantic getenv e malformed in
          let two : exit_status e ≡ 2 =
            exits_injective _ 2 (sym (config_of_env args getenv e malformed) ∙ h) in
          cc (sym one ∙ two)
      | inl (defaults, env) ↦ elim (Result-cases (parse_flags args (new_flags defaults))) [
        | inl (fl, flags) ↦ cc (
            startup_exits (load parser lower_table defaults fl) 2 (load-IsSemantic defaults fl)
              (sym (config_of_flags args getenv defaults (ok fl) env flags) ∙ h))
        | inr (e, refused) ↦
            let two =
              exits_injective _ 2
                (sym (config_of_flags args getenv defaults (error e) env refused) ∙ h) in
            let (d, same) = exit_status_2 e two in (defaults, d, env, refused ∙ ap error same)
      ]
    ],
    λ (defaults, e, env, refused).
        config_of_flags args getenv defaults (error (err_flag_parse e)) env refused,
  )
