-- ===== src/Config/Parse/Precedence.antt =====
-- Where the texts of a configuration of internal/config/config.go come from: the flags, the environment, the defaults.
use tdarr_exporter.Prelude.{
  ℕ, zero, suc, ◌≡◌, refl, sym, ap, ◌∙◌, List, [], ◌∷◌, map, All, if◌then◌else◌,
}
use tdarr_exporter.GoText.{Text, lit, is_empty}
use tdarr_exporter.Config.{Config}
use tdarr_exporter.Config.Numbers.{parse_bool, atoi, parse_uint10}
use tdarr_exporter.Config.Results.{
  invalid_verify_ssl, invalid_http_max_concurrency, invalid_http_timeout_seconds, ok, or_error,
}
use tdarr_exporter.Config.Env.{
  Variable, env_tdarr_url, env_tdarr_api_key, env_ssl_verify, env_prometheus_port,
  env_prometheus_path, env_log_level, env_http_max_concurrency, env_http_timeout_seconds,
  env_listen_address, env_instance_name, variable_name, Defaults, get_defaults, or_text, or_parsed,
  apply_env_defaults,
}
use tdarr_exporter.Config.Flags.{
  Flag, url_flag, api_key_flag, prometheus_port_flag, prometheus_path_flag, log_level_flag,
  listen_address_flag, instance_name_flag, Flags, new_flags, parse_flags,
}
use tdarr_exporter.Config.Flags.Laws.{
  text_value, read_flag, render, last_setting, HasValue, parse_flags-render,
}
use tdarr_exporter.Config.Path.{check_prometheus_path}
use tdarr_exporter.Config.Parse.{
  UrlParser, parse_log_level, parse_url, loaded, positive, port_of, path_result, url_given,
  validate, parse_config,
}
use tdarr_exporter.Config.Parse.Laws.{
  bind-ok, ok_injective, path_result_sound, url_given_sound, parse_config-ComesFrom,
}

-- The texts that flags set, of each of the records that hold them in turn.
abbrev flag_texts : Flags → List Text
flag_texts fl =
    fl.url ∷ fl.api_key ∷ fl.log_level ∷ fl.prometheus_port ∷ fl.prometheus_path ∷ fl.listen_address
    ∷ fl.instance_name ∷ []

-- The texts that a configuration keeps as they are set, and the text set for the name of its instance.
abbrev config_texts : {Url : Type 0} → Config Url → Text → List Text
config_texts c name =
    c.url ∷ c.api_key ∷ c.log_level ∷ c.prometheus_port ∷ c.prometheus_path ∷ c.listen_address
    ∷ name ∷ []

-- The name of an instance: what is set, or else the host of the URL.
abbrev pub name_or_host : {Url : Type 0} → UrlParser Url → Text → Url → Text
name_or_host parser name url = if is_empty name then parser.hostname url else name

abbrev default_texts : Defaults → List Text
default_texts d =
    d.url ∷ d.api_key ∷ d.log_level ∷ d.prometheus_port ∷ d.prometheus_path ∷ d.listen_address
    ∷ d.instance_name ∷ []

-- A variable's value, or the default of `getDefaults` if it is unset or empty.
abbrev pub env_or : (Text → Text) → Variable → Text → Text
env_or getenv v default = or_text (getenv (variable_name v)) default

abbrev env_texts : (Text → Text) → List Text
env_texts getenv =
    env_or getenv env_tdarr_url []
    ∷ env_or getenv env_tdarr_api_key []
    ∷ env_or getenv env_log_level (lit "info")
    ∷ env_or getenv env_prometheus_port (lit "9090")
    ∷ env_or getenv env_prometheus_path (lit "/metrics")
    ∷ env_or getenv env_listen_address (lit "0.0.0.0")
    ∷ env_or getenv env_instance_name []
    ∷ []

apply_env_defaults_texts :
    (getenv : Text → Text) (defaults : Defaults)
    → apply_env_defaults getenv ≡ ok defaults
    → default_texts defaults ≡ env_texts getenv
unfolding apply_env_defaults get_defaults
apply_env_defaults_texts getenv defaults h =
    let (b, _, h1) =
      bind-ok
        (or_parsed invalid_verify_ssl parse_bool (getenv (variable_name env_ssl_verify))
          get_defaults.verify_ssl)
        _ defaults h in
    let (n, _, h2) =
      bind-ok
        (or_parsed invalid_http_max_concurrency atoi
          (getenv (variable_name env_http_max_concurrency)) get_defaults.http_max_concurrency)
        _ defaults h1 in
    let (m, _, h3) =
      bind-ok
        (or_parsed invalid_http_timeout_seconds atoi
          (getenv (variable_name env_http_timeout_seconds)) get_defaults.http_timeout_seconds)
        _ defaults h2 in
    ap default_texts (sym (ok_injective h3))

validate_texts :
    {Url : Type 0} (parser : UrlParser Url) (lower_table : ℕ → ℕ) (defaults : Defaults) (fl : Flags)
    (config : Config Url)
    → validate parser lower_table defaults fl ≡ ok config
    → (config_texts config fl.instance_name ≡ flag_texts fl)
      × (config.instance_name ≡ name_or_host parser fl.instance_name config.url_parsed)
unfolding validate
validate_texts parser lower_table defaults fl config h =
    let (url, given, h1) = bind-ok (url_given fl.url) _ config h in
    let (max, _, h2) = bind-ok (or_error _ (positive fl.http_max_concurrency)) _ config h1 in
    let (timeout, _, h3) = bind-ok (or_error _ (positive fl.http_timeout_seconds)) _ config h2 in
    let (port, _, h4) =
      bind-ok (or_error _ (port_of (parse_uint10 65535 fl.prometheus_port))) _ config h3 in
    let (path, path_given, h5) =
      bind-ok (path_result fl.prometheus_path (check_prometheus_path fl.prometheus_path)) _ config
        h4 in
    let (level, _, h6) =
      bind-ok (or_error _ (parse_log_level lower_table fl.log_level)) _ config h5 in
    let (parsed, _, h7) = bind-ok (parse_url parser url) _ config h6 in
    let (same_url, _) = url_given_sound fl.url url given in
    let (_, same_path) = path_result_sound fl.prometheus_path path _ path_given in
    (
      ap (λ c. config_texts c fl.instance_name) (sym (ok_injective h7))
          ∙ ap
              (λ u.
                u ∷ fl.api_key ∷ fl.log_level ∷ fl.prometheus_port ∷ path ∷ fl.listen_address
                ∷ fl.instance_name ∷ [])
              (sym same_url)
          ∙ ap
              (λ p.
                fl.url ∷ fl.api_key ∷ fl.log_level ∷ fl.prometheus_port ∷ p ∷ fl.listen_address
                ∷ fl.instance_name ∷ [])
              (sym same_path),
      ap (λ c. c.instance_name) (sym (ok_injective h7))
          ∙ ap (λ c. name_or_host parser fl.instance_name c.url_parsed) (ok_injective h7),
    )

abbrev nth : ℕ → List Text → Text
nth n [] = []
nth zero (t ∷ texts) = t
nth (suc n) (t ∷ texts) = nth n texts

-- A text of the configuration is that of the last setting of its flag, or else that of its variable, or else
-- its default.
abbrev pub IsSetTo : List (Flag × Text) → (Text → Text) → Flag → Variable → Text → Text → Type 0
IsSetTo settings getenv f v default value =
    text_value value ≡ last_setting f settings (text_value (env_or getenv v default))

module _ {Url : Type 0} (parser : UrlParser Url) (lower_table : ℕ → ℕ)
    (settings : List (Flag × Text)) (getenv : Text → Text) (config : Config Url)
    (typed : All HasValue settings)
    (h : parse_config parser lower_table (map render settings) getenv ≡ ok (loaded config)) where
  -- The flags as they are parsed behind the defaults.
  abbrev FlagsOf : Flags → Type 0
  FlagsOf fl =
      (defaults : Defaults) × (apply_env_defaults getenv ≡ ok defaults)
      × (parse_flags (map render settings) (new_flags defaults) ≡ ok fl)

  -- The text of a flag, behind the settings and the environment.
  flag_text :
      (n : ℕ) (f : Flag) (fl : Flags)
      → ((fl : Flags) → read_flag f fl ≡ text_value (nth n (flag_texts fl)))
      → ((d : Defaults) → read_flag f (new_flags d) ≡ text_value (nth n (default_texts d)))
      → FlagsOf fl
      → text_value (nth n (flag_texts fl))
        ≡ last_setting f settings (text_value (nth n (env_texts getenv)))
  flag_text n f fl reads starts (defaults, env, flags) =
      let (fl', flags', last) = parse_flags-render settings (new_flags defaults) typed in
      let same : fl ≡ fl' = ok_injective (sym flags ∙ flags') in
      sym (reads fl)
      ∙ ap (read_flag f) same
      ∙ last f
      ∙ ap (last_setting f settings) (
          starts defaults
          ∙ ap (λ texts. text_value (nth n texts)) (apply_env_defaults_texts getenv defaults env))

  -- The precedence of the sources: in a configuration that is loaded from a command line of settings, each of them a
  -- value of its flag's type, every text that can be set is that of the last setting of its flag, or else that of its
  -- environment variable if it is not empty, or else the default; the name of the instance is the text so set for it
  -- if that is not empty, and otherwise the host of the URL.
  pub parse_config_precedence :
      IsSetTo settings getenv url_flag env_tdarr_url [] config.url
      × IsSetTo settings getenv api_key_flag env_tdarr_api_key [] config.api_key
      × IsSetTo settings getenv log_level_flag env_log_level (lit "info") config.log_level
      × IsSetTo settings getenv prometheus_port_flag env_prometheus_port
          (lit "9090")
          config.prometheus_port
      × IsSetTo settings getenv prometheus_path_flag env_prometheus_path
          (lit "/metrics")
          config.prometheus_path
      × IsSetTo settings getenv listen_address_flag env_listen_address
          (lit "0.0.0.0")
          config.listen_address
      × (name : Text) × IsSetTo settings getenv instance_name_flag env_instance_name [] name
      × (config.instance_name ≡ name_or_host parser name config.url_parsed)
  unfolding new_flags
  parse_config_precedence =
      let (defaults, fl, env, flags, _, valid) =
        parse_config-ComesFrom parser lower_table (map render settings) getenv config h in
      let (kept, named) = validate_texts parser lower_table defaults fl config valid in
      let of : FlagsOf fl = (defaults, env, flags) in
      let text : ℕ → Text = λ n. nth n (flag_texts fl) in
      let keeps : (n : ℕ)
          → text_value (nth n (config_texts config fl.instance_name)) ≡ text_value (text n) =
        λ n. ap (λ texts. text_value (nth n texts)) kept in
      (
        keeps 0 ∙ flag_text 0 url_flag fl (λ fl. refl) (λ d. refl) of,
        keeps 1 ∙ flag_text 1 api_key_flag fl (λ fl. refl) (λ d. refl) of,
        keeps 2 ∙ flag_text 2 log_level_flag fl (λ fl. refl) (λ d. refl) of,
        keeps 3 ∙ flag_text 3 prometheus_port_flag fl (λ fl. refl) (λ d. refl) of,
        keeps 4 ∙ flag_text 4 prometheus_path_flag fl (λ fl. refl) (λ d. refl) of,
        keeps 5 ∙ flag_text 5 listen_address_flag fl (λ fl. refl) (λ d. refl) of,
        fl.instance_name,
        flag_text 6 instance_name_flag fl (λ fl. refl) (λ d. refl) of,
        named,
      )
