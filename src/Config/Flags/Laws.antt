-- ===== src/Config/Flags/Laws.antt =====
-- The flags of internal/config/config.go read back from a command line that was written from settings.
use tdarr_exporter.Prelude.{
  ◌≡◌, refl, ap, ◌∙◌, Bool, List, [], ◌∷◌, ◌++◌, map, Option, none, some, ◌==◌, All, if◌then◌else◌,
  list_eq,
}
use tdarr_exporter.Prelude.Int.{ℤ}
use tdarr_exporter.GoText.{Text, Text_eq}
use tdarr_exporter.Config.Numbers.{parse_bool, parse_int0}
use tdarr_exporter.Config.Results.{invalid_flag_value, ok}
use mathlib.Core.Option.{some-injective}
use tdarr_exporter.Config.Flags.{
  Flag, url_flag, api_key_flag, verify_ssl_flag, prometheus_port_flag, prometheus_path_flag,
  log_level_flag, http_max_concurrency_flag, http_timeout_seconds_flag, version_flag,
  listen_address_flag, instance_name_flag, flag_name, formal, Flags, set_flag, took_one, or_fails,
  set_parsed, split_name, parse_one, parse_flags,
}

-- What a flag's variable holds.
pub data FlagValue : Type 0 where
  text_value : Text → FlagValue
  bool_value : Bool → FlagValue
  int_value : ℤ → FlagValue

abbrev pub read_flag : Flag → Flags → FlagValue
read_flag url_flag fl = text_value fl.url
read_flag api_key_flag fl = text_value fl.api_key
read_flag verify_ssl_flag fl = bool_value fl.verify_ssl
read_flag prometheus_port_flag fl = text_value fl.prometheus_port
read_flag prometheus_path_flag fl = text_value fl.prometheus_path
read_flag log_level_flag fl = text_value fl.log_level
read_flag http_max_concurrency_flag fl = int_value fl.http_max_concurrency
read_flag http_timeout_seconds_flag fl = int_value fl.http_timeout_seconds
read_flag version_flag fl = bool_value fl.version
read_flag listen_address_flag fl = text_value fl.listen_address
read_flag instance_name_flag fl = text_value fl.instance_name

-- The value that a text has as the value of a flag.
abbrev bool_of : Option Bool → Option FlagValue
bool_of none = none
bool_of (some b) = some (bool_value b)

abbrev int_of : Option ℤ → Option FlagValue
int_of none = none
int_of (some n) = some (int_value n)

abbrev pub value_of : Flag → Text → Option FlagValue
value_of verify_ssl_flag v = bool_of (parse_bool v)
value_of version_flag v = bool_of (parse_bool v)
value_of http_max_concurrency_flag v = int_of (parse_int0 v)
value_of http_timeout_seconds_flag v = int_of (parse_int0 v)
value_of _ v = some (text_value v)

-- -name=value
abbrev pub render : Flag × Text → Text
render (f, v) = b'-' ∷ flag_name f ++ b'=' ∷ v

parse_one-render :
    (f : Flag) (v : Text) (next : Option Text) (fl : Flags)
    → parse_one (render (f, v)) next fl
      ≡ or_fails (invalid_flag_value (flag_name f) v) took_one (set_flag f v fl)
unfolding parse_one split_name formal list_eq
parse_one-render url_flag v next fl = refl
parse_one-render api_key_flag v next fl = refl
parse_one-render verify_ssl_flag v next fl = refl
parse_one-render prometheus_port_flag v next fl = refl
parse_one-render prometheus_path_flag v next fl = refl
parse_one-render log_level_flag v next fl = refl
parse_one-render http_max_concurrency_flag v next fl = refl
parse_one-render http_timeout_seconds_flag v next fl = refl
parse_one-render version_flag v next fl = refl
parse_one-render listen_address_flag v next fl = refl
parse_one-render instance_name_flag v next fl = refl

parse_one_set :
    (f : Flag) (v : Text) (next : Option Text) (fl fl' : Flags)
    → set_flag f v fl ≡ some fl'
    → parse_one (render (f, v)) next fl ≡ took_one fl'
parse_one_set f v next fl fl' h =
    parse_one-render f v next fl ∙ ap (or_fails (invalid_flag_value (flag_name f) v) took_one) h

parse_flags_cons :
    (f : Flag) (v : Text) (args : List Text) (fl fl' : Flags)
    → set_flag f v fl ≡ some fl'
    → parse_flags (render (f, v) ∷ args) fl ≡ parse_flags args fl'
unfolding parse_flags
parse_flags_cons f v [] fl fl' h = rw (parse_flags, parse_one_set f v none fl fl' h) refl
parse_flags_cons f v (next ∷ args) fl fl' h =
    rw (parse_flags, parse_one_set f v (some next) fl fl' h) refl

-- `fl'` is `fl` with one flag set to a value, as far as one flag can tell.
abbrev SetsFor : Flag → FlagValue → Flags → Flags → Flag → Type 0
SetsFor g x fl fl' f = read_flag f fl' ≡ (if flag_name g == flag_name f then x else read_flag f fl)

abbrev Sets : Flag → FlagValue → Flags → Flags → Type 0
Sets g x fl fl' = (f : Flag) → SetsFor g x fl fl' f

abbrev Assigned : Flag → FlagValue → Flags → Option Flags → Type 0
Assigned g x fl o = (fl' : Flags) × (o ≡ some fl') × Sets g x fl fl'

Assigned-text :
    (g : Flag) (v : Text) (x : FlagValue) (fl fl' : Flags)
    → some (text_value v) ≡ some x
    → Sets g (text_value v) fl fl'
    → Assigned g x fl (some fl')
Assigned-text g v x fl fl' h sets = (fl', refl, rw (← some-injective (text_value v) x h) sets)

Assigned-bool :
    (g : Flag) (o : Option Bool) (x : FlagValue) (fl : Flags) (set : Bool → Flags)
    → bool_of o ≡ some x
    → ((b : Bool) → Sets g (bool_value b) fl (set b))
    → Assigned g x fl (set_parsed o set)
Assigned-bool g none x fl set h sets = cc h
Assigned-bool g (some b) x fl set h sets =
    (set b, refl, rw (← some-injective (bool_value b) x h) (sets b))

Assigned-int :
    (g : Flag) (o : Option ℤ) (x : FlagValue) (fl : Flags) (set : ℤ → Flags)
    → int_of o ≡ some x
    → ((n : ℤ) → Sets g (int_value n) fl (set n))
    → Assigned g x fl (set_parsed o set)
Assigned-int g none x fl set h sets = cc h
Assigned-int g (some n) x fl set h sets =
    (set n, refl, rw (← some-injective (int_value n) x h) (sets n))

Assigned-set_flag :
    (g : Flag) (v : Text) (x : FlagValue) (fl : Flags)
    → value_of g v ≡ some x
    → Assigned g x fl (set_flag g v fl)
unfolding set_flag list_eq
Assigned-set_flag url_flag v x fl h = Assigned-text url_flag v x fl _ h (λ f.
    elim f as (SetsFor url_flag (text_value v) fl (record fl { url = v })) [
      | url_flag ↦ refl
      | _ ↦ refl
    ])
Assigned-set_flag api_key_flag v x fl h = Assigned-text api_key_flag v x fl _ h (λ f.
    elim f as (SetsFor api_key_flag (text_value v) fl (record fl { api_key = v })) [
      | url_flag ↦ refl
      | _ ↦ refl
    ])
Assigned-set_flag verify_ssl_flag v x fl h =
    Assigned-bool verify_ssl_flag (parse_bool v) x fl _ h (λ b f.
      elim f as (SetsFor verify_ssl_flag (bool_value b) fl (record fl { verify_ssl = b })) [
        | url_flag ↦ refl
        | _ ↦ refl
      ])
Assigned-set_flag prometheus_port_flag v x fl h =
    Assigned-text prometheus_port_flag v x fl _ h (λ f.
      elim f
        as (SetsFor prometheus_port_flag (text_value v) fl (record fl { prometheus_port = v })) [
          | url_flag ↦ refl
          | _ ↦ refl
        ])
Assigned-set_flag prometheus_path_flag v x fl h =
    Assigned-text prometheus_path_flag v x fl _ h (λ f.
      elim f
        as (SetsFor prometheus_path_flag (text_value v) fl (record fl { prometheus_path = v })) [
          | url_flag ↦ refl
          | _ ↦ refl
        ])
Assigned-set_flag log_level_flag v x fl h = Assigned-text log_level_flag v x fl _ h (λ f.
    elim f as (SetsFor log_level_flag (text_value v) fl (record fl { log_level = v })) [
      | url_flag ↦ refl
      | _ ↦ refl
    ])
Assigned-set_flag http_max_concurrency_flag v x fl h =
    Assigned-int http_max_concurrency_flag (parse_int0 v) x fl _ h (λ n f.
      elim f
        as (SetsFor http_max_concurrency_flag (int_value n) fl
          (record fl { http_max_concurrency = n })) [ url_flag ↦ refl | _ ↦ refl ])
Assigned-set_flag http_timeout_seconds_flag v x fl h =
    Assigned-int http_timeout_seconds_flag (parse_int0 v) x fl _ h (λ n f.
      elim f
        as (SetsFor http_timeout_seconds_flag (int_value n) fl
          (record fl { http_timeout_seconds = n })) [ url_flag ↦ refl | _ ↦ refl ])
Assigned-set_flag version_flag v x fl h = Assigned-bool version_flag (parse_bool v) x fl _ h (λ b f.
    elim f as (SetsFor version_flag (bool_value b) fl (record fl { version = b })) [
      | url_flag ↦ refl
      | _ ↦ refl
    ])
Assigned-set_flag listen_address_flag v x fl h = Assigned-text listen_address_flag v x fl _ h (λ f.
    elim f as (SetsFor listen_address_flag (text_value v) fl (record fl { listen_address = v })) [
      | url_flag ↦ refl
      | _ ↦ refl
    ])
Assigned-set_flag instance_name_flag v x fl h = Assigned-text instance_name_flag v x fl _ h (λ f.
    elim f as (SetsFor instance_name_flag (text_value v) fl (record fl { instance_name = v })) [
      | url_flag ↦ refl
      | _ ↦ refl
    ])

-- The value of a flag behind settings: that of its last one, or else the one before.
abbrev pub last_setting : Flag → List (Flag × Text) → FlagValue → FlagValue
last_setting f [] x = x
last_setting f ((g, v) ∷ settings) x =
    last_setting f settings
      (if flag_name g == flag_name f then (elim (value_of g v) [ none ↦ x | some y ↦ y ]) else x)

abbrev pub HasValue : Flag × Text → Type 0
HasValue (g, v) = (x : FlagValue) × (value_of g v ≡ some x)

-- The round trip of a command line: settings written as `-name=value`, each of them a value of its flag's type, are
-- parsed without error, and every flag then has the value of its last setting, or what it had before if it is not set.
pub parse_flags-render :
    (settings : List (Flag × Text)) (fl : Flags)
    → All HasValue settings
    → (fl' : Flags) × (parse_flags (map render settings) fl ≡ ok fl')
      × ((f : Flag) → read_flag f fl' ≡ last_setting f settings (read_flag f fl))
unfolding parse_flags
parse_flags-render [] fl h = (fl, refl, λ f. refl)
parse_flags-render ((g, v) ∷ settings) fl ((x, value), h) =
    let (fl', set, sets) = Assigned-set_flag g v x fl value in
    let (final, parses, last) = parse_flags-render settings fl' h in
    (
      final,
      parse_flags_cons g v (map render settings) fl fl' set ∙ parses,
      λ f. rw value (last f ∙ ap (last_setting f settings) (sets f)),
    )
