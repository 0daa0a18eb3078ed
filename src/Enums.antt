-- ===== src/Enums.antt =====
-- internal/collector/tdarr_enums.go: the known statuses, the cleaning of raw status names into label
-- values, the normalization of a status slice into a map, and the health test of the server status.
-- A Go map is an association list (Prelude.Assoc), a set is the list of its keys; the log calls are
-- left out. `unknown_counter` acts on a state that is passed along.
pub mod Normalize
use tdarr_exporter.Prelude.{ℕ, Bool, List, [], ◌∷◌, Option, none, some, ◌==◌, elem, if◌then◌else◌}
use tdarr_exporter.Prelude.Int.{ℤ, pos}
use tdarr_exporter.Prelude.Assoc.{insert}
use tdarr_exporter.GoText.{Text, Text_eq, lit, to_lower, trim_prefix, trim_space}
use tdarr_exporter.Models.{TdarrPieSlice, TdarrPieStats}

abbrev pub known_transcode_statuses : List Text
known_transcode_statuses =
    lit "not required"
    ∷ lit "queued"
    ∷ lit "error"
    ∷ lit "success"
    ∷ lit "ignored"
    ∷ lit "cancelled"
    ∷ lit "hold"
    ∷ []

abbrev pub known_health_check_statuses : List Text
known_health_check_statuses = lit "queued" ∷ lit "error" ∷ lit "success" ∷ lit "cancelled" ∷ []

abbrev pub healthy_server_statuses : List Text
healthy_server_statuses = lit "good" ∷ lit "ok" ∷ lit "healthy" ∷ []

-- for k := range known { result[k] = 0 }
unfoldable pub zero_all : List Text → List (Text × ℤ) → List (Text × ℤ)
zero_all [] result = result
zero_all (k ∷ known) result = zero_all known (insert k (pos 0) result)

module _ {ℓ} {S : Type ℓ} (known : List Text) (cleaner : Text → Text) (kind : Text)
    (unknown_counter : Option (Text → Text → S → S)) where
  -- if unknownCounter != nil { unknownCounter(kind, cleaned) }
  abbrev pub call_counter : Text → S → S
  call_counter cleaned st = elim unknown_counter [ none ↦ st | some f ↦ f kind cleaned st ]

  -- The loop over the entries of the API.
  unfoldable pub normalize_entries : List TdarrPieSlice → List (Text × ℤ) → S → List (Text × ℤ) × S
  normalize_entries [] result st = (result, st)
  normalize_entries (s ∷ raw) result st =
      normalize_entries raw (insert (cleaner s.name) s.value result)
        (if elem (cleaner s.name) known then st else call_counter (cleaner s.name) st)

  unfoldable pub normalize_status_slice : List TdarrPieSlice → S → List (Text × ℤ) × S
  unfolding normalize_entries zero_all
  normalize_status_slice raw st = normalize_entries raw (zero_all known []) st

module _ (lower_table : ℕ → ℕ) where
  unfoldable pub clean_transcode_label : Text → Text
  unfolding to_lower trim_prefix trim_space
  clean_transcode_label raw_name =
      trim_space (trim_prefix (to_lower lower_table raw_name) (lit "transcode"))

  unfoldable pub clean_health_check_label : Text → Text
  unfolding to_lower
  clean_health_check_label raw_name = to_lower lower_table raw_name

  unfoldable pub is_healthy_server_status : Text → Bool
  unfolding to_lower trim_space elem
  is_healthy_server_status status =
      elem (to_lower lower_table (trim_space status)) healthy_server_statuses

  unfoldable pub normalize_pie_statuses {ℓ} :
      {S : Type ℓ} {Num : Type 0}
      → Option (Text → Text → S → S)
      → TdarrPieStats Num
      → S
      → TdarrPieStats Num × S
  unfolding normalize_status_slice clean_transcode_label clean_health_check_label
  normalize_pie_statuses unknown_counter pie st =
      let (transcodes, st₁) =
        normalize_status_slice known_transcode_statuses clean_transcode_label (lit "transcode")
          unknown_counter pie.pie_stats.status.transcode st in
      let (health_checks, st₂) =
        normalize_status_slice known_health_check_statuses clean_health_check_label
          (lit "healthcheck") unknown_counter pie.pie_stats.status.health_check st₁ in
      (
        record pie { normalized_transcodes = transcodes; normalized_health_checks = health_checks },
        st₂,
      )
