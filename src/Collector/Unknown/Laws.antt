-- ===== src/Collector/Unknown/Laws.antt =====
-- How normalization moves the unknown-status counters of internal/collector/tdarr.go.
use tdarr_exporter.Prelude.{
  ℕ, ◌+◌, ◌≡◌, not, ◌&&◌, List, [], ◌∷◌, some, arith, ◌==◌, elem, if◌then◌else◌, Bool-cases, inl,
  inr,
}
use tdarr_exporter.Prelude.Int.{ℤ}
use tdarr_exporter.Prelude.Assoc.{insert, lookup-insert}
use tdarr_exporter.GoText.{Text, Text_eq, lit}
use tdarr_exporter.Models.{TdarrPieSlice, TdarrPieStats}
use tdarr_exporter.Enums.{
  known_transcode_statuses, known_health_check_statuses, zero_all, normalize_entries,
  normalize_status_slice, clean_transcode_label, clean_health_check_label, normalize_pie_statuses,
}
use tdarr_exporter.Collector.Unknown.{
  UnknownStatusKey, UnknownStatusKey_eq, UnknownStatusCounts, count_of, bump_unknown_status,
}

pub count_of-bump :
    (key : UnknownStatusKey) (kind status : Text) (counts : UnknownStatusCounts)
    → count_of key (bump_unknown_status kind status counts)
      ≡ count_of key counts + (if kind == key.kind && status == key.status then 1 else 0)
unfolding bump_unknown_status
count_of-bump key kind status counts =
    let new : UnknownStatusKey = record { kind = kind; status = status } in
    ground (
      arith,
      lookup-insert new key (count_of new counts + 1) counts,
      UnknownStatusKey_eq.beq_iff new key,
    )

-- How many entries of a status slice are cleaned to the label `k`, where `k` is no known label.
abbrev pub unknown_entries : List Text → (Text → Text) → Text → List TdarrPieSlice → ℕ
unknown_entries known cleaner k [] = 0
unknown_entries known cleaner k (s ∷ raw) =
    (if cleaner s.name == k && not (elem (cleaner s.name) known) then 1 else 0)
    + unknown_entries known cleaner k raw

count_of-normalize_entries :
    (known : List Text) (cleaner : Text → Text) (kind : Text) (key : UnknownStatusKey)
    (raw : List TdarrPieSlice) (result : List (Text × ℤ)) (counts : UnknownStatusCounts)
    → count_of key
        (normalize_entries known cleaner kind (some bump_unknown_status) raw result counts).1
      ≡ count_of key counts
        + (if kind == key.kind then unknown_entries known cleaner key.status raw else 0)
unfolding normalize_entries
count_of-normalize_entries known cleaner kind key [] result counts = ground arith
count_of-normalize_entries known cleaner kind key (s ∷ raw) result counts =
    elim (Bool-cases (elem (cleaner s.name) known)) [
      | inl old ↦ rw old (
          ground (
            arith,
            count_of-normalize_entries known cleaner kind key raw
                (insert (cleaner s.name) s.value result) counts,
          ))
      | inr new ↦ rw new (
          ground (
            arith,
            count_of-normalize_entries known cleaner kind key raw
                (insert (cleaner s.name) s.value result)
                (bump_unknown_status kind (cleaner s.name) counts),
            count_of-bump key kind (cleaner s.name) counts,
          ))
    ]

count_of-normalize_status_slice :
    (known : List Text) (cleaner : Text → Text) (kind : Text) (key : UnknownStatusKey)
    (raw : List TdarrPieSlice) (counts : UnknownStatusCounts)
    → count_of key
        (normalize_status_slice known cleaner kind (some bump_unknown_status) raw counts).1
      ≡ count_of key counts
        + (if kind == key.kind then unknown_entries known cleaner key.status raw else 0)
unfolding normalize_status_slice
count_of-normalize_status_slice known cleaner kind key raw counts =
    count_of-normalize_entries known cleaner kind key raw (zero_all known []) counts

-- The entries of a pie that fall under the counter of `key`.
abbrev pub unknown_in_pie : {Num : Type 0} → (ℕ → ℕ) → UnknownStatusKey → TdarrPieStats Num → ℕ
unknown_in_pie lower_table key pie =
    (if lit "transcode" == key.kind
      then unknown_entries known_transcode_statuses (clean_transcode_label lower_table) key.status
          pie.pie_stats.status.transcode
      else 0)
    + (if lit "healthcheck" == key.kind
        then unknown_entries known_health_check_statuses (clean_health_check_label lower_table)
            key.status pie.pie_stats.status.health_check
        else 0)

-- Normalizing a pie raises the counter of each kind and status by exactly the number of the pie's
-- entries of that kind that are cleaned to that status, if the status is not known, and leaves every
-- other counter as it was.
pub count_of-normalize_pie_statuses :
    {Num : Type 0} (lower_table : ℕ → ℕ) (pie : TdarrPieStats Num) (counts : UnknownStatusCounts)
    (key : UnknownStatusKey)
    → count_of key (normalize_pie_statuses lower_table (some bump_unknown_status) pie counts).1
      ≡ count_of key counts + unknown_in_pie lower_table key pie
unfolding normalize_pie_statuses
count_of-normalize_pie_statuses lower_table pie counts key = omega (
  arith,
  count_of-normalize_status_slice known_transcode_statuses (clean_transcode_label lower_table)
      (lit "transcode") key pie.pie_stats.status.transcode counts,
  count_of-normalize_status_slice known_health_check_statuses (clean_health_check_label lower_table)
      (lit "healthcheck") key pie.pie_stats.status.health_check
      (normalize_status_slice known_transcode_statuses (clean_transcode_label lower_table)
        (lit "transcode") (some bump_unknown_status) pie.pie_stats.status.transcode counts).1,
)
