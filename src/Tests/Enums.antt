-- ===== src/Tests/Enums.antt =====
-- Normalization of the statuses of a library: internal/collector/tdarr_enums.go.
use tdarr_exporter.Prelude.{
  ℕ, ◌+◌, ◌≡◌, refl, List, [], ◌∷◌, none, some, elem, list_eq, if◌then◌else◌,
}
use tdarr_exporter.Prelude.Int.{ℤ, pos}
use tdarr_exporter.Prelude.Assoc.{lookup}
use tdarr_exporter.GoText.{Text_eq, lit, is_space}
use tdarr_exporter.Models.{TdarrPieSlice, TdarrPieStats, TdarrPieVideoSlice}
use tdarr_exporter.Enums.{
  known_transcode_statuses, clean_transcode_label, normalize_status_slice, normalize_pie_statuses,
}
use tdarr_exporter.Enums.Normalize.{last_value, or_else, lookup-normalize_status_slice}
use tdarr_exporter.Collector.Unknown.{
  UnknownStatusKey, UnknownStatusCounts, count_of, bump_unknown_status,
}
use tdarr_exporter.Collector.Unknown.Laws.{unknown_in_pie, count_of-normalize_pie_statuses}

-- `unicode.ToLower` of ASCII only.
abbrev pub ascii : ℕ → ℕ
ascii c = c

abbrev slices : List TdarrPieSlice
slices =
    record { name = lit "Transcode success"; value = pos 5 }
    ∷ record { name = lit "Transcode exploded"; value = pos 2 }
    ∷ []

abbrev no_streams : TdarrPieVideoSlice
no_streams = record { codecs = []; containers = []; resolutions = [] }

abbrev pub movies_pie : TdarrPieStats ℤ
movies_pie = record {
  pie_stats = record {
    total_files = pos 7;
    total_transcode_count = pos 5;
    size_diff = pos 0;
    total_health_check_count = pos 0;
    status = record { transcode = slices; health_check = [] };
    video = no_streams;
    audio = no_streams;
  };
  library_name = lit "Movies";
  library_id = lit "m";
  normalized_transcodes = [];
  normalized_health_checks = [];
}

abbrev exploded : UnknownStatusKey
exploded = record { kind = lit "transcode"; status = lit "exploded" }

abbrev counters : UnknownStatusCounts
counters = (exploded, 3) ∷ []

lookup-normalize_status_slice_example :
    lookup
      (lit "success")
      (normalize_status_slice known_transcode_statuses
        (clean_transcode_label ascii)
        (lit "transcode")
        (some bump_unknown_status)
        slices
        counters).0
    ≡ or_else
        (last_value (clean_transcode_label ascii) (lit "success") slices)
        (if elem (lit "success") known_transcode_statuses then some (pos 0) else none)
lookup-normalize_status_slice_example =
    lookup-normalize_status_slice known_transcode_statuses (clean_transcode_label ascii)
      (lit "transcode") (some bump_unknown_status) slices counters (lit "success")

exploded_once : unknown_in_pie ascii exploded movies_pie ≡ 1
unfolding clean_transcode_label elem list_eq is_space
exploded_once = refl

count_of-normalize_pie_statuses_example :
    count_of exploded
      (normalize_pie_statuses ascii (some bump_unknown_status) movies_pie counters).1
    ≡ count_of exploded counters + unknown_in_pie ascii exploded movies_pie
count_of-normalize_pie_statuses_example =
    count_of-normalize_pie_statuses ascii movies_pie counters exploded
