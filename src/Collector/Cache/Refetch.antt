-- ===== src/Collector/Cache/Refetch.antt =====
-- When the cached stats are used: `shouldRefetch` of internal/collector/tdarr.go against the two signals that it compares.
use tdarr_exporter.Prelude.{◌≡◌, ◌≢◌, ◌↔◌, true, false, List, [], arith, list_eq_iff}
use tdarr_exporter.Prelude.Int.{int_eq_iff}
use tdarr_exporter.Models.{TdarrLibraryInfo, TdarrCacheTotals, TdarrMetric, TdarrPieStats}
use tdarr_exporter.Collector.Cache.{
  TdarrLibraryInfo_eq, totals_eq, totals_from_metric, LibStatsSnapshot, SortSlice,
  library_fingerprint, should_refetch,
}
use tdarr_exporter.Collector.Cache.Fingerprint.{
  Sorts, HasOneNamePerId, perm_of_library_fingerprint-eq, library_fingerprint-eq_of_perm,
}
use mathlib.Core.List.{Perm}

totals_eq_sound : (a b : TdarrCacheTotals) → totals_eq a b ≡ true → a ≡ b
totals_eq_sound a b h = ground (
  arith,
  int_eq_iff a.total_file_count b.total_file_count,
  int_eq_iff a.total_transcode_count b.total_transcode_count,
  int_eq_iff a.total_health_check_count b.total_health_check_count,
  int_eq_iff a.hold_queue b.hold_queue,
  int_eq_iff a.transcode_queue b.transcode_queue,
  int_eq_iff a.transcode_success b.transcode_success,
  int_eq_iff a.transcode_failed b.transcode_failed,
  int_eq_iff a.health_check_queue b.health_check_queue,
  int_eq_iff a.health_check_success b.health_check_success,
  int_eq_iff a.health_check_failed b.health_check_failed,
)

totals_eq_refl : (a : TdarrCacheTotals) → totals_eq a a ≡ true
totals_eq_refl a = ground (
  arith,
  int_eq_iff a.total_file_count a.total_file_count,
  int_eq_iff a.total_transcode_count a.total_transcode_count,
  int_eq_iff a.total_health_check_count a.total_health_check_count,
  int_eq_iff a.hold_queue a.hold_queue,
  int_eq_iff a.transcode_queue a.transcode_queue,
  int_eq_iff a.transcode_success a.transcode_success,
  int_eq_iff a.transcode_failed a.transcode_failed,
  int_eq_iff a.health_check_queue a.health_check_queue,
  int_eq_iff a.health_check_success a.health_check_success,
  int_eq_iff a.health_check_failed a.health_check_failed,
)

totals_eq_iff : (a b : TdarrCacheTotals) → (totals_eq a b ≡ true) ↔ (a ≡ b)
totals_eq_iff a b = (totals_eq_sound a b, λ e. rw e (totals_eq_refl b))

-- What the test says of the two snapshots, over any fingerprints.
pub should_refetch-false_iff :
    {Num : Type 0} (cached : LibStatsSnapshot Num) (metric : TdarrMetric Num)
    (fp : List TdarrLibraryInfo)
    → (should_refetch cached metric fp ≡ false) ↔ (
        (cached.stats ≢ [])
        × (cached.totals ≡ totals_from_metric metric)
        × (cached.fingerprint ≡ fp))
unfolding should_refetch
should_refetch-false_iff cached metric fp = ground (
  arith,
  totals_eq_iff cached.totals (totals_from_metric metric),
  list_eq_iff cached.fingerprint fp,
)

module _ {Num : Type 0} (sort_slice : SortSlice) (s : Sorts sort_slice) where
  -- The snapshot that a complete sweep writes for the metric `old` and the library list `libs` is used
  -- for the metric `new` and the library list `libs'` exactly when it holds the stats of some library,
  -- the ten totals of `new` are those of `old`, and `libs'` lists the libraries of `libs`, ids and names,
  -- in any order; provided that no id stands in `libs` under two names.
  pub should_refetch-eq-false_iff :
      (old new : TdarrMetric Num) (stats : List (TdarrPieStats Num))
      (libs libs' : List TdarrLibraryInfo)
      → HasOneNamePerId libs
      → (should_refetch
            (record {
              totals = totals_from_metric old;
              stats = stats;
              fingerprint = library_fingerprint sort_slice libs;
            })
            new
            (library_fingerprint sort_slice libs')
          ≡ false)
        ↔ ((stats ≢ []) × (totals_from_metric old ≡ totals_from_metric new) × Perm libs libs')
  should_refetch-eq-false_iff old new stats libs libs' one =
      let (to, from) = should_refetch-false_iff _ new (library_fingerprint sort_slice libs') in
      (
        λ e.
            let (full, same, fp) = to e in
            (full, same, perm_of_library_fingerprint-eq sort_slice s libs libs' fp),
        λ (full, same, p).
            from (full, same, library_fingerprint-eq_of_perm sort_slice s libs libs' one p),
      )
