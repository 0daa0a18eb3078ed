-- ===== src/Collector/Concurrent/Alone/Outcomes.antt =====
-- What the sequential gathering of the pies of internal/collector/tdarr.go gives, and what a sweep by its workers does.
use tdarr_exporter.Prelude.{ℕ, ◌<◌, ◌≡◌, refl, sym, ◌∙◌, Bool, true, false, List, some, arith, ltb}
use tdarr_exporter.Models.{TdarrLibraryInfo, TdarrMetric, TdarrPieStats}
use tdarr_exporter.Metrics.{Float64}
use tdarr_exporter.Collector.Api.{TdarrApi}
use tdarr_exporter.Collector.Unknown.{UnknownStatusCounts, UnknownStatusKey, count_of}
use tdarr_exporter.Collector.Cache.{
  TdarrLibStatsCache, SortSlice, read, write, totals_from_metric, library_fingerprint,
  should_refetch,
}
use tdarr_exporter.Collector.Pies.{Sweep, fetch_pies}
use tdarr_exporter.Collector.Pies.Fan
use tdarr_exporter.Collector.Pies.Fan.{Fan, IsFinished}
use tdarr_exporter.Collector.Pies.Schedules.{schedule-fetch_pies}
use tdarr_exporter.Collector.Scrape.{
  CollectorConfig, Scrape, Flow, go, sweep, after_sweep, gather_pies,
}
use tdarr_exporter.Collector.Scrape.Survival.{sweep_total}
use tdarr_exporter.Collector.Concurrent.{verdict_of, IsCalm}
use mathlib.Core.List.{Perm}
use mathlib.Core.List.Perm

-- A cache, counters, pies and a flag that are what the sequential gathering `r` gives, the pies in some order.
pub record Agrees {Num : Type 0} (r : Flow (List (TdarrPieStats Num) × Bool) × Scrape Num)
    (cache : TdarrLibStatsCache Num) (counts : UnknownStatusCounts)
    (pies : List (TdarrPieStats Num)) (partial : Bool) : Type 0 where
  pub expected : List (TdarrPieStats Num)
  pub gives : r.0 ≡ go (expected, partial)
  pub same_pies : Perm pies expected
  pub same_counts :
      (key : UnknownStatusKey) → count_of key counts ≡ count_of key r.1.unknown_status_counts
  pub same_totals : cache.snap.totals ≡ r.1.stats_cache.snap.totals
  pub same_fingerprint : cache.snap.fingerprint ≡ r.1.stats_cache.snap.fingerprint
  pub same_stats : Perm cache.snap.stats r.1.stats_cache.snap.stats

module _ {Num : Type 0} (fl : Float64 Num) (lower_table : ℕ → ℕ) (sort_slice : SortSlice)
    (config : CollectorConfig) (positive : 0 < config.max_concurrency) (api : TdarrApi Num)
    (calm : IsCalm lower_table sort_slice config api) (metric : TdarrMetric Num)
    (all_libs : List TdarrLibraryInfo) (s : Scrape Num) where
  abbrev pub first_fan : Fan Num
  first_fan = Fan.start config.max_concurrency all_libs s.unknown_status_counts

  abbrev pub gathering : Flow (List (TdarrPieStats Num) × Bool) × Scrape Num
  gathering = gather_pies fl lower_table sort_slice config api metric all_libs s

  abbrev pub Refetches : Bool → Type 0
  Refetches b =
      should_refetch (read s.stats_cache) metric (library_fingerprint sort_slice all_libs) ≡ b

  abbrev pub Sweeps : Fan Num → Type 0
  Sweeps fan = Fan.Reach (verdict_of lower_table sort_slice config api) first_fan fan

  pub cached-Agrees :
      Refetches false
      → Agrees gathering s.stats_cache s.unknown_status_counts (read s.stats_cache).stats false
  unfolding gather_pies
  cached-Agrees keep = rw keep (record {
    expected = (read s.stats_cache).stats;
    gives = refl;
    same_pies = Perm.refl _;
    same_counts = λ key. refl;
    same_totals = refl;
    same_fingerprint = refl;
    same_stats = Perm.refl _;
  })

  -- The cache behind a sweep: written if no library is missing.
  abbrev pub cache_behind : Bool → List (TdarrPieStats Num) → TdarrLibStatsCache Num
  cache_behind true pies = s.stats_cache
  cache_behind false pies = write s.stats_cache (record {
    totals = totals_from_metric metric;
    stats = pies;
    fingerprint = library_fingerprint sort_slice all_libs;
  })

  after_sweep-Agrees :
      (fan : Fan Num) (w : Sweep Num) (missing : Bool)
      → w.partial ≡ missing
      → Perm fan.pie_data w.pie_data
      → ((key : UnknownStatusKey) → count_of key fan.counts ≡ count_of key w.counts)
      → Agrees
          (after_sweep fl lower_table sort_slice config api metric all_libs s (some w))
          (cache_behind missing fan.pie_data)
          fan.counts
          fan.pie_data
          missing
  unfolding write
  after_sweep-Agrees fan w true flag pies counts = rw flag (record {
    expected = w.pie_data;
    gives = refl;
    same_pies = pies;
    same_counts = counts;
    same_totals = refl;
    same_fingerprint = refl;
    same_stats = Perm.refl _;
  })
  after_sweep-Agrees fan w false flag pies counts = rw flag (record {
    expected = w.pie_data;
    gives = refl;
    same_pies = pies;
    same_counts = counts;
    same_totals = refl;
    same_fingerprint = refl;
    same_stats = pies;
  })

  pub swept-Agrees :
      (fan : Fan Num) (missing : Bool)
      → Refetches true
      → Sweeps fan
      → IsFinished fan
      → fan.partial ≡ missing
      → Agrees gathering (cache_behind missing fan.pie_data) fan.counts fan.pie_data missing
  unfolding gather_pies sweep write
  swept-Agrees fan missing refetch r done flagged =
      let (w, e) =
        sweep_total fl lower_table sort_slice config api calm all_libs s.unknown_status_counts in
      let is_positive : ltb 0 config.max_concurrency ≡ true = ground arith in
      let fetched : fetch_pies (verdict_of lower_table sort_slice config api) all_libs
            s.unknown_status_counts
          ≡ some w =
        rw (is_positive, sweep) at e in
      let (pies, flag, counts) =
        schedule-fetch_pies (verdict_of lower_table sort_slice config api) config.max_concurrency
          all_libs s.unknown_status_counts w fan positive fetched r done in
      rw (refetch, e) (after_sweep-Agrees fan w missing (sym flag ∙ flagged) pies counts)
