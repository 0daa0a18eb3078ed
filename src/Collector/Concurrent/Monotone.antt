-- ===== src/Collector/Concurrent/Monotone.antt =====
-- The counters of unknown statuses of internal/collector/tdarr.go as Prometheus sees them: over time.
use tdarr_exporter.Prelude.{ℕ, ◌≤◌, arith}
use tdarr_exporter.Models.{TdarrPieDataRequest}
use tdarr_exporter.Collector.Unknown.{UnknownStatusKey, count_of}
use tdarr_exporter.Collector.Unknown.Laws.{count_of-bump}
use tdarr_exporter.Collector.Cache.{SortSlice}
use tdarr_exporter.Collector.Pies.{Verdict}
use tdarr_exporter.Collector.Pies.Fan
use tdarr_exporter.Collector.Pies.Fan.{Fan}
use tdarr_exporter.Collector.Scrape.{CollectorConfig}
use tdarr_exporter.Collector.Concurrent.{
  Shared, verdict_of, Step, enter, use_cache, fetch, work, miss, complete, store, lock_counts,
  unlock_counts, Reach, here, next,
}

module _ {Num : Type 0} (key : UnknownStatusKey) where
  sweep_step-le :
      (verdict : TdarrPieDataRequest → Verdict Num) {s t : Fan Num}
      → Fan.Step verdict s t
      → count_of key s.counts ≤ count_of key t.counts
  sweep_step-le verdict (Fan.take before behind p rest e f) = omega arith
  sweep_step-le verdict (Fan.drop_library before behind p e v) = omega arith
  sweep_step-le verdict (Fan.answer before behind p bumps pie e v) = omega arith
  sweep_step-le verdict {s} (Fan.bump before behind b bumps pie e) =
      omega (arith, count_of-bump key b.0 b.1 s.counts)
  sweep_step-le verdict (Fan.send before behind pie e) = omega arith
  sweep_step-le verdict (Fan.leave before behind e f) = omega arith
  sweep_step-le verdict (Fan.gather pie rest e) = omega arith

  module _ (lower_table : ℕ → ℕ) (sort_slice : SortSlice) (config : CollectorConfig) where
    step-le :
        {s t : Shared Num}
        → Step lower_table sort_slice config s t
        → count_of key s.unknown_status_counts ≤ count_of key t.unknown_status_counts
    step-le (enter api metric all_libs calm) = omega arith
    step-le (use_cache before behind api metric all_libs e keep) = omega arith
    step-le (fetch before behind api metric all_libs e refetch) = omega arith
    step-le (work before behind api metric all_libs fan fan' e st may) =
        sweep_step-le (verdict_of lower_table sort_slice config api) st
    step-le (miss before behind api metric all_libs fan e done flagged) = omega arith
    step-le (complete before behind api metric all_libs fan e done unflagged) = omega arith
    step-le (store before behind api metric all_libs pie_data e) = omega arith
    step-le (lock_counts before behind api all_libs pie_data partial e free) = omega arith
    step-le (unlock_counts before behind api all_libs pie_data partial e) = omega arith

    -- However scrapes interleave over one collector, the counter of an unknown status never falls.
    pub Reach-le :
        {s t : Shared Num}
        → Reach lower_table sort_slice config s t
        → count_of key s.unknown_status_counts ≤ count_of key t.unknown_status_counts
    Reach-le here = omega arith
    Reach-le (next r st) = omega (arith, Reach-le r, step-le st)
