-- ===== src/Collector/Scrape.antt =====
-- A scrape: `collect` and `Collect` of internal/collector/tdarr.go, over the answers that the API gives
-- during the scrape. The state is what outlives the scrape, the cache and the counters, and the
-- channel of metrics that the scrape sends to. A step ends in a value, in an error that `collect`
-- returns, in a panic that `Collect` recovers from, or in a crash of the process: a panic in a worker
-- goroutine of `fetchPies`, which no recover covers.
pub mod Steps
pub mod Up
pub mod Libraries
pub mod Coverage
pub mod Survival
use tdarr_exporter.Prelude.{
  ℕ, Bool, true, false, List, [], ◌∷◌, ◌++◌, Option, none, some, if◌then◌else◌, ltb,
}
use tdarr_exporter.Prelude.Int.{pos}
use tdarr_exporter.GoText.{Text, lit}
use tdarr_exporter.Models.{TdarrLibraryInfo, TdarrMetric, TdarrPieStats}
use tdarr_exporter.Metrics.{Float64, Metric, must_new_const_metric}
use tdarr_exporter.Nodes.Descs.{TdarrNodeMetrics}
use tdarr_exporter.Nodes.Emit.{emit_node_metrics}
use tdarr_exporter.Collector.Descs.{CollectorMetrics}
use tdarr_exporter.Collector.Emit.{
  emit_server_metrics, emit_general_metrics, emit_pie_metrics, emit_unknown_statuses,
}
use tdarr_exporter.Collector.Api.{
  CollectError, err_parse, Result, ok, error, panic, TdarrApi, upstream, http_req_helper,
  get_general_req_payload,
}
use tdarr_exporter.Collector.Unknown.{UnknownStatusCounts}
use tdarr_exporter.Collector.Cache.{
  TdarrLibStatsCache, SortSlice, read, write, totals_from_metric, library_fingerprint,
  should_refetch,
}
use tdarr_exporter.Collector.Pies.{Sweep, get_lib_stats, fetch_pies}

-- The fields of `TdarrCollector` that a scrape only reads.
pub record CollectorConfig : Type 0 where
  pub stats_path : Text
  pub pie_stats_path : Text
  pub status_path : Text
  pub node_path : Text
  pub max_concurrency : ℕ
  pub metrics : CollectorMetrics
  pub node_metrics : TdarrNodeMetrics

pub record Scrape (Num : Type 0) : Type 0 where
  pub stats_cache : TdarrLibStatsCache Num
  pub unknown_status_counts : UnknownStatusCounts
  pub ch : List (Metric Num)

pub data Flow {ℓ} (A : Type ℓ) : Type ℓ where
  go : A → Flow A
  stop : CollectError → Flow A
  unwind : Flow A
  crash : Flow A

abbrev pub M : Type 0 → Type 0 → Type 0
M Num A = Scrape Num → Flow A × Scrape Num

-- A step is bound to the rest by its result.
abbrev pub continue : {Num A B : Type 0} → Flow A × Scrape Num → (A → M Num B) → Flow B × Scrape Num
continue (go a, s) f = f a s
continue (stop e, s) f = (stop e, s)
continue (unwind, s) f = (unwind, s)
continue (crash, s) f = (crash, s)

infixl 5 ◌>>=◌ ◌>>◌
abbrev pub ◌>>=◌ : {Num A B : Type 0} → M Num A → (A → M Num B) → M Num B
◌>>=◌ m f s = continue (m s) f

abbrev pub ◌>>◌ : {Num B : Type 0} → M Num (Unit {0}) → M Num B → M Num B
◌>>◌ m k s = continue (m s) (λ _. k)

abbrev pub flow : {A : Type 0} → Result A → Flow A
flow (ok a) = go a
flow (error e) = stop e
flow panic = unwind

-- A fallible call that leaves the state.
unfoldable pub call : {Num A : Type 0} → Result A → M Num A
call r s = (flow r, s)

unfoldable pub send : {Num : Type 0} → List (Metric Num) → M Num (Unit {0})
send ms s = (go tt, record s { ch = s.ch ++ ms })

unfoldable pub return : {Num A : Type 0} → A → M Num A
return a s = (go a, s)

-- A score that is no number is a parse error.
abbrev pub parsed_score : {Num : Type 0} → Option Num → Result Num
parsed_score none = error (err_parse (lit "parse score"))
parsed_score (some v) = ok v

module _ {Num : Type 0} (fl : Float64 Num) (lower_table : ℕ → ℕ) (sort_slice : SortSlice)
    (config : CollectorConfig) (api : TdarrApi Num) where
  -- `fetchPies`: with no worker nothing is fetched and nothing is dropped.
  unfoldable pub sweep : List TdarrLibraryInfo → UnknownStatusCounts → Option (Sweep Num)
  unfolding get_lib_stats fetch_pies
  sweep all_libs counts =
      if ltb 0 config.max_concurrency
      then fetch_pies (get_lib_stats lower_table api config.pie_stats_path) all_libs counts
      else some (record { pie_data = []; partial = false; counts = counts })

  -- The end of a sweep: the counters are those of the workers, and only a complete sweep is cached.
  abbrev pub after_sweep :
      TdarrMetric Num
      → List TdarrLibraryInfo
      → Scrape Num
      → Option (Sweep Num)
      → Flow (List (TdarrPieStats Num) × Bool) × Scrape Num
  after_sweep metric all_libs s none = (crash, s)
  after_sweep metric all_libs s (some w) =
      if w.partial
      then (go (w.pie_data, true), record s { unknown_status_counts = w.counts })
      else (
        go (w.pie_data, false),
        record s {
          unknown_status_counts = w.counts;
          stats_cache = write s.stats_cache (record {
            totals = totals_from_metric metric;
            stats = w.pie_data;
            fingerprint = library_fingerprint sort_slice all_libs;
          });
        },
      )

  -- The pies of the scrape and whether a library is missing: from the cache, or by a sweep.
  unfoldable pub gather_pies :
      TdarrMetric Num → List TdarrLibraryInfo → M Num (List (TdarrPieStats Num) × Bool)
  unfolding read write library_fingerprint should_refetch sweep
  gather_pies metric all_libs s =
      if should_refetch (read s.stats_cache) metric (library_fingerprint sort_slice all_libs)
      then after_sweep metric all_libs s (sweep all_libs s.unknown_status_counts)
      else (go ((read s.stats_cache).stats, false), s)

  unfoldable pub send_unknown_statuses : M Num (Unit {0})
  unfolding send
  send_unknown_statuses s =
      send (emit_unknown_statuses fl lower_table config.metrics s.unknown_status_counts) s

  -- The end of `collect`: the unknown statuses and the nodes.
  unfoldable pub emit_nodes : Bool → M Num Bool
  unfolding send send_unknown_statuses call return
  emit_nodes partial_fail = do
    send_unknown_statuses
    node_data ← call (upstream (api.do_nodes config.node_path))
    send (emit_node_metrics fl config.node_metrics node_data)
    return partial_fail

  -- The part of `collect` behind the sweep.
  unfoldable pub emit_all :
      TdarrMetric Num → Num → Num → List (TdarrPieStats Num) → Bool → M Num Bool
  unfolding send emit_nodes
  emit_all metric score health_score pie_data partial_fail = do
    send (emit_general_metrics fl lower_table config.metrics metric score health_score)
    send (emit_pie_metrics fl lower_table config.metrics pie_data)
    emit_nodes partial_fail

  unfoldable pub collect : M Num Bool
  unfolding call send gather_pies emit_all http_req_helper
  collect = do
    server_status ← call (upstream (api.do_status config.status_path))
    send (emit_server_metrics fl lower_table config.metrics server_status)
    metric ← call (
        http_req_helper (api.marshal_metric (get_general_req_payload (lit "")))
          (api.do_post_metric config.stats_path))
    score ← call (parsed_score (fl.parse_float metric.tdarr_score))
    health_score ← call (parsed_score (fl.parse_float metric.health_check_score))
    all_libs ← call (
        http_req_helper (api.marshal_metric (get_general_req_payload (lit "library")))
          (api.do_post_libs config.stats_path))
    pies ← gather_pies metric all_libs
    emit_all metric score health_score pies.0 pies.1

  abbrev pub up_sample : Bool → Metric Num
  up_sample up =
      must_new_const_metric config.metrics.up_metric (fl.of_int (if up then pos 1 else pos 0)) []

  -- `Collect` behind `collect`: the sample of `tdarr_up`, or the recover; `none` where the process
  -- crashes.
  abbrev pub finish : Flow Bool × Scrape Num → Option (Scrape Num)
  finish (go partial, s) =
      some (record s { ch = s.ch ++ up_sample (if partial then false else true) ∷ [] })
  finish (stop e, s) = some (record s { ch = s.ch ++ up_sample false ∷ [] })
  finish (unwind, s) = some (record s { ch = s.ch ++ up_sample false ∷ [] })
  finish (crash, s) = none

  unfoldable pub collect_all : Scrape Num → Option (Scrape Num)
  unfolding collect must_new_const_metric
  collect_all s = finish (collect s)
