-- ===== src/Collector/Scrape/Survival.antt =====
-- No panic in a worker, no crash: a scrape of internal/collector/tdarr.go over an API whose requests for library pies do
-- not panic.
mod Steps
use tdarr_exporter.Prelude.{
  ℕ, ◌≡◌, ◌≢◌, refl, inl, inr, Bool, false, List, [], ◌∷◌, map, Option, none, some, Bool-cases, ltb,
  ◌||◌,
}
use tdarr_exporter.GoText.{Text, lit, is_empty}
use tdarr_exporter.Models.{
  TdarrPieDataRequest, TdarrLibraryInfo, TdarrMetric, TdarrPieStat, TdarrPieStats,
}
use tdarr_exporter.Metrics.{Float64, Metric}
use tdarr_exporter.Collector.Emit.{emit_server_metrics}
use tdarr_exporter.Collector.Api.{
  Reply, replied, failed, panicked, Result, ok, error, panic, TdarrApi, upstream, http_req_helper,
  get_general_req_payload,
}
use tdarr_exporter.Collector.Cache.{SortSlice, should_refetch, read, library_fingerprint}
use tdarr_exporter.Collector.Unknown.{UnknownStatusCounts}
use tdarr_exporter.Collector.Pies.{
  Verdict, dropped, produced, crashed, Sweep, get_lib_stats, keep_or_drop, after_request,
  fetch_pies, sweep_from, after_verdict, pie_data_request,
}
use tdarr_exporter.Collector.Scrape.{
  CollectorConfig, Scrape, Flow, go, stop, unwind, crash, M, continue, ◌>>=◌, ◌>>◌, call, send,
  return, sweep, after_sweep, gather_pies, send_unknown_statuses, emit_nodes, emit_all, collect,
  parsed_score, finish, collect_all,
}
use Steps.{
  IsAlive, Survives, bind-Survives, then-Survives, call-Survives, send-Survives, return-Survives,
}

upstream-ne-panic : {A : Type 0} (r : Reply A) → r ≢ panicked → upstream r ≢ panic
upstream-ne-panic (replied a) h = cc
upstream-ne-panic (failed e) h = cc
upstream-ne-panic panicked h = absurd (h refl)

-- A sweep whose verdicts are no crashes comes to its end.
module _ {Num : Type 0} (verdict : TdarrPieDataRequest → Verdict Num)
    (safe : (p : TdarrPieDataRequest) → verdict p ≢ crashed) where
  after_verdict_total :
      (v : Verdict Num) (s : Sweep Num)
      → v ≢ crashed
      → (s' : Sweep Num) × (after_verdict verdict v s ≡ some s')
  after_verdict_total dropped s h = (_, refl)
  after_verdict_total (produced bumps pie) s h = (_, refl)
  after_verdict_total crashed s h = absurd (h refl)

  sweep_from_total :
      (ps : List TdarrPieDataRequest) (s : Sweep Num)
      → (t : Sweep Num) × (sweep_from verdict ps s ≡ some t)
  unfolding sweep_from
  sweep_from_total [] s = (s, refl)
  sweep_from_total (p ∷ ps) s =
      let (s', e) = after_verdict_total (verdict p) s (safe p) in
      let (t, h) = sweep_from_total ps s' in (t, rw (e, sweep_from) h)

module _ {Num : Type 0} (fl : Float64 Num) (lower_table : ℕ → ℕ) (sort_slice : SortSlice)
    (config : CollectorConfig) (api : TdarrApi Num)
    (calm : (payload : Text) → api.do_post_pie config.pie_stats_path payload ≢ panicked) where
  request-ne-panic :
      (payload : Option Text)
      → http_req_helper payload (api.do_post_pie config.pie_stats_path) ≢ panic
  unfolding http_req_helper
  request-ne-panic none = cc
  request-ne-panic (some payload) = upstream-ne-panic _ (calm payload)

  keep_or_drop-ne-crashed :
      (pie : TdarrPieStats Num) → keep_or_drop lower_table api config.pie_stats_path pie ≢ crashed
  keep_or_drop-ne-crashed pie h =
      elim (Bool-cases (is_empty pie.library_id || is_empty pie.library_name)) [
        | inl e ↦ cc (rw e at h)
        | inr e ↦ cc (rw e at h)
      ]

  after_request-ne-crashed :
      (p : TdarrPieDataRequest) (r : Result (TdarrPieStat Num))
      → r ≢ panic
      → after_request lower_table api config.pie_stats_path p r ≢ crashed
  after_request-ne-crashed p (ok stats) h = keep_or_drop-ne-crashed _
  after_request-ne-crashed p (error e) h = cc
  after_request-ne-crashed p panic h = absurd (h refl)

  pub get_lib_stats-ne-crashed :
      (p : TdarrPieDataRequest) → get_lib_stats lower_table api config.pie_stats_path p ≢ crashed
  unfolding get_lib_stats
  get_lib_stats-ne-crashed p = after_request-ne-crashed p _ (request-ne-panic (api.marshal_pie p))

  after_sweep-IsAlive :
      (metric : TdarrMetric Num) (all_libs : List TdarrLibraryInfo) (s : Scrape Num) (w : Sweep Num)
      → IsAlive (after_sweep fl lower_table sort_slice config api metric all_libs s (some w)).0
  after_sweep-IsAlive metric all_libs s w = elim (Bool-cases w.partial) [
    | inl e ↦ rw e tt
    | inr e ↦ rw e tt
  ]

  pub sweep_total :
      (all_libs : List TdarrLibraryInfo) (counts : UnknownStatusCounts)
      → (w : Sweep Num) × (sweep fl lower_table sort_slice config api all_libs counts ≡ some w)
  unfolding sweep fetch_pies
  sweep_total all_libs counts = elim (Bool-cases (ltb 0 config.max_concurrency)) [
    | inr e ↦ (record { pie_data = []; partial = false; counts = counts }, rw e refl)
    | inl e ↦
        let (w, h) =
          sweep_from_total (get_lib_stats lower_table api config.pie_stats_path)
            get_lib_stats-ne-crashed (map pie_data_request all_libs)
            (record { pie_data = []; partial = false; counts = counts }) in
        (w, rw e h)
  ]

  gather_pies-Survives :
      (metric : TdarrMetric Num) (all_libs : List TdarrLibraryInfo)
      → Survives (gather_pies fl lower_table sort_slice config api metric all_libs)
  unfolding gather_pies
  gather_pies-Survives metric all_libs = record {
    survives = λ s.
        elim (Bool-cases
          (should_refetch (read s.stats_cache) metric (library_fingerprint sort_slice all_libs))) [
            | inl e ↦
                let (w, h) = sweep_total all_libs s.unknown_status_counts in
                rw (e, h) (after_sweep-IsAlive metric all_libs s w)
            | inr e ↦ rw e tt
          ];
  }

  send_unknown_statuses-Survives :
      Survives (send_unknown_statuses fl lower_table sort_slice config api)
  unfolding send_unknown_statuses send
  send_unknown_statuses-Survives = record { survives = λ s. tt }

  emit_all-Survives :
      (metric : TdarrMetric Num) (score health_score : Num) (pie_data : List (TdarrPieStats Num))
      (partial_fail : Bool)
      → Survives (
          emit_all fl lower_table sort_slice config api metric score health_score pie_data
            partial_fail)
  unfolding emit_all emit_nodes
  emit_all-Survives metric score health_score pie_data partial_fail =
      then-Survives _ _ (send-Survives _) (
        then-Survives _ _ (send-Survives _) (
          then-Survives _ _ send_unknown_statuses-Survives (
            bind-Survives _ _ (call-Survives _)
              (λ node_data. then-Survives _ _ (send-Survives _) (return-Survives partial_fail)))))

  collect-Survives : Survives (collect fl lower_table sort_slice config api)
  unfolding collect
  collect-Survives =
      bind-Survives _ _ (call-Survives (upstream (api.do_status config.status_path))) (λ status.
        then-Survives _ _ (send-Survives (emit_server_metrics fl lower_table config.metrics status))
          (bind-Survives _ _
            (call-Survives (
              http_req_helper (api.marshal_metric (get_general_req_payload (lit "")))
                (api.do_post_metric config.stats_path)))
            (λ metric.
              bind-Survives _ _ (call-Survives (parsed_score (fl.parse_float metric.tdarr_score)))
                (λ score.
                  bind-Survives _ _
                    (call-Survives (parsed_score (fl.parse_float metric.health_check_score)))
                    (λ health_score.
                      bind-Survives _ _
                        (call-Survives (
                          http_req_helper
                            (api.marshal_metric (get_general_req_payload (lit "library")))
                            (api.do_post_libs config.stats_path)))
                        (λ all_libs.
                          bind-Survives _ _ (gather_pies-Survives metric all_libs) (λ pies.
                            emit_all-Survives metric score health_score pies.0 pies.1)))))))

  finish_total :
      (r : Flow Bool × Scrape Num)
      → IsAlive r.0
      → (s' : Scrape Num) × (finish fl lower_table sort_slice config api r ≡ some s')
  finish_total (go partial, s) h = (_, refl)
  finish_total (stop e, s) h = (_, refl)
  finish_total (unwind, s) h = (_, refl)
  finish_total (crash, s) h = absurd h

  -- Where no request for a library's pie panics, a scrape does not end the process, from any state of the collector:
  -- `Collect` returns.
  pub collect_all_total :
      (s : Scrape Num)
      → (s' : Scrape Num) × (collect_all fl lower_table sort_slice config api s ≡ some s')
  unfolding collect_all
  collect_all_total s = finish_total _ (collect-Survives.survives s)
