-- ===== src/Collector/Scrape/Up.antt =====
-- What a scrape of internal/collector/tdarr.go sends: `collect` behind each of its early returns, and the
-- sample of `tdarr_up` that `Collect` adds.
use tdarr_exporter.Prelude.{
  ℕ, ◌<◌, ◌≡◌, refl, ap, ◌∙◌, Bool, true, false, not, List, [], ◌∷◌, ◌++◌, Option, none, some, All,
  Bool-cases, inl, inr,
}
use tdarr_exporter.GoText.{Text, lit}
use tdarr_exporter.Models.{TdarrLibraryInfo, TdarrMetric, TdarrPieStats}
use tdarr_exporter.Metrics.{Float64, Metric, must_new_const_metric, new_gauge}
use tdarr_exporter.Collector.Descs.{new_collector_metrics, describe}
use tdarr_exporter.Collector.Api.{TdarrApi, upstream, http_req_helper, get_general_req_payload}
use tdarr_exporter.Collector.Cache.{SortSlice, read, library_fingerprint, should_refetch}
use tdarr_exporter.Collector.Cache.Fingerprint.{Sorts}
use tdarr_exporter.Collector.Pies.{Sweep}
use tdarr_exporter.Collector.Shape.{IsSample, IsDescribed, is_up}
use tdarr_exporter.Collector.Shape.General.{
  emit_server_metrics-IsSample, emit_general_metrics-IsSample, emit_unknown_statuses-IsSample,
}
use tdarr_exporter.Collector.Shape.Libraries.{emit_pie_metrics-IsSample}
use tdarr_exporter.Collector.Shape.Nodes.{emit_node_metrics-IsSample}
use tdarr_exporter.Config.{Config}
use tdarr_exporter.Collector.Setup.{new_tdarr_collector_with_api}
use tdarr_exporter.Collector.Scrape.{
  CollectorConfig, Scrape, Flow, go, stop, unwind, crash, after_sweep, gather_pies,
  send_unknown_statuses, emit_nodes, emit_all, collect, up_sample, finish, collect_all,
  parsed_score,
}
use tdarr_exporter.Collector.Scrape.Libraries.{IsFaithful, gather_pies-Gathered}
use mathlib.Core.List.{append_assoc}
use mathlib.Core.Path.{subst}
use mathlib.Core.Option.{some-injective}
use tdarr_exporter.Collector.Scrape.Steps.{
  IsSafe, Gathered-IsSound, HasSent, IsSound, bind-IsSafe, call-IsSafe, return-IsSafe, send-IsSafe,
  then-IsSafe,
}

-- `collect` came to its end with no library missing.
abbrev pub is_complete : Flow Bool → Bool
is_complete (go partial) = not partial
is_complete (stop _) = false
is_complete unwind = false
is_complete crash = false

-- Behind a scrape, the channel has metrics of `collect` more, and then the sample of `tdarr_up`.
pub record HasReported (instance_name : Text) {Num : Type 0} (s s' : Scrape Num) (up : Metric Num)
    : Type 0 where
  pub before : List (Metric Num)
  pub sent : s'.ch ≡ s.ch ++ (before ++ up ∷ [])
  pub shaped : All (IsSample instance_name) before
  pub up_described : IsDescribed instance_name up
  pub up_last : is_up up.desc ≡ true
  pub faithful : IsFaithful s'.stats_cache

module _ {Num Url : Type 0} (fl : Float64 Num) (lower_table : ℕ → ℕ) (sort_slice : SortSlice)
    (run_config : Config Url) (api : TdarrApi Num) where
  abbrev config : CollectorConfig
  config = new_tdarr_collector_with_api run_config

  after_sweep-ch :
      (metric : TdarrMetric Num) (all_libs : List TdarrLibraryInfo) (s : Scrape Num)
      (o : Option (Sweep Num))
      → (after_sweep fl lower_table sort_slice config api metric all_libs s o).1.ch ≡ s.ch
  after_sweep-ch metric all_libs s none = refl
  after_sweep-ch metric all_libs s (some w) = elim (Bool-cases w.partial) [
    | inl e ↦ rw e refl
    | inr e ↦ rw e refl
  ]

  gather_pies-ch :
      (metric : TdarrMetric Num) (all_libs : List TdarrLibraryInfo) (s : Scrape Num)
      → (gather_pies fl lower_table sort_slice config api metric all_libs s).1.ch ≡ s.ch
  unfolding gather_pies
  gather_pies-ch metric all_libs s =
      elim (Bool-cases
        (should_refetch (read s.stats_cache) metric (library_fingerprint sort_slice all_libs))) [
          | inl e ↦ rw (e, gather_pies) (after_sweep-ch metric all_libs s _)
          | inr e ↦ rw (e, gather_pies) refl
        ]

  send_unknown_statuses-IsSafe :
      IsSafe run_config.instance_name (send_unknown_statuses fl lower_table sort_slice config api)
  unfolding send_unknown_statuses new_tdarr_collector_with_api
  send_unknown_statuses-IsSafe = record {
    sound = λ s f.
        (send-IsSafe run_config.instance_name _ (
            emit_unknown_statuses-IsSample fl lower_table run_config.instance_name
              s.unknown_status_counts)).sound
          s f;
  }

  pub emit_nodes-IsSafe :
      (partial_fail : Bool)
      → IsSafe run_config.instance_name
          (emit_nodes fl lower_table sort_slice config api partial_fail)
  unfolding emit_nodes new_tdarr_collector_with_api
  emit_nodes-IsSafe partial_fail =
      let inst = run_config.instance_name in
      then-IsSafe inst send_unknown_statuses-IsSafe (
        bind-IsSafe inst (call-IsSafe inst (upstream (api.do_nodes config.node_path))) (λ node_data.
          then-IsSafe inst (send-IsSafe inst _ (emit_node_metrics-IsSample fl inst node_data))
            (return-IsSafe inst partial_fail)))

  pub emit_all-IsSafe :
      (metric : TdarrMetric Num) (score health_score : Num) (pie_data : List (TdarrPieStats Num))
      (partial_fail : Bool)
      → IsSafe run_config.instance_name (
          emit_all fl lower_table sort_slice config api metric score health_score pie_data
            partial_fail)
  unfolding emit_all new_tdarr_collector_with_api
  emit_all-IsSafe metric score health_score pie_data partial_fail =
      let inst = run_config.instance_name in
      then-IsSafe inst
        (send-IsSafe inst _
          (emit_general_metrics-IsSample fl lower_table inst metric score health_score))
        (then-IsSafe inst
          (send-IsSafe inst _ (emit_pie_metrics-IsSample fl lower_table inst pie_data))
          (emit_nodes-IsSafe partial_fail))

  module _ (sorted : Sorts sort_slice) (positive : 0 < run_config.http_max_concurrency) where
    gather_pies-IsSafe :
        (metric : TdarrMetric Num) (all_libs : List TdarrLibraryInfo)
        → IsSafe run_config.instance_name
            (gather_pies fl lower_table sort_slice config api metric all_libs)
    unfolding new_tdarr_collector_with_api
    gather_pies-IsSafe metric all_libs = record {
      sound = λ s f.
          Gathered-IsSound run_config.instance_name all_libs s
            (gather_pies fl lower_table sort_slice config api metric all_libs s)
            (gather_pies-Gathered fl lower_table sort_slice config api sorted metric all_libs s
              positive f)
            (gather_pies-ch metric all_libs s) f;
    }

    collect-IsSafe : IsSafe run_config.instance_name (collect fl lower_table sort_slice config api)
    unfolding collect new_tdarr_collector_with_api
    collect-IsSafe =
        let inst = run_config.instance_name in
        bind-IsSafe inst (call-IsSafe inst (upstream (api.do_status config.status_path))) (λ status.
          then-IsSafe inst
            (send-IsSafe inst _ (emit_server_metrics-IsSample fl lower_table inst status))
            (bind-IsSafe inst
              (call-IsSafe inst (
                http_req_helper (api.marshal_metric (get_general_req_payload (lit "")))
                  (api.do_post_metric config.stats_path)))
              (λ metric.
                bind-IsSafe inst
                  (call-IsSafe inst (parsed_score (fl.parse_float metric.tdarr_score)))
                  (λ score.
                    bind-IsSafe inst
                      (call-IsSafe inst (parsed_score (fl.parse_float metric.health_check_score)))
                      (λ health_score.
                        bind-IsSafe inst
                          (call-IsSafe inst (
                            http_req_helper
                              (api.marshal_metric (get_general_req_payload (lit "library")))
                              (api.do_post_libs config.stats_path)))
                          (λ all_libs.
                            bind-IsSafe inst (gather_pies-IsSafe metric all_libs) (λ pies.
                              emit_all-IsSafe metric score health_score pies.0 pies.1)))))))

    abbrev up_of : Bool → Metric Num
    up_of b = up_sample fl lower_table sort_slice config api b

    up_sample-IsDescribed : (b : Bool) → IsDescribed run_config.instance_name (up_of b)
    unfolding new_tdarr_collector_with_api new_collector_metrics new_gauge describe
        must_new_const_metric
    up_sample-IsDescribed b = record { index = 23; listed = refl; arity = refl }

    up_sample-is_up : (b : Bool) → is_up (up_of b).desc ≡ true
    unfolding new_tdarr_collector_with_api new_collector_metrics new_gauge must_new_const_metric
    up_sample-is_up b = refl

    add_up :
        (b : Bool) (s t s' : Scrape Num)
        → HasSent run_config.instance_name s t
        → IsFaithful t.stats_cache
        → some (record t { ch = t.ch ++ up_of b ∷ [] }) ≡ some s'
        → HasReported run_config.instance_name s s' (up_of b)
    add_up b s t s' h f e =
        subst (λ x. HasReported run_config.instance_name s x (up_of b)) (some-injective _ s' e)
          (record {
            before = h.samples;
            sent = ap (λ l. l ++ up_of b ∷ []) h.sent ∙ append_assoc s.ch h.samples (up_of b ∷ []);
            shaped = h.shaped;
            up_described = up_sample-IsDescribed b;
            up_last = up_sample-is_up b;
            faithful = f;
          })

    finish-HasReported :
        (s s' : Scrape Num) (r : Flow Bool × Scrape Num)
        → IsSound run_config.instance_name s r
        → finish fl lower_table sort_slice config api r ≡ some s'
        → HasReported run_config.instance_name s s' (up_of (is_complete r.0))
    finish-HasReported s s' (go true, t) (h, f) e = add_up false s t s' h f e
    finish-HasReported s s' (go false, t) (h, f) e = add_up true s t s' h f e
    finish-HasReported s s' (stop _, t) (h, f) e = add_up false s t s' h f e
    finish-HasReported s s' (unwind, t) (h, f) e = add_up false s t s' h f e
    finish-HasReported s s' (crash, t) h e = cc

    -- With a positive concurrency, a sorting `sort.Slice` and a faithful cache, a scrape that does not
    -- crash sends, behind what the channel held, metrics that `Describe` lists, each with a value for
    -- each of its labels and none of them `tdarr_up`, and then one sample of `tdarr_up`, also described:
    -- 1 if `collect` came to its end with no library missing, 0 if it reported a missing library,
    -- returned an error or panicked. The cache it leaves is faithful.
    pub collect_all-HasReported :
        (s s' : Scrape Num)
        → IsFaithful s.stats_cache
        → collect_all fl lower_table sort_slice config api s ≡ some s'
        → HasReported run_config.instance_name s s' (
            up_sample fl lower_table sort_slice config api
              (is_complete (collect fl lower_table sort_slice config api s).0))
    unfolding collect_all
    collect_all-HasReported s s' f e =
        finish-HasReported s s' (collect fl lower_table sort_slice config api s)
          (collect-IsSafe.sound s f) e
