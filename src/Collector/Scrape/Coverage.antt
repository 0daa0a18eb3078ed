-- ===== src/Collector/Scrape/Coverage.antt =====
-- From the library list to the metrics: what a complete scrape of internal/collector/tdarr.go shows of the
-- libraries.
use tdarr_exporter.Prelude.{
  ℕ, ◌<◌, ◌≡◌, refl, sym, ap, Bool, true, false, List, [], ◌∷◌, ◌++◌, map, some,
}
use tdarr_exporter.Prelude.Int.{pos}
use tdarr_exporter.GoText.{lit}
use tdarr_exporter.Config.{Config}
use tdarr_exporter.Models.{TdarrLibraryInfo, TdarrMetric, TdarrPieStats}
use tdarr_exporter.Metrics.{Float64, Metric, must_new_const_metric}
use tdarr_exporter.Collector.Descs.{CollectorMetrics}
use tdarr_exporter.Collector.Emit.{
  emit_server_metrics, emit_general_metrics, emit_pie, emit_pie_metrics,
}
use tdarr_exporter.Collector.Api.{
  Result, ok, error, panic, TdarrApi, upstream, http_req_helper, get_general_req_payload,
}
use tdarr_exporter.Collector.Cache.{SortSlice}
use tdarr_exporter.Collector.Cache.Fingerprint.{Sorts}
use tdarr_exporter.Collector.Setup.{new_tdarr_collector_with_api}
use tdarr_exporter.Collector.Scrape.{
  CollectorConfig, Scrape, Flow, go, stop, unwind, crash, M, continue, call, send, return,
  gather_pies, send_unknown_statuses, emit_nodes, emit_all, collect, finish, collect_all,
  parsed_score,
}
use tdarr_exporter.Collector.Scrape.Libraries.{
  library_of, Gathered, IsFaithful, gather_pies-Gathered,
}
use tdarr_exporter.Collector.Scrape.Steps.{IsSound}
use tdarr_exporter.Collector.Scrape.Up.{is_complete, emit_nodes-IsSafe}
use mathlib.Core.Path.{subst}
use mathlib.Core.Logic.Or
use mathlib.Core.Option.{some-injective}
use mathlib.Core.List.{
  Mem, Mem-prop, mem-cons, mem-cons_self, mem-append_left, mem-append_right, not-mem-nil,
}
use mathlib.Core.List.Perm

-- A step that is bound to the rest has come to its end, if the whole has.
module _ {Num B : Type 0} {b : B} {t : Scrape Num} where
  continue-go :
      {A : Type 0} (r : Flow A × Scrape Num) (k : A → M Num B)
      → continue r k ≡ (go b, t)
      → (a : A) × (s' : Scrape Num) × (r ≡ (go a, s')) × (k a s' ≡ (go b, t))
  continue-go (go a, s') k h = (a, s', refl, h)
  continue-go (stop e, s') k h = cc
  continue-go (unwind, s') k h = cc
  continue-go (crash, s') k h = cc

  call-go :
      {A : Type 0} (r : Result A) (s : Scrape Num) (k : A → M Num B)
      → continue (call r s) k ≡ (go b, t)
      → (a : A) × (r ≡ ok a) × (k a s ≡ (go b, t))
  unfolding call
  call-go (ok a) s k h = (a, refl, h)
  call-go (error e) s k h = cc
  call-go panic s k h = cc

-- The info series of a library.
abbrev pub library_info :
    {Num : Type 0} → Float64 Num → CollectorMetrics → TdarrLibraryInfo → Metric Num
library_info fl c lib =
    must_new_const_metric c.pie_library_info (fl.of_int (pos 1)) (lib.library_id ∷ lib.name ∷ [])

module _ {Num : Type 0} (fl : Float64 Num) (lower_table : ℕ → ℕ) (c : CollectorMetrics) where
  emit_pie-library_info :
      (pie : TdarrPieStats Num)
      → Mem (library_info fl c (library_of pie)) (emit_pie fl lower_table c pie)
  unfolding emit_pie
  emit_pie-library_info pie = mem-cons_self

  emit_pie_metrics-library_info :
      (pie_data : List (TdarrPieStats Num)) (lib : TdarrLibraryInfo)
      → Mem lib (map library_of pie_data)
      → Mem (library_info fl c lib) (emit_pie_metrics fl lower_table c pie_data)
  unfolding emit_pie_metrics
  emit_pie_metrics-library_info [] lib m = absurd (not-mem-nil m)
  emit_pie_metrics-library_info (pie ∷ pie_data) lib m =
      Or.elim Mem-prop (mem-cons.0 m)
        (λ e. mem-append_left (emit_pie_metrics fl lower_table c pie_data) (
          subst (λ l. Mem (library_info fl c l) (emit_pie fl lower_table c pie)) (sym e)
            (emit_pie-library_info pie)))
        (λ later.
          mem-append_right (emit_pie fl lower_table c pie)
            (emit_pie_metrics-library_info pie_data lib later))

module _ {Num Url : Type 0} (fl : Float64 Num) (lower_table : ℕ → ℕ) (sort_slice : SortSlice)
    (run_config : Config Url) (api : TdarrApi Num) where
  abbrev config : CollectorConfig
  config = new_tdarr_collector_with_api run_config

  -- The channel has the info series of every library of the list that Tdarr answered with.
  pub record ShowsLibraries (t : Scrape Num) : Type 0 where
    pub all_libs : List TdarrLibraryInfo
    pub answered :
        http_req_helper
          (api.marshal_metric (get_general_req_payload (lit "library")))
          (api.do_post_libs config.stats_path)
        ≡ ok all_libs
    pub shown :
        (lib : TdarrLibraryInfo) → Mem lib all_libs → Mem (library_info fl config.metrics lib) t.ch

  abbrev value_of : Bool → Flow Bool → Bool
  value_of b (go a) = a
  value_of b _ = b

  emit_nodes-go :
      (partial b : Bool) (s t : Scrape Num)
      → emit_nodes fl lower_table sort_slice config api partial s ≡ (go b, t)
      → partial ≡ b
  unfolding emit_nodes send_unknown_statuses send return
  emit_nodes-go partial b s t h =
      let (node_data, _, k) = call-go (upstream (api.do_nodes config.node_path)) _ _ h in
      ap (λ r. value_of partial r.0) k

  emit_all-library_info :
      (metric : TdarrMetric Num) (score health_score : Num) (pie_data : List (TdarrPieStats Num))
      (partial : Bool) (all_libs : List TdarrLibraryInfo) (s1 s2 t : Scrape Num)
      → Gathered all_libs s1 (go (pie_data, partial), s2)
      → emit_all fl lower_table sort_slice config api metric score health_score pie_data partial s2
        ≡ (go false, t)
      → (lib : TdarrLibraryInfo) → Mem lib all_libs
      → Mem (library_info fl config.metrics lib) t.ch
  unfolding emit_all send
  emit_all-library_info metric score health_score pie_data true all_libs s1 s2 t g h lib m =
      let flagged : true ≡ false = emit_nodes-go true false _ t h in cc
  emit_all-library_info metric score health_score pie_data false all_libs s1 s2 t (covers, f) h lib
        m =
      let general = emit_general_metrics fl lower_table config.metrics metric score health_score in
      let pies = emit_pie_metrics fl lower_table config.metrics pie_data in
      let s3 : Scrape Num = record s2 { ch = (s2.ch ++ general) ++ pies } in
      let (grown, _) =
        subst (IsSound run_config.instance_name s3) h
          ((emit_nodes-IsSafe fl lower_table sort_slice run_config api false).sound s3 f) in
      subst (Mem (library_info fl config.metrics lib)) (sym grown.sent) (
        mem-append_left grown.samples (
          mem-append_right (s2.ch ++ general) (
            emit_pie_metrics-library_info fl lower_table config.metrics pie_data lib
              ((Perm.mem_iff covers).1 m))))

  module _ (sorted : Sorts sort_slice) (positive : 0 < run_config.http_max_concurrency) where
    config_positive : 0 < config.max_concurrency
    unfolding new_tdarr_collector_with_api
    config_positive = positive

    collect-ShowsLibraries :
        (s t : Scrape Num)
        → IsFaithful s.stats_cache
        → collect fl lower_table sort_slice config api s ≡ (go false, t)
        → ShowsLibraries t
    unfolding collect emit_all send
    collect-ShowsLibraries s t f h =
        let (status, _, h1) = call-go (upstream (api.do_status config.status_path)) s _ h in
        let s1 : Scrape Num = record s {
          ch = s.ch ++ emit_server_metrics fl lower_table config.metrics status;
        } in
        let (metric, _, h2) =
          call-go
            (http_req_helper (api.marshal_metric (get_general_req_payload (lit "")))
              (api.do_post_metric config.stats_path))
            s1 _ h1 in
        let (score, _, h3) = call-go (parsed_score (fl.parse_float metric.tdarr_score)) s1 _ h2 in
        let (health_score, _, h4) =
          call-go (parsed_score (fl.parse_float metric.health_check_score)) s1 _ h3 in
        let (all_libs, answered, h5) =
          call-go
            (http_req_helper (api.marshal_metric (get_general_req_payload (lit "library")))
              (api.do_post_libs config.stats_path))
            s1 _ h4 in
        let (pies, s2, g, h6) =
          continue-go (gather_pies fl lower_table sort_slice config api metric all_libs s1) _ h5 in
        record {
          all_libs = all_libs;
          answered = answered;
          shown =
              emit_all-library_info metric score health_score pies.0 pies.1 all_libs s1 s2 t
                (subst (Gathered all_libs s1) g (
                  gather_pies-Gathered fl lower_table sort_slice config api sorted metric all_libs
                    s1 config_positive f))
                h6;
        }

    finish-ShowsLibraries :
        (s s' : Scrape Num) (r : Flow Bool × Scrape Num)
        → IsFaithful s.stats_cache
        → collect fl lower_table sort_slice config api s ≡ r
        → is_complete r.0 ≡ true
        → finish fl lower_table sort_slice config api r ≡ some s'
        → ShowsLibraries s'
    finish-ShowsLibraries s s' (go false, t) f h c e =
        let shows = collect-ShowsLibraries s t f h in
        subst ShowsLibraries (some-injective _ s' e) (record {
          all_libs = shows.all_libs;
          answered = shows.answered;
          shown = λ lib m. mem-append_left _ (shows.shown lib m);
        })
    finish-ShowsLibraries s s' (go true, t) f h c e = cc
    finish-ShowsLibraries s s' (stop _, t) f h c e = cc
    finish-ShowsLibraries s s' (unwind, t) f h c e = cc
    finish-ShowsLibraries s s' (crash, t) f h c e = cc

    -- With a positive concurrency, a sorting `sort.Slice` and a faithful cache: where `collect` comes to
    -- its end with no library missing, so that the scrape reports `tdarr_up` as 1, Tdarr has answered
    -- with a list of libraries, and the scrape has sent the info series of each of them, with its id
    -- and name of now, whether the pies came from the cache or from a sweep.
    pub collect_all-ShowsLibraries :
        (s s' : Scrape Num)
        → IsFaithful s.stats_cache
        → is_complete (collect fl lower_table sort_slice config api s).0 ≡ true
        → collect_all fl lower_table sort_slice config api s ≡ some s'
        → ShowsLibraries s'
    unfolding collect_all
    collect_all-ShowsLibraries s s' f c e =
        finish-ShowsLibraries s s' (collect fl lower_table sort_slice config api s) f refl c e
