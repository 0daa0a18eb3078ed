-- ===== src/Collector/Concurrent/Alone.antt =====
-- A scrape that runs alone, against the sequential model of internal/collector/tdarr.go's gathering of the pies.
pub mod Outcomes
use tdarr_exporter.Prelude.{
  ℕ, ◌<◌, ◌≡◌, ◌≢◌, refl, sym, ◌∙◌, Bool, true, false, List, [], ◌∷◌, ◌++◌, some, arith, ltb,
}
use tdarr_exporter.Models.{TdarrLibraryInfo, TdarrMetric, TdarrPieStats}
use tdarr_exporter.Metrics.{Float64}
use tdarr_exporter.Collector.Api.{TdarrApi}
use tdarr_exporter.Collector.Unknown.{UnknownStatusCounts, UnknownStatusKey, count_of}
use tdarr_exporter.Collector.Cache.{
  TdarrLibStatsCache, SortSlice, read, write, totals_from_metric, library_fingerprint,
  should_refetch,
}
use tdarr_exporter.Collector.Pies.{Sweep, fetch_pies}
use tdarr_exporter.Collector.Pies.Fan
use tdarr_exporter.Collector.Pies.Fan.{Fan, IsFinished}
use tdarr_exporter.Collector.Pies.Schedules.{schedule-fetch_pies}
use tdarr_exporter.Collector.Scrape.{
  CollectorConfig, Scrape, Flow, go, sweep, after_sweep, gather_pies,
}
use tdarr_exporter.Collector.Scrape.Survival.{sweep_total}
use tdarr_exporter.Collector.Concurrent.{
  Phase, listed, sweeping, swept, gathered, emitting, emitted, Scraper, scraper, Shared, verdict_of,
  IsCalm, enter, use_cache, fetch, work, miss, complete, store, lock_counts, unlock_counts, Step,
  Reach, here, next,
}
use mathlib.Core.List.{Perm}
use mathlib.Core.List.Perm
use mathlib.Core.Path.{subst}
use tdarr_exporter.Collector.Concurrent.Alone.Outcomes.{
  Agrees, gathering, Refetches, Sweeps, cache_behind, cached-Agrees, swept-Agrees,
}

-- The shared state of a collector at which one scrape stands.
abbrev pub alone : {Num : Type 0} → Scrape Num → TdarrApi Num → Phase Num → Shared Num
alone s api p = record {
  stats_cache = s.stats_cache;
  unknown_status_counts = s.unknown_status_counts;
  unknown_status_mu = false;
  scrapers = scraper api p ∷ [];
}

at_one {ℓ} :
    {A : Type ℓ} (before behind : List A) (x y : A)
    → before ++ (x ∷ behind) ≡ y ∷ []
    → (before ≡ []) × (x ≡ y) × (behind ≡ [])
at_one [] behind x y e = (refl, cc, cc)
at_one (b ∷ []) behind x y e = cc
at_one (b ∷ c ∷ before) behind x y e = cc

at_least_one {ℓ} : {A : Type ℓ} (before behind : List A) (x : A) → before ++ (x ∷ behind) ≢ []
at_least_one [] behind x e = cc
at_least_one (b ∷ before) behind x e = cc

module _ {Num : Type 0} (fl : Float64 Num) (lower_table : ℕ → ℕ) (sort_slice : SortSlice)
    (config : CollectorConfig) (positive : 0 < config.max_concurrency) (api : TdarrApi Num)
    (calm : IsCalm lower_table sort_slice config api) (metric : TdarrMetric Num)
    (all_libs : List TdarrLibraryInfo) (s : Scrape Num) where
  abbrev pub from : Shared Num
  from = alone s api (listed metric all_libs)

  abbrev Expects :
      TdarrLibStatsCache Num → UnknownStatusCounts → List (TdarrPieStats Num) → Bool → Type 0
  Expects = Agrees (gathering fl lower_table sort_slice config positive api calm metric all_libs s)

  -- What holds of the lone scrape in each of its phases, with the cache and the counters of that moment.
  abbrev Stands : TdarrLibStatsCache Num → UnknownStatusCounts → TdarrApi Num → Phase Num → Type 0
  Stands cache counts a (listed m libs) =
      (a ≡ api)
      × (m ≡ metric)
      × (libs ≡ all_libs)
      × (cache ≡ s.stats_cache)
      × (counts ≡ s.unknown_status_counts)
  Stands cache counts a (sweeping m libs fan) =
      (a ≡ api)
      × (m ≡ metric)
      × (libs ≡ all_libs)
      × (cache ≡ s.stats_cache)
      × Refetches fl lower_table sort_slice config positive api calm metric all_libs s true
      × Sweeps fl lower_table sort_slice config positive api calm metric all_libs s
          (record fan { counts = counts })
  Stands cache counts a (swept m libs pies) =
      (m ≡ metric)
      × (libs ≡ all_libs)
      × (cache ≡ s.stats_cache)
      × Expects
          (cache_behind fl lower_table sort_slice config positive api calm metric all_libs s false
            pies)
          counts pies false
  Stands cache counts a (gathered libs pies partial) =
      (libs ≡ all_libs) × Expects cache counts pies partial
  Stands cache counts a (emitting libs pies partial) = Unit
  Stands cache counts a (emitted libs pies partial sent) = Unit

  -- A state in which there is a scrape, and if it is the only one, it stands where it should.
  record Lone (t : Shared Num) : Type 0 where
    some_scrape : t.scrapers ≢ []
    stands :
        (x : Scraper Num)
        → t.scrapers ≡ x ∷ []
        → Stands t.stats_cache t.unknown_status_counts x.api x.phase

  -- A scrape that takes its step.
  moves-Lone :
      (t : Shared Num) (cache : TdarrLibStatsCache Num) (counts : UnknownStatusCounts) (mu : Bool)
      (before behind : List (Scraper Num)) (a : TdarrApi Num) (p p' : Phase Num)
      → t.scrapers ≡ before ++ (scraper a p ∷ behind)
      → (Stands t.stats_cache t.unknown_status_counts a p → Stands cache counts a p')
      → Lone t
      → Lone (record {
        stats_cache = cache;
        unknown_status_counts = counts;
        unknown_status_mu = mu;
        scrapers = before ++ (scraper a p' ∷ behind);
      })
  moves-Lone t cache counts mu before behind a p p' e step lone = record {
    some_scrape = at_least_one before behind (scraper a p');
    stands = λ x e'.
        let (none_before, same, none_behind) = at_one before behind (scraper a p') x e' in
        let only : t.scrapers ≡ scraper a p ∷ [] = rw (none_before, none_behind) at e in
        subst (λ y. Stands cache counts y.api y.phase) same (step (lone.stands (scraper a p) only));
  }

  Step-Lone : {t u : Shared Num} → Step lower_table sort_slice config t u → Lone t → Lone u
  unfolding Fan.start
  Step-Lone {t} (enter a m libs calm') lone = record {
    some_scrape = at_least_one t.scrapers [] (scraper a (listed m libs));
    stands =
        λ x e. absurd (lone.some_scrape (at_one t.scrapers [] (scraper a (listed m libs)) x e).0);
  }
  Step-Lone {t} (use_cache before behind a m libs e keep) lone =
      moves-Lone t _ _ _ before behind a (listed m libs)
        (gathered libs (read t.stats_cache).stats false) e
        (λ (_, same_m, same_libs, same_cache, same_counts).
          let keep' : Refetches fl lower_table sort_slice config positive api calm metric all_libs s
              false =
            rw (same_m, same_libs, same_cache) at keep in
          (
            same_libs,
            rw (same_cache, same_counts)
                (cached-Agrees fl lower_table sort_slice config positive api calm metric all_libs s
                  keep'),
          ))
        lone
  Step-Lone {t} (fetch before behind a m libs e refetch) lone =
      moves-Lone t _ _ _ before behind a (listed m libs)
        (sweeping m libs (Fan.start config.max_concurrency libs t.unknown_status_counts)) e
        (λ (same_a, same_m, same_libs, same_cache, same_counts).
          let refetch' : Refetches fl lower_table sort_slice config positive api calm metric
              all_libs s true =
            rw (same_m, same_libs, same_cache) at refetch in
          (same_a, same_m, same_libs, same_cache, refetch', rw (same_libs, same_counts) Fan.here))
        lone
  Step-Lone {t} (work before behind a m libs fan fan' e st may) lone =
      moves-Lone t _ fan'.counts _ before behind a (sweeping m libs fan) (sweeping m libs fan') e
        (λ (same_a, same_m, same_libs, same_cache, refetch, r). (
          same_a,
          same_m,
          same_libs,
          same_cache,
          refetch,
          Fan.next r (
              subst
                (λ b.
                  Fan.Step (verdict_of lower_table sort_slice config b)
                    (record fan { counts = t.unknown_status_counts }) fan')
                same_a st),
        ))
        lone
  Step-Lone {t} (miss before behind a m libs fan e done flagged) lone =
      moves-Lone t _ _ _ before behind a (sweeping m libs fan) (gathered libs fan.pie_data true) e
        (λ (_, _, same_libs, same_cache, refetch, r). (
          same_libs,
          rw same_cache (
              swept-Agrees fl lower_table sort_slice config positive api calm metric all_libs s
                (record fan { counts = t.unknown_status_counts }) true refetch r done flagged),
        ))
        lone
  Step-Lone {t} (complete before behind a m libs fan e done unflagged) lone =
      moves-Lone t _ _ _ before behind a (sweeping m libs fan) (swept m libs fan.pie_data) e
        (λ (_, same_m, same_libs, same_cache, refetch, r). (
          same_m,
          same_libs,
          same_cache,
          swept-Agrees fl lower_table sort_slice config positive api calm metric all_libs s
              (record fan { counts = t.unknown_status_counts }) false refetch r done unflagged,
        ))
        lone
  Step-Lone {t} (store before behind a m libs pie_data e) lone =
      moves-Lone t _ _ _ before behind a (swept m libs pie_data) (gathered libs pie_data false) e
        (λ (same_m, same_libs, same_cache, agrees).
          (same_libs, rw (same_m, same_libs, same_cache) agrees))
        lone
  Step-Lone {t} (lock_counts before behind a libs pies partial e free) lone =
      moves-Lone t _ _ _ before behind a (gathered libs pies partial) (emitting libs pies partial) e
        (λ _. tt) lone
  Step-Lone {t} (unlock_counts before behind a libs pies partial e) lone =
      moves-Lone t _ _ _ before behind a (emitting libs pies partial)
        (emitted libs pies partial t.unknown_status_counts) e (λ _. tt) lone

  Reach-Lone : {t : Shared Num} → Reach lower_table sort_slice config from t → Lone t
  Reach-Lone here = record {
    some_scrape = λ e. cc;
    stands = λ x e.
        let same : scraper api (listed metric all_libs) ≡ x = cc in
        subst (λ y. Stands s.stats_cache s.unknown_status_counts y.api y.phase) same
          (refl, refl, refl, refl, refl);
  }
  Reach-Lone (next r st) = Step-Lone st (Reach-Lone r)

  -- With a positive concurrency and requests that do not panic: whatever the schedule of the workers, a scrape that is
  -- alone over a collector comes to what the sequential `gather_pies` gives it. When it has its pies, they are those
  -- of `gather_pies` in some order, with its flag; every counter is the same, and so is the cache, up to the order
  -- of its stats.
  pub Reach-Agrees :
      (t : Shared Num) (a : TdarrApi Num) (libs : List TdarrLibraryInfo)
      (pies : List (TdarrPieStats Num)) (partial : Bool)
      → Reach lower_table sort_slice config from t
      → t.scrapers ≡ scraper a (gathered libs pies partial) ∷ []
      → (libs ≡ all_libs)
        × Agrees
            (gathering fl lower_table sort_slice config positive api calm metric all_libs s)
            t.stats_cache
            t.unknown_status_counts
            pies
            partial
  Reach-Agrees t a libs pies partial r e =
      (Reach-Lone r).stands (scraper a (gathered libs pies partial)) e
