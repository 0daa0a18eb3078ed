-- ===== src/Collector/Concurrent/Coverage.antt =====
-- What the cache and the scrapes of internal/collector/tdarr.go hold, however the scrapes interleave.
use tdarr_exporter.Prelude.{
  ℕ, ◌<◌, ◌≡◌, sym, ◌∙◌, inr, true, false, List, [], ◌∷◌, ◌++◌, map, some, All, All-append, All-at,
  All-replace, ltb, arith,
}
use tdarr_exporter.Models.{TdarrPieDataRequest, TdarrLibraryInfo, TdarrMetric, TdarrPieStats}
use tdarr_exporter.Metrics.{Float64}
use tdarr_exporter.Collector.Api.{TdarrApi}
use tdarr_exporter.Collector.Unknown.{UnknownStatusCounts}
use tdarr_exporter.Collector.Cache.{SortSlice, read, write, library_fingerprint}
use tdarr_exporter.Collector.Cache.Fingerprint.{Sorts}
use tdarr_exporter.Collector.Cache.Refetch.{should_refetch-false_iff}
use tdarr_exporter.Collector.Pies.{Verdict, fetch_pies}
use tdarr_exporter.Collector.Pies.Fan
use tdarr_exporter.Collector.Pies.Fan.{Fan, IsFinished}
use tdarr_exporter.Collector.Pies.Recount.{recount}
use tdarr_exporter.Collector.Pies.Schedules.{schedule-fetch_pies}
use tdarr_exporter.Collector.Scrape.{CollectorConfig, sweep}
use tdarr_exporter.Collector.Scrape.Libraries.{
  library_of, IsFaithful, Perm_of_eq, sweep_complete, faithful_covers,
}
use tdarr_exporter.Collector.Scrape.Survival.{sweep_total}
use tdarr_exporter.Collector.Concurrent.{
  Phase, listed, sweeping, swept, gathered, emitting, emitted, Scraper, scraper, Shared, verdict_of,
  IsCalm, Step, enter, use_cache, fetch, work, miss, complete, store, lock_counts, unlock_counts,
  Reach, here, next,
}
use mathlib.Core.Path.{subst}
use mathlib.Core.List.{Perm}
use mathlib.Core.List.Perm

module _ {Num : Type 0} (fl : Float64 Num) (lower_table : ℕ → ℕ) (sort_slice : SortSlice)
    (config : CollectorConfig) (sorted : Sorts sort_slice)
    (positive : 0 < config.max_concurrency) where
  abbrev verdict : TdarrApi Num → TdarrPieDataRequest → Verdict Num
  verdict api = verdict_of lower_table sort_slice config api

  -- The pies are those of these libraries, each as often.
  abbrev pub Covers : List (TdarrPieStats Num) → List TdarrLibraryInfo → Type 0
  Covers pie_data all_libs = Perm (map library_of pie_data) all_libs

  -- A sweep is where a schedule of its own workers alone could have brought it.
  abbrev pub IsWellFormed : TdarrApi Num → Phase Num → Type 0
  IsWellFormed api (listed metric all_libs) = Unit
  IsWellFormed api (sweeping metric all_libs fan) =
      (c c' : UnknownStatusCounts) × Fan.Reach (verdict api)
        (Fan.start config.max_concurrency all_libs c) (record fan { counts = c' })
  IsWellFormed api (swept metric all_libs pie_data) = Covers pie_data all_libs
  IsWellFormed api (gathered all_libs pie_data true) = Unit
  IsWellFormed api (gathered all_libs pie_data false) = Covers pie_data all_libs
  IsWellFormed api (emitting all_libs pie_data partial) = Unit
  IsWellFormed api (emitted all_libs pie_data partial counts) = Unit

  abbrev pub IsFine : Scraper Num → Type 0
  IsFine x = IsCalm lower_table sort_slice config x.api × IsWellFormed x.api x.phase

  pub record Inv (s : Shared Num) : Type 0 where
    pub faithful : IsFaithful s.stats_cache
    pub fine : All IsFine s.scrapers

  finished-Covers :
      (api : TdarrApi Num) (all_libs : List TdarrLibraryInfo) (fan : Fan Num)
      (c c' : UnknownStatusCounts)
      → IsCalm lower_table sort_slice config api
      → Fan.Reach
          (verdict api)
          (Fan.start config.max_concurrency all_libs c)
          (record fan { counts = c' })
      → IsFinished fan
      → fan.partial ≡ false
      → Covers fan.pie_data all_libs
  unfolding sweep
  finished-Covers api all_libs fan c c' calm r done unflagged =
      let (w, e) = sweep_total fl lower_table sort_slice config api calm all_libs c in
      let is_positive : ltb 0 config.max_concurrency ≡ true = ground arith in
      let fetched : fetch_pies (verdict api) all_libs c ≡ some w = rw (is_positive, sweep) at e in
      let (pies, flag, _) =
        schedule-fetch_pies (verdict api) config.max_concurrency all_libs c w
          (record fan { counts = c' }) positive fetched r done in
      Perm.trans (Perm.map library_of pies) (
        Perm_of_eq (
          sweep_complete fl lower_table sort_slice config api all_libs c w positive e
            (sym flag ∙ unflagged)))

  pub Inv-empty : (s : Shared Num) → IsFaithful s.stats_cache → s.scrapers ≡ [] → Inv s
  Inv-empty s faithful none_yet = record { faithful = faithful; fine = rw none_yet tt }

  pub Inv-sweeping :
      (s : Shared Num) (before behind : List (Scraper Num)) (api : TdarrApi Num)
      (metric : TdarrMetric Num) (all_libs : List TdarrLibraryInfo) (fan : Fan Num)
      → Inv s
      → s.scrapers ≡ before ++ (scraper api (sweeping metric all_libs fan) ∷ behind)
      → IsWellFormed api (sweeping metric all_libs fan)
  Inv-sweeping s before behind api metric all_libs fan inv e =
      (All-at IsFine before behind (scraper api (sweeping metric all_libs fan))
        (subst (All IsFine) e inv.fine)).1

  -- A scrape that takes its step leaves the others as they are.
  advance :
      (s : Shared Num) (before behind : List (Scraper Num)) (api : TdarrApi Num) (p p' : Phase Num)
      → s.scrapers ≡ before ++ (scraper api p ∷ behind)
      → (IsCalm lower_table sort_slice config api → IsWellFormed api p → IsWellFormed api p')
      → All IsFine s.scrapers
      → All IsFine (before ++ (scraper api p' ∷ behind))
  advance s before behind api p p' e step fine =
      let fine' : All IsFine (before ++ (scraper api p ∷ behind)) = subst (All IsFine) e fine in
      let (calm, well) = All-at IsFine before behind (scraper api p) fine' in
      All-replace IsFine before behind (scraper api p) (scraper api p') (calm, step calm well) fine'

  stored_faithful :
      (s : Shared Num) (before behind : List (Scraper Num)) (api : TdarrApi Num)
      (metric : TdarrMetric Num) (all_libs : List TdarrLibraryInfo)
      (pie_data : List (TdarrPieStats Num))
      → s.scrapers ≡ before ++ (scraper api (swept metric all_libs pie_data) ∷ behind)
      → All IsFine s.scrapers
      → Perm (map library_of pie_data) (library_fingerprint sort_slice all_libs)
  unfolding library_fingerprint
  stored_faithful s before behind api metric all_libs pie_data e fine =
      let (_, covers) =
        All-at IsFine before behind (scraper api (swept metric all_libs pie_data))
          (subst (All IsFine) e fine) in
      Perm.trans covers (Perm.symm (sorted.permutes all_libs))

  Step-Inv : {s t : Shared Num} → Step lower_table sort_slice config s t → Inv s → Inv t
  unfolding read write Fan.start
  Step-Inv {s} (enter api metric all_libs calm) inv = record {
    faithful = inv.faithful;
    fine = All-append IsFine s.scrapers _ inv.fine ((calm, tt), tt);
  }
  Step-Inv {s} (use_cache before behind api metric all_libs e keep) inv =
      let (full, _, same) =
        (should_refetch-false_iff (read s.stats_cache) metric
            (library_fingerprint sort_slice all_libs)).0
          keep in
      record {
        faithful = inv.faithful;
        fine =
            advance s before behind api (listed metric all_libs)
              (gathered all_libs (read s.stats_cache).stats false) e
              (λ _ _.
                faithful_covers fl lower_table sort_slice config api sorted all_libs s.stats_cache
                  full same inv.faithful)
              inv.fine;
      }
  Step-Inv {s} (fetch before behind api metric all_libs e refetch) inv = record {
    faithful = inv.faithful;
    fine =
        advance s before behind api (listed metric all_libs)
          (sweeping metric all_libs
            (Fan.start config.max_concurrency all_libs s.unknown_status_counts))
          e (λ _ _. (s.unknown_status_counts, s.unknown_status_counts, Fan.here)) inv.fine;
  }
  Step-Inv {s} (work before behind api metric all_libs fan fan' e st may) inv = record {
    faithful = inv.faithful;
    fine =
        advance s before behind api (sweeping metric all_libs fan) (sweeping metric all_libs fan') e
          (λ _ (c, c', r). let (c'', st') = recount (verdict api) c' st in (c, c'', Fan.next r st'))
          inv.fine;
  }
  Step-Inv {s} (miss before behind api metric all_libs fan e done flagged) inv = record {
    faithful = inv.faithful;
    fine =
        advance s before behind api (sweeping metric all_libs fan)
          (gathered all_libs fan.pie_data true) e (λ _ _. tt) inv.fine;
  }
  Step-Inv {s} (complete before behind api metric all_libs fan e done unflagged) inv = record {
    faithful = inv.faithful;
    fine =
        advance s before behind api (sweeping metric all_libs fan)
          (swept metric all_libs fan.pie_data) e
          (λ calm (c, c', r). finished-Covers api all_libs fan c c' calm r done unflagged) inv.fine;
  }
  Step-Inv {s} (store before behind api metric all_libs pie_data e) inv = record {
    faithful = inr (stored_faithful s before behind api metric all_libs pie_data e inv.fine);
    fine =
        advance s before behind api (swept metric all_libs pie_data)
          (gathered all_libs pie_data false) e (λ _ covers. covers) inv.fine;
  }
  Step-Inv {s} (lock_counts before behind api all_libs pie_data partial e free) inv = record {
    faithful = inv.faithful;
    fine =
        advance s before behind api (gathered all_libs pie_data partial)
          (emitting all_libs pie_data partial) e (λ _ _. tt) inv.fine;
  }
  Step-Inv {s} (unlock_counts before behind api all_libs pie_data partial e) inv = record {
    faithful = inv.faithful;
    fine =
        advance s before behind api (emitting all_libs pie_data partial)
          (emitted all_libs pie_data partial s.unknown_status_counts) e (λ _ _. tt) inv.fine;
  }

  pub Reach-Inv : {s t : Shared Num} → Inv s → Reach lower_table sort_slice config s t → Inv t
  Reach-Inv inv here = inv
  Reach-Inv inv (next r st) = Step-Inv st (Reach-Inv inv r)

  -- However scrapes interleave over one collector whose cache is faithful at first, with a positive concurrency, a
  -- sorting `sort.Slice` and requests that do not panic: the cache stays faithful, and a scrape that has its pies and
  -- misses no library has the pies of exactly the libraries that Tdarr listed to this very scrape, each as often,
  -- whether it swept them itself or took them from the cache, which others may have written.
  pub Reach-Covers :
      (s t : Shared Num) (before behind : List (Scraper Num)) (api : TdarrApi Num)
      (all_libs : List TdarrLibraryInfo) (pie_data : List (TdarrPieStats Num))
      → IsFaithful s.stats_cache
      → s.scrapers ≡ []
      → Reach lower_table sort_slice config s t
      → t.scrapers ≡ before ++ (scraper api (gathered all_libs pie_data false) ∷ behind)
      → Covers pie_data all_libs × IsFaithful t.stats_cache
  Reach-Covers s t before behind api all_libs pie_data faithful none_yet r e =
      let inv = Reach-Inv {s = s} (Inv-empty s faithful none_yet) r in
      let (_, covers) =
        All-at IsFine before behind (scraper api (gathered all_libs pie_data false))
          (subst (All IsFine) e inv.fine) in
      (covers, inv.faithful)
