-- ===== src/Collector/Concurrent.antt =====
-- Scrapes that run at once: `Collect` of internal/collector/tdarr.go is called by one goroutine for each request for the
-- metrics, over one `TdarrCollector`. Its shared state is the cache, behind a lock that `Read` and `Write` take
-- for a whole snapshot, and the counters, behind a lock that `bumpUnknownStatus` takes for one increment and
-- `collect` while it sends the counters: it holds this lock for as long as its channel is not read, and meanwhile
-- no other scrape can count or send them. A scrape enters here with the two documents that it has asked Tdarr
-- for, and stays with the pies that it emits; each has the answers of its own requests. Between two accesses to
-- the shared state the others may run.
pub mod Coverage
pub mod Counters
pub mod Monotone
pub mod Alone
pub mod Locking
pub mod Progress
use tdarr_exporter.Prelude.{ℕ, ◌≡◌, ◌≢◌, ◌⊎◌, Bool, true, false, List, [], ◌∷◌, ◌++◌}
use tdarr_exporter.GoText.{Text}
use tdarr_exporter.Models.{TdarrPieDataRequest, TdarrLibraryInfo, TdarrMetric, TdarrPieStats}
use tdarr_exporter.Collector.Api.{TdarrApi, panicked}
use tdarr_exporter.Collector.Unknown.{UnknownStatusCounts}
use tdarr_exporter.Collector.Cache.{
  TdarrLibStatsCache, SortSlice, read, write, totals_from_metric, library_fingerprint,
  should_refetch,
}
use tdarr_exporter.Collector.Pies.{Verdict, get_lib_stats}
use tdarr_exporter.Collector.Pies.Fan.{Fan, IsFinished}
use tdarr_exporter.Collector.Pies.Fan
use tdarr_exporter.Collector.Scrape.{CollectorConfig}

-- Where a scrape stands: in front of `statsCache.Read`, in `fetchPies`, behind a sweep that is to be
-- cached, behind the sweep or the cache with its pies and whether a library is missing, in the sending of the
-- counters with their lock, and behind it with the counters that it sent.
pub data Phase (Num : Type 0) : Type 0 where
  listed : TdarrMetric Num → List TdarrLibraryInfo → Phase Num
  sweeping : TdarrMetric Num → List TdarrLibraryInfo → Fan Num → Phase Num
  swept : TdarrMetric Num → List TdarrLibraryInfo → List (TdarrPieStats Num) → Phase Num
  gathered : List TdarrLibraryInfo → List (TdarrPieStats Num) → Bool → Phase Num
  emitting : List TdarrLibraryInfo → List (TdarrPieStats Num) → Bool → Phase Num
  emitted :
      List TdarrLibraryInfo → List (TdarrPieStats Num) → Bool → UnknownStatusCounts → Phase Num

pub record Scraper (Num : Type 0) : Type 0 where
  pub api : TdarrApi Num
  pub phase : Phase Num

pub record Shared (Num : Type 0) : Type 0 where
  pub stats_cache : TdarrLibStatsCache Num
  pub unknown_status_counts : UnknownStatusCounts
  pub unknown_status_mu : Bool
  pub scrapers : List (Scraper Num)

abbrev pub scraper : {Num : Type 0} → TdarrApi Num → Phase Num → Scraper Num
scraper api phase = record { api = api; phase = phase }

module _ {Num : Type 0} (lower_table : ℕ → ℕ) (sort_slice : SortSlice)
    (config : CollectorConfig) where
  -- The verdicts of the workers of a scrape.
  abbrev pub verdict_of : TdarrApi Num → TdarrPieDataRequest → Verdict Num
  verdict_of api = get_lib_stats lower_table api config.pie_stats_path

  -- A panic in a worker would end the process.
  abbrev pub IsCalm : TdarrApi Num → Type 0
  IsCalm api = (payload : Text) → api.do_post_pie config.pie_stats_path payload ≢ panicked

  -- A step that counts needs the lock of the counters, which `unknown_status_mu` says to be held while they are sent.
  abbrev pub MayCount : Shared Num → UnknownStatusCounts → Type 0
  MayCount s counts = (s.unknown_status_mu ≡ false) ⊎ (counts ≡ s.unknown_status_counts)

  -- `before` and `behind` are the other scrapes.
  pub data Step (s : Shared Num) : Shared Num → Type 0 where
    enter :
        (api : TdarrApi Num) (metric : TdarrMetric Num) (all_libs : List TdarrLibraryInfo)
        → IsCalm api
        → Step s (record s { scrapers = s.scrapers ++ (scraper api (listed metric all_libs) ∷ []) })
    use_cache :
        (before behind : List (Scraper Num)) (api : TdarrApi Num) (metric : TdarrMetric Num)
        (all_libs : List TdarrLibraryInfo)
        → s.scrapers ≡ before ++ (scraper api (listed metric all_libs) ∷ behind)
        → should_refetch (read s.stats_cache) metric (library_fingerprint sort_slice all_libs)
          ≡ false
        → Step s (record s {
          scrapers =
              before ++ (scraper api (gathered all_libs (read s.stats_cache).stats false) ∷ behind);
        })
    fetch :
        (before behind : List (Scraper Num)) (api : TdarrApi Num) (metric : TdarrMetric Num)
        (all_libs : List TdarrLibraryInfo)
        → s.scrapers ≡ before ++ (scraper api (listed metric all_libs) ∷ behind)
        → should_refetch (read s.stats_cache) metric (library_fingerprint sort_slice all_libs)
          ≡ true
        → Step s (record s {
          scrapers =
              before
              ++ (scraper api (
                    sweeping metric all_libs
                      (Fan.start config.max_concurrency all_libs s.unknown_status_counts))
                  ∷ behind);
        })
    -- A step of a worker, or of the drain, of one of the sweeps, on the counters of all.
    work :
        (before behind : List (Scraper Num)) (api : TdarrApi Num) (metric : TdarrMetric Num)
        (all_libs : List TdarrLibraryInfo) (fan fan' : Fan Num)
        → s.scrapers ≡ before ++ (scraper api (sweeping metric all_libs fan) ∷ behind)
        → Fan.Step (verdict_of api) (record fan { counts = s.unknown_status_counts }) fan'
        → MayCount s fan'.counts
        → Step s (record s {
          unknown_status_counts = fan'.counts;
          scrapers = before ++ (scraper api (sweeping metric all_libs fan') ∷ behind);
        })
    miss :
        (before behind : List (Scraper Num)) (api : TdarrApi Num) (metric : TdarrMetric Num)
        (all_libs : List TdarrLibraryInfo) (fan : Fan Num)
        → s.scrapers ≡ before ++ (scraper api (sweeping metric all_libs fan) ∷ behind)
        → IsFinished fan
        → fan.partial ≡ true
        → Step s (record s {
          scrapers = before ++ (scraper api (gathered all_libs fan.pie_data true) ∷ behind);
        })
    complete :
        (before behind : List (Scraper Num)) (api : TdarrApi Num) (metric : TdarrMetric Num)
        (all_libs : List TdarrLibraryInfo) (fan : Fan Num)
        → s.scrapers ≡ before ++ (scraper api (sweeping metric all_libs fan) ∷ behind)
        → IsFinished fan
        → fan.partial ≡ false
        → Step s (record s {
          scrapers = before ++ (scraper api (swept metric all_libs fan.pie_data) ∷ behind);
        })
    store :
        (before behind : List (Scraper Num)) (api : TdarrApi Num) (metric : TdarrMetric Num)
        (all_libs : List TdarrLibraryInfo) (pie_data : List (TdarrPieStats Num))
        → s.scrapers ≡ before ++ (scraper api (swept metric all_libs pie_data) ∷ behind)
        → Step s (record s {
          stats_cache = write s.stats_cache (record {
            totals = totals_from_metric metric;
            stats = pie_data;
            fingerprint = library_fingerprint sort_slice all_libs;
          });
          scrapers = before ++ (scraper api (gathered all_libs pie_data false) ∷ behind);
        })
    lock_counts :
        (before behind : List (Scraper Num)) (api : TdarrApi Num) (all_libs : List TdarrLibraryInfo)
        (pie_data : List (TdarrPieStats Num)) (partial : Bool)
        → s.scrapers ≡ before ++ (scraper api (gathered all_libs pie_data partial) ∷ behind)
        → s.unknown_status_mu ≡ false
        → Step s (record s {
          unknown_status_mu = true;
          scrapers = before ++ (scraper api (emitting all_libs pie_data partial) ∷ behind);
        })
    unlock_counts :
        (before behind : List (Scraper Num)) (api : TdarrApi Num) (all_libs : List TdarrLibraryInfo)
        (pie_data : List (TdarrPieStats Num)) (partial : Bool)
        → s.scrapers ≡ before ++ (scraper api (emitting all_libs pie_data partial) ∷ behind)
        → Step s (record s {
          unknown_status_mu = false;
          scrapers =
              before
              ++ (scraper api (emitted all_libs pie_data partial s.unknown_status_counts) ∷ behind);
        })

  -- The schedules from `s`.
  pub data Reach (s : Shared Num) : Shared Num → Type 0 where
    here : Reach s s
    next : {t u : Shared Num} → Reach s t → Step t u → Reach s u
