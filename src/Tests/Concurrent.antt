-- ===== src/Tests/Concurrent.antt =====
-- Two scrapes of internal/collector/tdarr.go at once: the second enters while the first sweeps, and then finds its
-- snapshot in the cache.
use tdarr_exporter.Prelude.{
  ◌+◌, ◌≤◌, ◌≡◌, refl, inl, ◌⊎◌, false, List, [], ◌∷◌, some, arith, list_eq, elem, All,
}
use tdarr_exporter.Prelude.Int.{ℤ}
use tdarr_exporter.Prelude.Assoc.{insert, lookup}
use tdarr_exporter.GoText.{lit, is_space}
use tdarr_exporter.Models.{TdarrPieDataRequest, TdarrLibraryInfo, TdarrPieStats}
use tdarr_exporter.Enums.{normalize_pie_statuses}
use tdarr_exporter.Collector.Unknown.{
  UnknownStatusKey, UnknownStatusCounts, count_of, bump_unknown_status,
}
use tdarr_exporter.Collector.Cache.{
  library_fingerprint, totals_from_metric, write, read, should_refetch,
}
use tdarr_exporter.Collector.Pies.{Bump, note_bump, pie_data_request, get_lib_stats}
use tdarr_exporter.Collector.Pies.Fan
use tdarr_exporter.Collector.Pies.Fan.{Worker, Fan, idle, busy, sending, exited}
use tdarr_exporter.Collector.Setup.{new_tdarr_collector_with_api, new_scrape}
use tdarr_exporter.Collector.Scrape.{CollectorConfig, Scrape, gather_pies}
use tdarr_exporter.Collector.Concurrent.{
  listed, sweeping, gathered, Scraper, scraper, Shared, Step, enter, use_cache, fetch, work,
  complete, store, Reach, here, next,
}
use tdarr_exporter.Collector.Scrape.Libraries.{IsFaithful}
use tdarr_exporter.Collector.Concurrent.Coverage.{Covers, Reach-Covers}
use tdarr_exporter.Collector.Concurrent.Counters.{pending, all_adds, Reach-count_of}
use tdarr_exporter.Collector.Concurrent.Alone.{alone, Reach-Agrees}
use tdarr_exporter.Collector.Concurrent.Alone.Outcomes.{Agrees}
use tdarr_exporter.Collector.Concurrent.Progress.Work.{steps, all_left, brought}
use tdarr_exporter.Collector.Concurrent.Progress.{HasEmitted, CanMove, Reach-Moves}
use tdarr_exporter.Collector.Concurrent.Monotone.{Reach-le}
use tdarr_exporter.Tests.Collector.{fl, api, metric, movies, run_config}
use tdarr_exporter.Tests.Enums.{ascii, movies_pie}
use tdarr_exporter.Tests.Sort.{insertion_sort, insertion_sort-Sorts}

abbrev config : CollectorConfig
config = record (new_tdarr_collector_with_api run_config) { max_concurrency = 1 }

abbrev libs : List TdarrLibraryInfo
libs = movies ∷ []

abbrev request : TdarrPieDataRequest
request = record { library_id = lit "m"; library_name = lit "Movies" }

abbrev exploded : Bump
exploded = (lit "transcode", lit "exploded")

abbrev pie : TdarrPieStats ℤ
pie = (normalize_pie_statuses ascii (some note_bump) movies_pie []).0

abbrev key : UnknownStatusKey
key = record { kind = lit "transcode"; status = lit "exploded" }

abbrev counted : UnknownStatusCounts
counted = (key, 1) ∷ []

abbrev fan_of :
    List TdarrPieDataRequest
    → Worker ℤ
    → List (TdarrPieStats ℤ)
    → List (TdarrPieStats ℤ)
    → UnknownStatusCounts
    → Fan ℤ
fan_of in_chan w out_chan pie_data counts = record {
  in_chan = in_chan;
  workers = w ∷ [];
  out_chan = out_chan;
  pie_data = pie_data;
  partial = false;
  counts = counts;
}

abbrev first : Scrape ℤ
first = new_scrape

abbrev shared : UnknownStatusCounts → List (Scraper ℤ) → Shared ℤ
shared counts scrapers = record {
  stats_cache = first.stats_cache;
  unknown_status_counts = counts;
  unknown_status_mu = false;
  scrapers = scrapers;
}

-- The first scrape in its sweep, beside others.
abbrev beside : List (Scraper ℤ) → Fan ℤ → Shared ℤ
beside others fan = shared fan.counts (scraper api (sweeping metric libs fan) ∷ others)

abbrev both : Fan ℤ → Shared ℤ
both = beside (scraper api (listed metric libs) ∷ [])

abbrev last_fan : Fan ℤ
last_fan = fan_of [] exited [] (pie ∷ []) counted

abbrev stored : Shared ℤ
stored = record {
  stats_cache = record {
    snap = record {
      totals = totals_from_metric metric;
      stats = pie ∷ [];
      fingerprint = library_fingerprint insertion_sort libs;
    };
  };
  unknown_status_counts = counted;
  unknown_status_mu = false;
  scrapers = scraper api (gathered libs (pie ∷ []) false) ∷ scraper api (listed metric libs) ∷ [];
}

abbrev last : Shared ℤ
last = record stored {
  scrapers =
      scraper api (gathered libs (pie ∷ []) false)
      ∷ scraper api (gathered libs (pie ∷ []) false)
      ∷ [];
}

abbrev Leads : Shared ℤ → Shared ℤ → Type 0
Leads = Step ascii insertion_sort config

works :
    (others : List (Scraper ℤ)) (fan fan' : Fan ℤ)
    → Fan.Step (get_lib_stats ascii api config.pie_stats_path) fan fan'
    → Leads (beside others fan) (beside others fan')
works others fan fan' st = work [] others api metric libs fan fan' refl st (inl refl)

begins :
    Reach ascii insertion_sort config (shared [] []) (both (fan_of (request ∷ []) idle [] [] []))
unfolding Fan.start new_scrape should_refetch pie_data_request read
begins =
    next
      (next (next here (enter api metric libs (λ payload. cc)))
        (fetch [] [] api metric libs refl refl))
      (enter api metric libs (λ payload. cc))

-- The worker takes the library, is answered, bumps, sends and leaves, and the drain gathers.
sweeps :
    (others : List (Scraper ℤ)) {from : Shared ℤ}
    → Reach ascii insertion_sort config from (beside others (fan_of (request ∷ []) idle [] [] []))
    → Reach ascii insertion_sort config from (beside others last_fan)
unfolding get_lib_stats normalize_pie_statuses bump_unknown_status insert lookup elem list_eq
    is_space
sweeps others begun =
    let fan1 = fan_of [] (busy request) [] [] [] in
    let fan2 = fan_of [] (sending (exploded ∷ []) pie) [] [] [] in
    let fan3 = fan_of [] (sending [] pie) [] [] counted in
    let fan4 = fan_of [] idle (pie ∷ []) [] counted in
    let fan5 = fan_of [] exited (pie ∷ []) [] counted in
    next
      (next
        (next
          (next
            (next (next begun (works others _ fan1 (Fan.take [] [] request [] refl refl)))
              (works others fan1 fan2 (Fan.answer [] [] request (exploded ∷ []) pie refl refl)))
            (works others fan2 fan3 (Fan.bump [] [] exploded [] pie refl)))
          (works others fan3 fan4 (Fan.send [] [] pie refl)))
        (works others fan4 fan5 (Fan.leave [] [] refl refl)))
      (works others fan5 last_fan (Fan.gather pie [] refl))

ends : Reach ascii insertion_sort config (shared [] []) last
unfolding should_refetch read write list_eq library_fingerprint new_scrape
ends =
    next
      (next
        (next (sweeps (scraper api (listed metric libs) ∷ []) begins)
          (complete [] _ api metric libs last_fan refl (tt, refl) refl))
        (store [] _ api metric libs (pie ∷ []) refl))
      (use_cache (scraper api (gathered libs (pie ∷ []) false) ∷ []) [] api metric libs refl refl)

-- What the second scrape has.
Reach-Covers_example :
    Covers fl ascii insertion_sort config insertion_sort-Sorts (omega arith) (pie ∷ []) libs
    × IsFaithful last.stats_cache
unfolding new_scrape
Reach-Covers_example =
    Reach-Covers fl ascii insertion_sort config insertion_sort-Sorts (omega arith) (shared [] [])
      last (scraper api (gathered libs (pie ∷ []) false) ∷ []) [] api libs (pie ∷ []) (inl refl)
      refl ends refl

Reach-count_of_example :
    count_of key last.unknown_status_counts + pending ascii insertion_sort config key last.scrapers
    ≡ count_of key (shared [] []).unknown_status_counts
      + all_adds ascii insertion_sort config key ends
unfolding new_scrape
Reach-count_of_example =
    Reach-count_of ascii insertion_sort config key fl insertion_sort-Sorts (omega arith)
      (shared [] []) last (inl refl) refl ends

Reach-le_example :
    count_of key (shared [] []).unknown_status_counts ≤ count_of key last.unknown_status_counts
Reach-le_example = Reach-le key ascii insertion_sort config ends

-- The first scrape by itself.
alone_ends :
    Reach ascii insertion_sort config
      (alone first api (listed metric libs))
      (record stored { scrapers = scraper api (gathered libs (pie ∷ []) false) ∷ [] })
unfolding should_refetch read write list_eq library_fingerprint new_scrape Fan.start
    pie_data_request
alone_ends =
    next
      (next (sweeps [] (next here (fetch [] [] api metric libs refl refl)))
        (complete [] [] api metric libs last_fan refl (tt, refl) refl))
      (store [] [] api metric libs (pie ∷ []) refl)

Reach-Agrees_example :
    (libs ≡ libs)
    × Agrees
        (gather_pies fl ascii insertion_sort config api metric libs first)
        stored.stats_cache
        counted
        (pie ∷ [])
        false
Reach-Agrees_example =
    Reach-Agrees fl ascii insertion_sort config (omega arith) api (λ payload. cc) metric libs first
      (record stored { scrapers = scraper api (gathered libs (pie ∷ []) false) ∷ [] }) api libs
      (pie ∷ []) false alone_ends refl

-- Where the first scrape has just begun its sweep.
Reach-Moves_example :
    (steps ascii insertion_sort config begins
        + all_left ascii insertion_sort config (both (fan_of (request ∷ []) idle [] [] [])).scrapers
      ≤ brought ascii insertion_sort config begins)
    × (All HasEmitted (both (fan_of (request ∷ []) idle [] [] [])).scrapers
        ⊎ CanMove ascii insertion_sort config (both (fan_of (request ∷ []) idle [] [] [])))
unfolding new_scrape
Reach-Moves_example =
    Reach-Moves ascii insertion_sort config fl insertion_sort-Sorts (omega arith) begins (inl refl)
      refl refl
