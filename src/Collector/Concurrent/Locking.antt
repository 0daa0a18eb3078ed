-- ===== src/Collector/Concurrent/Locking.antt =====
-- Who holds the lock of the counters in internal/collector/tdarr.go.
use tdarr_exporter.Prelude.{ℕ, ◌+◌, ◌≤◌, ◌≡◌, ap, Bool, true, false, List, [], ◌∷◌, ◌++◌, arith}
use tdarr_exporter.Collector.Api.{TdarrApi}
use tdarr_exporter.Collector.Cache.{SortSlice, read}
use tdarr_exporter.Collector.Pies.Fan
use tdarr_exporter.Collector.Scrape.{CollectorConfig}
use tdarr_exporter.Collector.Concurrent.{
  Phase, listed, sweeping, swept, gathered, emitting, emitted, Scraper, scraper, Shared, enter,
  use_cache, fetch, work, miss, complete, store, lock_counts, unlock_counts, Step, Reach, here,
  next,
}

-- How many of the scrapes hold the lock of the counters.
module _ {Num : Type 0} where
  abbrev pub is_emitting : Phase Num → ℕ
  is_emitting (emitting all_libs pie_data partial) = 1
  is_emitting _ = 0

  abbrev pub emitters : List (Scraper Num) → ℕ
  emitters [] = 0
  emitters (x ∷ xs) = is_emitting x.phase + emitters xs

  emitters-append : (xs ys : List (Scraper Num)) → emitters (xs ++ ys) ≡ emitters xs + emitters ys
  emitters-append [] ys = omega arith
  emitters-append (x ∷ xs) ys = omega (arith, emitters-append xs ys)

  emitters-replace :
      (xs before behind : List (Scraper Num)) (api : TdarrApi Num) (p p' : Phase Num)
      → xs ≡ before ++ (scraper api p ∷ behind)
      → emitters (before ++ (scraper api p' ∷ behind)) + is_emitting p
        ≡ emitters xs + is_emitting p'
  emitters-replace xs before behind api p p' e = omega (
    arith,
    ap emitters e,
    emitters-append before (scraper api p ∷ behind),
    emitters-append before (scraper api p' ∷ behind),
  )

abbrev pub held : Bool → ℕ
held true = 1
held false = 0

held_le_one : (b : Bool) → held b ≤ 1
held_le_one true = omega arith
held_le_one false = omega arith

module _ {Num : Type 0} (lower_table : ℕ → ℕ) (sort_slice : SortSlice)
    (config : CollectorConfig) where
  Step-held :
      {s t : Shared Num}
      → Step lower_table sort_slice config s t
      → emitters s.scrapers ≡ held s.unknown_status_mu
      → emitters t.scrapers ≡ held t.unknown_status_mu
  Step-held {s} (enter api metric all_libs calm) h =
      omega (arith, emitters-append s.scrapers (scraper api (listed metric all_libs) ∷ []))
  Step-held {s} (use_cache before behind api metric all_libs e keep) h = omega (
    arith,
    emitters-replace s.scrapers before behind api (listed metric all_libs)
        (gathered all_libs (read s.stats_cache).stats false) e,
  )
  Step-held {s} (fetch before behind api metric all_libs e refetch) h = omega (
    arith,
    emitters-replace s.scrapers before behind api (listed metric all_libs)
        (sweeping metric all_libs
          (Fan.start config.max_concurrency all_libs s.unknown_status_counts))
        e,
  )
  Step-held {s} (work before behind api metric all_libs fan fan' e st may) h = omega (
    arith,
    emitters-replace s.scrapers before behind api (sweeping metric all_libs fan)
        (sweeping metric all_libs fan') e,
  )
  Step-held {s} (miss before behind api metric all_libs fan e done flagged) h = omega (
    arith,
    emitters-replace s.scrapers before behind api (sweeping metric all_libs fan)
        (gathered all_libs fan.pie_data true) e,
  )
  Step-held {s} (complete before behind api metric all_libs fan e done unflagged) h = omega (
    arith,
    emitters-replace s.scrapers before behind api (sweeping metric all_libs fan)
        (swept metric all_libs fan.pie_data) e,
  )
  Step-held {s} (store before behind api metric all_libs pie_data e) h = omega (
    arith,
    emitters-replace s.scrapers before behind api (swept metric all_libs pie_data)
        (gathered all_libs pie_data false) e,
  )
  Step-held {s} (lock_counts before behind api all_libs pie_data partial e free) h = omega (
    arith,
    ap held free,
    emitters-replace s.scrapers before behind api (gathered all_libs pie_data partial)
        (emitting all_libs pie_data partial) e,
  )
  Step-held {s} (unlock_counts before behind api all_libs pie_data partial e) h = omega (
    arith,
    held_le_one s.unknown_status_mu,
    emitters-replace s.scrapers before behind api (emitting all_libs pie_data partial)
        (emitted all_libs pie_data partial s.unknown_status_counts) e,
  )

  -- The lock is held exactly where one scrape, and no other, sends the counters, if it is so at first.
  pub Reach-held :
      {s t : Shared Num}
      → Reach lower_table sort_slice config s t
      → emitters s.scrapers ≡ held s.unknown_status_mu
      → emitters t.scrapers ≡ held t.unknown_status_mu
  Reach-held here h = h
  Reach-held (next r st) h = Step-held st (Reach-held r h)
