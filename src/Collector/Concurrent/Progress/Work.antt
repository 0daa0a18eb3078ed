-- ===== src/Collector/Concurrent/Progress/Work.antt =====
-- The work that the scrapes of internal/collector/tdarr.go have before them.
use tdarr_exporter.Prelude.{ℕ, suc, ◌+◌, ◌≤◌, ◌<◌, ◌≡◌, ap, List, [], ◌∷◌, ◌++◌, arith}
use tdarr_exporter.Collector.Api.{TdarrApi}
use tdarr_exporter.Collector.Cache.{SortSlice}
use tdarr_exporter.Collector.Pies.Fan
use tdarr_exporter.Collector.Pies.Fan.{Fan, IsFinished}
use tdarr_exporter.Collector.Pies.Progress
use tdarr_exporter.Collector.Scrape.{CollectorConfig}
use tdarr_exporter.Collector.Concurrent.{
  Phase, listed, sweeping, swept, gathered, emitting, emitted, Scraper, scraper, Shared, verdict_of,
  enter, use_cache, fetch, work, miss, complete, store, lock_counts, unlock_counts, Step, Reach,
  here, next,
}

module _ {Num : Type 0} (lower_table : ℕ → ℕ) (sort_slice : SortSlice)
    (config : CollectorConfig) where
  -- How many steps a scrape has before it at most.
  abbrev pub phase_left : TdarrApi Num → Phase Num → ℕ
  phase_left api (listed metric all_libs) =
      5
      + Progress.work (verdict_of lower_table sort_slice config api)
          (Fan.start config.max_concurrency all_libs [])
  phase_left api (sweeping metric all_libs fan) =
      4 + Progress.work (verdict_of lower_table sort_slice config api) fan
  phase_left api (swept metric all_libs pie_data) = 3
  phase_left api (gathered all_libs pie_data partial) = 2
  phase_left api (emitting all_libs pie_data partial) = 1
  phase_left api (emitted all_libs pie_data partial counts) = 0

  abbrev pub left_of : Scraper Num → ℕ
  left_of x = phase_left x.api x.phase

  abbrev pub all_left : List (Scraper Num) → ℕ
  all_left [] = 0
  all_left (x ∷ xs) = left_of x + all_left xs

  all_left-append : (xs ys : List (Scraper Num)) → all_left (xs ++ ys) ≡ all_left xs + all_left ys
  all_left-append [] ys = omega arith
  all_left-append (x ∷ xs) ys = omega (arith, all_left-append xs ys)

  abbrev pub steps : {s t : Shared Num} → Reach lower_table sort_slice config s t → ℕ
  steps here = 0
  steps (next r _) = suc (steps r)

  -- The work that a step brings with it: that of a scrape that enters, and the step itself.
  abbrev pub brings : {s t : Shared Num} → Step lower_table sort_slice config s t → ℕ
  brings (enter api metric all_libs _) = 1 + phase_left api (listed metric all_libs)
  brings _ = 0

  abbrev pub brought : {s t : Shared Num} → Reach lower_table sort_slice config s t → ℕ
  brought here = 0
  brought (next r st) = brings st + brought r

  pub moves_lt :
      (s : Shared Num) (before behind : List (Scraper Num)) (x x' : Scraper Num)
      → s.scrapers ≡ before ++ (x ∷ behind)
      → left_of x' < left_of x
      → all_left (before ++ (x' ∷ behind)) < all_left s.scrapers
  moves_lt s before behind x x' e h = omega (
    arith,
    ap all_left e,
    all_left-append before (x ∷ behind),
    all_left-append before (x' ∷ behind),
  )

  moves_le :
      (s : Shared Num) (before behind : List (Scraper Num)) (x x' : Scraper Num)
      → s.scrapers ≡ before ++ (x ∷ behind)
      → left_of x' < left_of x
      → 1 + all_left (before ++ (x' ∷ behind)) ≤ all_left s.scrapers + 0
  moves_le s before behind x x' e h = omega (arith, moves_lt s before behind x x' e h)

  Step-left_le :
      {s t : Shared Num} (st : Step lower_table sort_slice config s t)
      → 1 + all_left t.scrapers ≤ all_left s.scrapers + brings st
  unfolding Fan.start
  Step-left_le {s} (enter api metric all_libs calm) =
      omega (arith, all_left-append s.scrapers (scraper api (listed metric all_libs) ∷ []))
  Step-left_le {s} (use_cache before behind api metric all_libs e keep) =
      moves_le s before behind _ _ e (omega arith)
  Step-left_le {s} (fetch before behind api metric all_libs e refetch) =
      moves_le s before behind _ _ e (omega arith)
  Step-left_le {s} (work before behind api metric all_libs fan fan' e st may) =
      moves_le s before behind _ _ e
        (omega (arith, Progress.Step-work_lt (verdict_of lower_table sort_slice config api) st))
  Step-left_le {s} (miss before behind api metric all_libs fan e done flagged) =
      moves_le s before behind _ _ e (omega arith)
  Step-left_le {s} (complete before behind api metric all_libs fan e done unflagged) =
      moves_le s before behind _ _ e (omega arith)
  Step-left_le {s} (store before behind api metric all_libs pie_data e) =
      moves_le s before behind _ _ e (omega arith)
  Step-left_le {s} (lock_counts before behind api all_libs pie_data partial e free) =
      moves_le s before behind _ _ e (omega arith)
  Step-left_le {s} (unlock_counts before behind api all_libs pie_data partial e) =
      moves_le s before behind _ _ e (omega arith)

  pub Reach-left_le :
      {s t : Shared Num} (r : Reach lower_table sort_slice config s t)
      → steps r + all_left t.scrapers ≤ all_left s.scrapers + brought r
  Reach-left_le here = omega arith
  Reach-left_le (next r st) = omega (arith, Reach-left_le r, Step-left_le st)
