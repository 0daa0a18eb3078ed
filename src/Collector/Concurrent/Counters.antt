-- ===== src/Collector/Concurrent/Counters.antt =====
-- The counters of internal/collector/tdarr.go, however the scrapes interleave.
use tdarr_exporter.Prelude.{
  ℕ, ◌+◌, ◌≡◌, ◌<◌, refl, ap, true, false, List, [], ◌∷◌, ◌++◌, map, arith,
}
use tdarr_exporter.Models.{TdarrLibraryInfo, TdarrMetric}
use tdarr_exporter.Collector.Unknown.{UnknownStatusKey, count_of}
use tdarr_exporter.Collector.Cache.{SortSlice, read}
use tdarr_exporter.Collector.Pies.{pie_data_request}
use tdarr_exporter.Collector.Pies.Fan
use tdarr_exporter.Collector.Pies.Fan.{
  Fan, IsFinished, AllExited, Worker, idle, busy, sending, exited,
}
use tdarr_exporter.Metrics.{Float64}
use tdarr_exporter.Collector.Cache.Fingerprint.{Sorts}
use tdarr_exporter.Collector.Scrape.Libraries.{IsFaithful}
use tdarr_exporter.Collector.Pies.Schedules.{finished_drained, held_bumps-spawn}
use tdarr_exporter.Collector.Concurrent.Coverage.{Inv, Inv-empty, Inv-sweeping, Reach-Inv}
use tdarr_exporter.Collector.Pies.Totals.{all_bumps, held_bumps, Step-total_bumps}
use tdarr_exporter.Collector.Api.{TdarrApi}
use tdarr_exporter.Collector.Scrape.{CollectorConfig}
use tdarr_exporter.Collector.Concurrent.{
  Phase, listed, sweeping, swept, gathered, emitting, emitted, Scraper, scraper, Shared, verdict_of,
  Step, enter, use_cache, fetch, work, miss, complete, store, lock_counts, unlock_counts, Reach,
  here, next,
}

module _ {Num : Type 0} (lower_table : ℕ → ℕ) (sort_slice : SortSlice) (config : CollectorConfig)
    (key : UnknownStatusKey) where
  -- The calls of `bumpUnknownStatus` for the key that a scrape has still to make in its sweep.
  abbrev pub pending_in : TdarrApi Num → Phase Num → ℕ
  pending_in api (sweeping _ _ fan) =
      held_bumps (verdict_of lower_table sort_slice config api) key fan.workers
      + all_bumps (verdict_of lower_table sort_slice config api) key fan.in_chan
  pending_in api _ = 0

  abbrev pub pending : List (Scraper Num) → ℕ
  pending [] = 0
  pending (x ∷ xs) = pending_in x.api x.phase + pending xs

  pending-append : (xs ys : List (Scraper Num)) → pending (xs ++ ys) ≡ pending xs + pending ys
  pending-append [] ys = omega arith
  pending-append (x ∷ xs) ys = omega (arith, pending-append xs ys)

  -- The calls that the sweep of a step adds to those still to be made.
  abbrev pub adds : {s t : Shared Num} → Step lower_table sort_slice config s t → ℕ
  adds (enter _ _ _ _) = 0
  adds (use_cache _ _ _ _ _ _ _) = 0
  adds (fetch _ _ api _ all_libs _ _) =
      all_bumps (verdict_of lower_table sort_slice config api) key (map pie_data_request all_libs)
  adds (work _ _ _ _ _ _ _ _ _ _) = 0
  adds (miss _ _ _ _ _ _ _ _ _) = 0
  adds (complete _ _ _ _ _ _ _ _ _) = 0
  adds (store _ _ _ _ _ _ _) = 0
  adds (lock_counts _ _ _ _ _ _ _ _) = 0
  adds (unlock_counts _ _ _ _ _ _ _) = 0

  -- The calls of every sweep that was started along a schedule.
  abbrev pub all_adds : {s t : Shared Num} → Reach lower_table sort_slice config s t → ℕ
  all_adds here = 0
  all_adds (next r st) = all_adds r + adds st

  -- What is counted or still to be counted.
  abbrev pub total : Shared Num → ℕ
  total s = count_of key s.unknown_status_counts + pending s.scrapers

  AllExited-held_bumps :
      (api : TdarrApi Num) (ws : List (Worker Num))
      → AllExited ws
      → held_bumps (verdict_of lower_table sort_slice config api) key ws ≡ 0
  AllExited-held_bumps api [] h = refl
  AllExited-held_bumps api (exited ∷ ws) h = AllExited-held_bumps api ws h
  AllExited-held_bumps api (_ ∷ ws) h = absurd h

  -- What a scrape's step changes of what is pending.
  pending-replace :
      (xs before behind : List (Scraper Num)) (api : TdarrApi Num) (p p' : Phase Num)
      → xs ≡ before ++ (scraper api p ∷ behind)
      → pending (before ++ (scraper api p' ∷ behind)) + pending_in api p
        ≡ pending xs + pending_in api p'
  pending-replace xs before behind api p p' e = omega (
    arith,
    ap pending e,
    pending-append before (scraper api p ∷ behind),
    pending-append before (scraper api p' ∷ behind),
  )

  module _ (fl : Float64 Num) (sorted : Sorts sort_slice)
      (positive : 0 < config.max_concurrency) where
    finished_pending :
        (s : Shared Num) (before behind : List (Scraper Num)) (api : TdarrApi Num)
        (metric : TdarrMetric Num) (all_libs : List TdarrLibraryInfo) (fan : Fan Num)
        → Inv fl lower_table sort_slice config sorted positive s
        → s.scrapers ≡ before ++ (scraper api (sweeping metric all_libs fan) ∷ behind)
        → IsFinished fan
        → pending_in api (sweeping metric all_libs fan) ≡ 0
    finished_pending s before behind api metric all_libs fan inv e (left, empty) =
        let (c, c', r) =
          Inv-sweeping fl lower_table sort_slice config sorted positive s before behind api metric
            all_libs fan inv e in
        let drained =
          finished_drained (verdict_of lower_table sort_slice config api) config.max_concurrency
            all_libs c (record fan { counts = c' }) positive r (left, empty) in
        omega (
          arith,
          AllExited-held_bumps api fan.workers left,
          ap (all_bumps (verdict_of lower_table sort_slice config api) key) drained,
        )

    Step-total :
        {s t : Shared Num} (st : Step lower_table sort_slice config s t)
        → Inv fl lower_table sort_slice config sorted positive s
        → total t ≡ total s + adds st
    unfolding Fan.start
    Step-total {s} (enter api metric all_libs calm) inv =
        omega (arith, pending-append s.scrapers (scraper api (listed metric all_libs) ∷ []))
    Step-total {s} (use_cache before behind api metric all_libs e keep) inv = omega (
      arith,
      pending-replace s.scrapers before behind api (listed metric all_libs)
          (gathered all_libs (read s.stats_cache).stats false) e,
    )
    Step-total {s} (fetch before behind api metric all_libs e refetch) inv =
        let fan : Fan Num = Fan.start config.max_concurrency all_libs s.unknown_status_counts in
        omega (
          arith,
          pending-replace s.scrapers before behind api (listed metric all_libs)
              (sweeping metric all_libs fan) e,
          held_bumps-spawn (verdict_of lower_table sort_slice config api) key
              config.max_concurrency,
        )
    Step-total {s} (work before behind api metric all_libs fan fan' e st may) inv = omega (
      arith,
      pending-replace s.scrapers before behind api (sweeping metric all_libs fan)
          (sweeping metric all_libs fan') e,
      Step-total_bumps (verdict_of lower_table sort_slice config api) key st,
    )
    Step-total {s} (miss before behind api metric all_libs fan e done flagged) inv = omega (
      arith,
      pending-replace s.scrapers before behind api (sweeping metric all_libs fan)
          (gathered all_libs fan.pie_data true) e,
      finished_pending s before behind api metric all_libs fan inv e done,
    )
    Step-total {s} (complete before behind api metric all_libs fan e done unflagged) inv = omega (
      arith,
      pending-replace s.scrapers before behind api (sweeping metric all_libs fan)
          (swept metric all_libs fan.pie_data) e,
      finished_pending s before behind api metric all_libs fan inv e done,
    )
    Step-total {s} (store before behind api metric all_libs pie_data e) inv = omega (
      arith,
      pending-replace s.scrapers before behind api (swept metric all_libs pie_data)
          (gathered all_libs pie_data false) e,
    )
    Step-total {s} (lock_counts before behind api all_libs pie_data partial e free) inv = omega (
      arith,
      pending-replace s.scrapers before behind api (gathered all_libs pie_data partial)
          (emitting all_libs pie_data partial) e,
    )
    Step-total {s} (unlock_counts before behind api all_libs pie_data partial e) inv = omega (
      arith,
      pending-replace s.scrapers before behind api (emitting all_libs pie_data partial)
          (emitted all_libs pie_data partial s.unknown_status_counts) e,
    )

    Reach-total :
        {s t : Shared Num}
        → Inv fl lower_table sort_slice config sorted positive s
        → (r : Reach lower_table sort_slice config s t) → total t ≡ total s + all_adds r
    Reach-total inv here = omega arith
    Reach-total inv (next r st) =
        let before = Reach-Inv fl lower_table sort_slice config sorted positive inv r in
        omega (arith, Reach-total inv r, Step-total st before)

    -- However scrapes interleave over one collector whose cache is faithful at first, with a positive concurrency, a
    -- sorting `sort.Slice` and requests that do not panic: the counter of an unknown status is what it was, and each
    -- call of `bumpUnknownStatus` for it of each sweep that was started, once, less the calls that the sweeps under way
    -- have still to make. No call is lost or made twice.
    pub Reach-count_of :
        (s t : Shared Num)
        → IsFaithful s.stats_cache
        → s.scrapers ≡ []
        → (r : Reach lower_table sort_slice config s t)
        → count_of key t.unknown_status_counts + pending t.scrapers
          ≡ count_of key s.unknown_status_counts + all_adds r
    Reach-count_of s t faithful none_yet r = omega (
      arith,
      Reach-total {s = s}
          (Inv-empty fl lower_table sort_slice config sorted positive s faithful none_yet) r,
      ap pending none_yet,
    )
