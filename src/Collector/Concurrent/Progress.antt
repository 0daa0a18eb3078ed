-- ===== src/Collector/Concurrent/Progress.antt =====
-- The steps that the scrapes of internal/collector/tdarr.go can take.
pub mod Work
use tdarr_exporter.Prelude.{
  ℕ, suc, ◌+◌, ◌≤◌, ◌<◌, ◌≡◌, refl, sym, ap, ◌∙◌, ◌⊎◌, inl, inr, Bool, false, List, [], ◌∷◌, ◌++◌,
  All, Bool-cases, arith,
}
use tdarr_exporter.Models.{TdarrLibraryInfo, TdarrPieStats}
use tdarr_exporter.Metrics.{Float64}
use tdarr_exporter.Collector.Api.{TdarrApi}
use tdarr_exporter.Collector.Cache.{SortSlice, read, library_fingerprint, should_refetch}
use tdarr_exporter.Collector.Cache.Fingerprint.{Sorts}
use tdarr_exporter.Collector.Pies.Fan
use tdarr_exporter.Collector.Pies.Fan.{Fan, IsFinished}
use tdarr_exporter.Collector.Pies.Progress
use tdarr_exporter.Collector.Scrape.{CollectorConfig}
use tdarr_exporter.Collector.Scrape.Libraries.{IsFaithful}
use tdarr_exporter.Collector.Scrape.Survival.{get_lib_stats-ne-crashed}
use tdarr_exporter.Collector.Concurrent.{
  Phase, listed, sweeping, swept, gathered, emitting, emitted, Scraper, scraper, Shared, verdict_of,
  IsCalm, enter, use_cache, fetch, work, miss, complete, store, lock_counts, unlock_counts, Step,
  Reach, here, next,
}
use tdarr_exporter.Collector.Unknown.{UnknownStatusCounts}
use tdarr_exporter.Collector.Concurrent.Locking.{is_emitting, emitters, held, Reach-held}
use tdarr_exporter.Collector.Concurrent.Coverage.{IsFine, Inv-empty, Reach-Inv}
use mathlib.Core.List.{append_assoc}
use tdarr_exporter.Collector.Concurrent.Progress.Work.{
  steps, all_left, brought, moves_lt, Reach-left_le,
}

-- A scrape that has its pies and has sent the counters.
abbrev pub HasEmitted : {Num : Type 0} → Scraper Num → Type 0
HasEmitted {Num} x =
    (all_libs : List TdarrLibraryInfo) × (pie_data : List (TdarrPieStats Num)) × (partial : Bool)
    × (counts : UnknownStatusCounts) × (x.phase ≡ emitted all_libs pie_data partial counts)

module _ {Num : Type 0} (lower_table : ℕ → ℕ) (sort_slice : SortSlice)
    (config : CollectorConfig) where
  -- A step after which less work is left.
  abbrev pub CanMove : Shared Num → Type 0
  CanMove s =
      (t : Shared Num) × Step lower_table sort_slice config s t
      × (all_left lower_table sort_slice config t.scrapers
          < all_left lower_table sort_slice config s.scrapers)

  -- One scrape, whatever its phase.
  step_of :
      (s : Shared Num) (before behind : List (Scraper Num)) (fl : Float64 Num) (api : TdarrApi Num)
      (p : Phase Num)
      → IsCalm lower_table sort_slice config api
      → s.scrapers ≡ before ++ (scraper api p ∷ behind)
      → s.unknown_status_mu ≡ false
      → HasEmitted (scraper api p) ⊎ CanMove s
  unfolding Fan.start
  step_of s before behind fl api (listed metric all_libs) calm e free =
      elim (Bool-cases
        (should_refetch (read s.stats_cache) metric (library_fingerprint sort_slice all_libs))) [
          | inl refetch ↦
              let st = fetch before behind api metric all_libs e refetch in
              inr
                (_, st, moves_lt lower_table sort_slice config s before behind _ _ e (omega arith))
          | inr keep ↦
              let st = use_cache before behind api metric all_libs e keep in
              inr
                (_, st, moves_lt lower_table sort_slice config s before behind _ _ e (omega arith))
        ]
  step_of s before behind fl api (sweeping metric all_libs fan) calm e free =
      elim (Progress.progress (verdict_of lower_table sort_slice config api)
        (get_lib_stats-ne-crashed fl lower_table sort_slice config api calm)
        (record fan { counts = s.unknown_status_counts })) [
          | inl done ↦ elim (Bool-cases fan.partial) [
            | inl missing ↦ inr (
              _,
              miss before behind api metric all_libs fan e done missing,
              moves_lt lower_table sort_slice config s before behind _ _ e (omega arith),
            )
            | inr covered ↦ inr (
              _,
              complete before behind api metric all_libs fan e done covered,
              moves_lt lower_table sort_slice config s before behind _ _ e (omega arith),
            )
          ]
          | inr (fan', st) ↦ inr (
            _,
            work before behind api metric all_libs fan fan' e st (inl free),
            moves_lt lower_table sort_slice config s before behind _ _ e (
                omega
                  (arith, Progress.Step-work_lt (verdict_of lower_table sort_slice config api) st)),
          )
        ]
  step_of s before behind fl api (swept metric all_libs pie_data) calm e free = inr (
    _,
    store before behind api metric all_libs pie_data e,
    moves_lt lower_table sort_slice config s before behind _ _ e (omega arith),
  )
  step_of s before behind fl api (gathered all_libs pie_data partial) calm e free = inr (
    _,
    lock_counts before behind api all_libs pie_data partial e free,
    moves_lt lower_table sort_slice config s before behind _ _ e (omega arith),
  )
  step_of s before behind fl api (emitting all_libs pie_data partial) calm e free = inr (
    _,
    unlock_counts before behind api all_libs pie_data partial e,
    moves_lt lower_table sort_slice config s before behind _ _ e (omega arith),
  )
  step_of s before behind fl api (emitted all_libs pie_data partial counts) calm e free =
      inl (all_libs, pie_data, partial, counts, refl)

  emitting_step :
      (s : Shared Num) (before behind : List (Scraper Num)) (api : TdarrApi Num) (p : Phase Num)
      → s.scrapers ≡ before ++ (scraper api p ∷ behind)
      → (is_emitting p ≡ 0) ⊎ CanMove s
  emitting_step s before behind api (emitting all_libs pie_data partial) e = inr (
    _,
    unlock_counts before behind api all_libs pie_data partial e,
    moves_lt lower_table sort_slice config s before behind _ _ e (omega arith),
  )
  emitting_step s before behind api _ e = inl refl

  -- Where the lock of the counters is held, a scrape holds it, and can release it.
  unlock_step :
      (s : Shared Num) (before behind : List (Scraper Num))
      → emitters behind ≡ 1
      → s.scrapers ≡ before ++ behind
      → CanMove s
  unlock_step s before [] one e = absurd (omega (arith, one))
  unlock_step s before (x ∷ behind) one e = elim (emitting_step s before behind x.api x.phase e) [
    | inr moves ↦ moves
    | inl none_here ↦
        unlock_step s (before ++ x ∷ []) behind (omega (arith, one, none_here))
          (e ∙ sym (append_assoc before (x ∷ []) behind))
  ]

  module _ (fl : Float64 Num) (sorted : Sorts sort_slice)
      (positive : 0 < config.max_concurrency) where
    abbrev IsFineScraper : Scraper Num → Type 0
    IsFineScraper = IsFine fl lower_table sort_slice config sorted positive

    first_move :
        (s : Shared Num) (before behind : List (Scraper Num))
        → All IsFineScraper behind
        → s.scrapers ≡ before ++ behind
        → s.unknown_status_mu ≡ false
        → All HasEmitted behind ⊎ CanMove s
    first_move s before [] fine e free = inl tt
    first_move s before (x ∷ behind) ((calm, _), fine) e free =
        elim (step_of s before behind fl x.api x.phase calm e free) [
          | inr moves ↦ inr moves
          | inl has ↦
              elim (first_move s (before ++ x ∷ []) behind fine
                (e ∙ sym (append_assoc before (x ∷ []) behind)) free) [
                  | inl rest ↦ inl (has, rest)
                  | inr moves ↦ inr moves
                ]
        ]

    -- However scrapes interleave over one collector whose cache is faithful and whose counters are not locked at
    -- first, with a positive concurrency, a sorting `sort.Slice` and requests that do not panic: no schedule makes
    -- more steps lower_table sort_slice config than the work that the scrapes brought lower_table sort_slice config with them as they entered, less what is left of it; and in
    -- every state all the scrapes have sent their counters, or one of them can take a step after which less is left,
    -- also where one holds the lock of the counters and others wait for it.
    pub Reach-Moves :
        {s t : Shared Num} (r : Reach lower_table sort_slice config s t)
        → IsFaithful s.stats_cache
        → s.scrapers ≡ []
        → s.unknown_status_mu ≡ false
        → (steps lower_table sort_slice config r + all_left lower_table sort_slice config t.scrapers
            ≤ brought lower_table sort_slice config r)
          × (All HasEmitted t.scrapers ⊎ CanMove t)
    Reach-Moves {s} {t} r faithful none_yet free =
        let first : emitters s.scrapers ≡ held s.unknown_status_mu = rw (none_yet, free) refl in
        let locks = Reach-held lower_table sort_slice config r first in
        (
          omega (
            arith,
            Reach-left_le lower_table sort_slice config r,
            ap (all_left lower_table sort_slice config) none_yet,
          ),
          elim (Bool-cases t.unknown_status_mu) [
            | inl locked ↦ inr (unlock_step t [] t.scrapers (rw locked at locks) refl)
            | inr unlocked ↦
                first_move t [] t.scrapers
                  (Reach-Inv fl lower_table sort_slice config sorted positive
                    (Inv-empty fl lower_table sort_slice config sorted positive s faithful none_yet)
                    r).fine
                  refl unlocked
          ],
        )
