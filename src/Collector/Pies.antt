-- ===== src/Collector/Pies.antt =====
-- The sweep of the library pies of internal/collector/tdarr.go: the body of the worker loop of
-- `getLibStats`, and `fetchPies` as one worker would run it. Pies.Fan has the concurrent workers.
pub mod Fan
pub mod Totals
pub mod Recount
pub mod Sequential
pub mod Schedules
pub mod Progress
use tdarr_exporter.Prelude.{
  ℕ, Bool, true, false, ◌||◌, List, [], ◌∷◌, ◌++◌, map, Option, none, some, if◌then◌else◌,
}
use tdarr_exporter.GoText.{Text, is_empty}
use tdarr_exporter.Models.{TdarrPieDataRequest, TdarrLibraryInfo, TdarrPieStat, TdarrPieStats}
use tdarr_exporter.Enums.{normalize_pie_statuses}
use tdarr_exporter.Collector.Api.{TdarrApi, Result, ok, error, panic, http_req_helper}
use tdarr_exporter.Collector.Unknown.{UnknownStatusCounts, bump_unknown_status}

-- A call of `bumpUnknownStatus`: the kind and the status.
abbrev pub Bump : Type 0
Bump = Text × Text

-- What a worker makes of one request: it drops the library and flags the scrape partial, or it makes
-- these calls of `bumpUnknownStatus` and sends the pie. A panic in a worker, which nothing recovers,
-- ends the process.
pub data Verdict (Num : Type 0) : Type 0 where
  dropped : Verdict Num
  produced : List Bump → TdarrPieStats Num → Verdict Num
  crashed : Verdict Num

abbrev pub note_bump : Text → Text → List Bump → List Bump
note_bump kind status bumps = bumps ++ (kind, status) ∷ []

unfoldable pub pie_data_request : TdarrLibraryInfo → TdarrPieDataRequest
pie_data_request lib = record { library_id = lib.library_id; library_name = lib.name }

module _ {Num : Type 0} (lower_table : ℕ → ℕ) (api : TdarrApi Num) (pie_stats_path : Text) where
  -- pieMetric behind the request, before normalization.
  abbrev pub new_pie : TdarrPieDataRequest → TdarrPieStat Num → TdarrPieStats Num
  new_pie payload stats = record {
    pie_stats = stats;
    library_name = payload.library_name;
    library_id = payload.library_id;
    normalized_transcodes = [];
    normalized_health_checks = [];
  }

  abbrev pub keep_or_drop : TdarrPieStats Num → Verdict Num
  keep_or_drop pie =
      if is_empty pie.library_id || is_empty pie.library_name
      then dropped
      else let (normalized, bumps) = normalize_pie_statuses lower_table (some note_bump) pie [] in
        produced bumps normalized

  -- The body of the loop of `getLibStats`, behind the request and whole.
  abbrev pub after_request : TdarrPieDataRequest → Result (TdarrPieStat Num) → Verdict Num
  after_request payload (ok stats) = keep_or_drop (new_pie payload stats)
  after_request payload (error _) = dropped
  after_request payload panic = crashed

  unfoldable pub get_lib_stats : TdarrPieDataRequest → Verdict Num
  unfolding http_req_helper
  get_lib_stats payload =
      after_request payload
        (http_req_helper (api.marshal_pie payload) (api.do_post_pie pie_stats_path))

-- The calls of `bumpUnknownStatus`, in their order.
unfoldable pub bump_all : List Bump → UnknownStatusCounts → UnknownStatusCounts
bump_all [] counts = counts
bump_all ((kind, status) ∷ bumps) counts = bump_all bumps (bump_unknown_status kind status counts)

-- The sweep's result: the pies, whether a library was dropped, and the counters.
pub record Sweep (Num : Type 0) : Type 0 where
  pub pie_data : List (TdarrPieStats Num)
  pub partial : Bool
  pub counts : UnknownStatusCounts

module _ {Num : Type 0} (verdict : TdarrPieDataRequest → Verdict Num) where
  abbrev pub after_verdict : Verdict Num → Sweep Num → Option (Sweep Num)
  after_verdict dropped s = some (record s { partial = true })
  after_verdict (produced bumps pie) s =
      some (record s { pie_data = s.pie_data ++ pie ∷ []; counts = bump_all bumps s.counts })
  after_verdict crashed s = none

  -- One worker takes every request of the channel; `none` where the process crashes.
  unfoldable pub sweep_from : List TdarrPieDataRequest → Sweep Num → Option (Sweep Num)
  unfolding bump_all
  sweep_from [] s = some s
  sweep_from (payload ∷ in_chan) s = elim (after_verdict (verdict payload) s) [
    | none ↦ none
    | some s' ↦ sweep_from in_chan s'
  ]

  unfoldable pub fetch_pies : List TdarrLibraryInfo → UnknownStatusCounts → Option (Sweep Num)
  unfolding sweep_from pie_data_request
  fetch_pies all_libs counts =
      sweep_from (map pie_data_request all_libs)
        (record { pie_data = []; partial = false; counts = counts })
