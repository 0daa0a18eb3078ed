-- ===== src/Tests/Sweep.antt =====
-- A sweep of one library by one worker: `fetchPies` of internal/collector/tdarr.go.
use tdarr_exporter.Prelude.{◌+◌, ◌≤◌, ◌≡◌, refl, false, List, [], ◌∷◌, some, arith}
use tdarr_exporter.Prelude.Int.{ℤ}
use tdarr_exporter.Prelude.Assoc.{insert, lookup}
use tdarr_exporter.GoText.{lit}
use tdarr_exporter.Models.{TdarrPieDataRequest, TdarrLibraryInfo}
use tdarr_exporter.Collector.Unknown.{
  UnknownStatusKey, UnknownStatusCounts, count_of, bump_unknown_status,
}
use tdarr_exporter.Collector.Pies.{Bump, Verdict, produced, Sweep, fetch_pies}
use tdarr_exporter.Collector.Pies.Fan.{
  Worker, busy, exited, Fan, start, take, answer, bump, send, leave, gather, Reach, here, next,
  IsFinished,
}
use tdarr_exporter.Collector.Pies.Schedules.{schedule-fetch_pies}
use tdarr_exporter.Collector.Pies.Progress.{work, steps, steps-le_work, sweep_finishes}
use tdarr_exporter.Tests.Enums.{movies_pie}
use mathlib.Core.List.{Perm}

abbrev libs : List TdarrLibraryInfo
libs = record { library_id = lit "m"; name = lit "Movies" } ∷ []

abbrev bumps : List Bump
bumps = (lit "transcode", lit "exploded") ∷ []

abbrev verdict : TdarrPieDataRequest → Verdict ℤ
verdict _ = produced bumps movies_pie

abbrev request : TdarrPieDataRequest
request = record { library_id = lit "m"; library_name = lit "Movies" }

abbrev counted : UnknownStatusCounts
counted = (record { kind = lit "transcode"; status = lit "exploded" }, 1) ∷ []

abbrev state_of : List TdarrPieDataRequest → Worker ℤ → Fan ℤ
state_of in_chan w = record {
  in_chan = in_chan;
  workers = w ∷ [];
  out_chan = [];
  pie_data = [];
  partial = false;
  counts = [];
}

abbrev finished : Fan ℤ
finished = record {
  in_chan = [];
  workers = exited ∷ [];
  out_chan = [];
  pie_data = movies_pie ∷ [];
  partial = false;
  counts = counted;
}

abbrev sweep : Sweep ℤ
sweep = record { pie_data = movies_pie ∷ []; partial = false; counts = counted }

fetch_run : fetch_pies verdict libs [] ≡ some sweep
unfolding fetch_pies bump_unknown_status insert lookup
fetch_run = refl

-- The worker takes the library, is answered, bumps, sends and leaves, and the drain gathers.
run : Reach verdict (start 1 libs []) finished
unfolding start bump_unknown_status insert lookup
run =
    next
      (next
        (next
          (next
            (next (next here (take [] [] request [] refl refl))
              (answer [] [] request bumps movies_pie refl refl))
            (bump [] [] (lit "transcode", lit "exploded") [] movies_pie refl))
          (send [] [] movies_pie refl))
        (leave [] [] refl refl))
      (gather movies_pie [] refl)

schedule-fetch_pies_example :
    Perm finished.pie_data sweep.pie_data
    × (finished.partial ≡ sweep.partial)
    × ((key : UnknownStatusKey) → count_of key finished.counts ≡ count_of key sweep.counts)
schedule-fetch_pies_example =
    schedule-fetch_pies verdict 1 libs [] sweep finished (omega arith) fetch_run run (tt, refl)

steps-le_work_example : steps verdict run + work verdict finished ≤ work verdict (start 1 libs [])
steps-le_work_example = steps-le_work verdict run

sweep_finishes_example : (t : Fan ℤ) × Reach verdict (state_of [] (busy request)) t × IsFinished t
sweep_finishes_example = sweep_finishes verdict (λ p e. cc) (state_of [] (busy request))
